-- ===== src/Logging/History.antt =====
-- What a history of log methods writes and what it keeps.
use endurox_java.Logging.{
  diff_entry, tplog_dump_diff, dump_entry, tplog_dump, file_name, tplogndrx_c, entry_at, tplog_c,
  user_log, userlogex, tp_log, ndrx_log, tplogex, bytes_of, exception_entry, tplogndrxex, ubf_log,
  run_log, Entry, Logs, tplogubfex, LogCall, Topic, Chars,
}
use mathlib.Core.Option
use endurox_java.Base.{
  length, take, ℕ, ◌+◌, ◌≡◌, Bool, false, Option, none, some, List, [], ◌∷◌, ◌++◌, if◌then◌else◌,
}
use endurox_java.Base.Bytes.{CString, codes}
use endurox_java.Buffers.{Exception, atmi_exception, tpeinval}
use endurox_java.Exceptions.Backtrace.{Throwable, all_lines}

-- The methods in turn, each with whether its object holds a context.
abbrev pub run_logs : (trace : Exception → Throwable) → List (Bool × LogCall) → Logs → Logs
run_logs trace [] s = s
run_logs trace ((known, c) ∷ cs) s = run_logs trace cs (run_log trace known c s)

-- The exception that is told: the one that is passed, or else the one that is pending.
abbrev told : (trace : Exception → Throwable) → Option Throwable → Option Exception → CString
told trace (some e) pending = all_lines e
told trace none (some p) = all_lines (trace p)
told trace none none = codes "no JNI exception"

abbrev explained : Topic → Option Chars → CString → Entry
explained topic msg text = exception_entry topic (bytes_of msg ++ codes ": " ++ text)

-- The entry that a method writes with a context.
abbrev pub entry_of : (trace : Exception → Throwable) → LogCall → Option Exception → Entry
entry_of trace (tplogubfex lev msg e) p = explained (ubf_log lev) msg (told trace e p)
entry_of trace (tplogndrxex lev msg e) p = explained (ndrx_log lev) msg (told trace e p)
entry_of trace (tplogex lev msg e) p = explained (tp_log lev) msg (told trace e p)
entry_of trace (userlogex msg e) p = explained user_log msg (told trace e p)
entry_of trace (tplog_c lev file line msg) p = entry_at lev (file_name file) line (bytes_of msg)
entry_of trace (tplogndrx_c lev file line msg) p = entry_at lev (bytes_of file) line (bytes_of msg)
entry_of trace (tplog_dump lev msg d) p = dump_entry lev (bytes_of msg) (bytes_of d)
entry_of trace (tplog_dump_diff lev msg d e) p =
    diff_entry lev (bytes_of msg) (bytes_of d) (take (length (bytes_of d)) (bytes_of e))

abbrev one : Option Chars → ℕ
one none = 0
one (some c) = if c.copied then 1 else 0

-- The copies that a method keeps without a context.
abbrev pub kept_of : LogCall → ℕ
kept_of (tplogubfex lev msg e) = 0
kept_of (tplogndrxex lev msg e) = 0
kept_of (tplogex lev msg e) = 0
kept_of (userlogex msg e) = 0
kept_of (tplog_c lev file line msg) = one file + one msg
kept_of (tplogndrx_c lev file line msg) = one file + one msg
kept_of (tplog_dump lev msg d) = one msg + one d
kept_of (tplog_dump_diff lev msg d e) = one msg + one d + one e

-- The copy that a method keeps with a context: the second array of a difference is released with the
-- first.
abbrev pub left_of : LogCall → ℕ
left_of (tplogubfex lev msg e) = 0
left_of (tplogndrxex lev msg e) = 0
left_of (tplogex lev msg e) = 0
left_of (userlogex msg e) = 0
left_of (tplog_c lev file line msg) = 0
left_of (tplogndrx_c lev file line msg) = 0
left_of (tplog_dump lev msg d) = 0
left_of (tplog_dump_diff lev msg d e) = one e

-- The exception behind a method: the first method without a context sets it, and those after it see it.
abbrev pub next_pending : (known : Bool) → Option Exception → Option Exception
next_pending known p = if known then p else some (atmi_exception tpeinval none false)

abbrev pub entries_of :
    (trace : Exception → Throwable)
    → List (Bool × LogCall)
    → Option Exception
    → List Entry
    → List Entry
entries_of trace [] p es = es
entries_of trace ((known, c) ∷ cs) p es =
    entries_of trace cs (next_pending known p) (if known then entry_of trace c p ∷ es else es)

abbrev pub copies_of : List (Bool × LogCall) → ℕ
copies_of [] = 0
copies_of ((known, c) ∷ cs) =
    let rest = copies_of cs in (if known then left_of c else kept_of c) + rest

-- What one method does.
record Logged (trace : Exception → Throwable) (known : Bool) (c : LogCall) (s t : Logs)
    : Type 0 where
  entries : t.entries ≡ (if known then entry_of trace c s.world.pending ∷ s.entries else s.entries)
  copies : t.copies ≡ s.copies + (if known then left_of c else kept_of c)
  pending : t.world.pending ≡ next_pending known s.world.pending

-- What a step on characters leaves, with the copies that are held behind it.
record Held (n : ℕ) (s t : Logs) : Type 0 where
  entries : t.entries ≡ s.entries
  copies : t.copies ≡ n
  pending : t.world.pending ≡ s.world.pending
