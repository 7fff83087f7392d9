-- ===== src/Logging.antt =====
-- libsrc/c/AtmiCtx.c and libsrc/c/logging.c, the methods of AtmiCtx that write to the logs. What the
-- logs of Enduro/X are given is kept as a list of entries, the last first.
pub mod History
pub mod Requests
use mathlib.Core.Option
use endurox_java.Base.{
  ℕ, ◌+◌, ◌-◌, ◌<◌, Bool, true, false, ◌||◌, Option, none, some, List, [], ◌∷◌, ◌++◌, if◌then◌else◌,
  take, length, ltb,
}
use endurox_java.Base.Bytes.{CString, codes}
use endurox_java.Buffers.{World, Exception, get_ctx, unset_ctx, nstd_throw}
use endurox_java.Exceptions.Backtrace.{Throwable, exception_backtrace}
use endurox_java.Ubf.{Jint, exfail, at}

-- The bytes of a string or an array of Java, and what the JVM writes to its isCopy.
pub record Chars : Type 0 where
  pub bytes : CString
  pub copied : Bool

-- The logs that an exception goes to, with the level where there is one.
pub data Topic : Type 0 where
  user_log : Topic
  ndrx_log ubf_log tp_log : (lev : ℕ) → Topic

-- What is written. A `diff_entry` has the bytes of both arrays that are compared.
pub data Entry : Type 0 where
  exception_entry : Topic → (text : CString) → Entry
  plain_entry : (lev : ℕ) → (text : CString) → Entry
  located_entry : (lev : ℕ) → (file : CString) → (line : ℕ) → (text : CString) → Entry
  dump_entry : (lev : ℕ) → (text : CString) → List ℕ → Entry
  diff_entry : (lev : ℕ) → (text : CString) → (first second : List ℕ) → Entry

-- `refs` counts local references of Java, `copies` the copies that the JVM made of strings and arrays
-- and that were not given back.
pub record Logs : Type 0 where
  pub world : World
  pub refs : ℕ
  pub copies : ℕ
  pub entries : List Entry

abbrev pub on_logs_world : (World → World) → Logs → Logs
on_logs_world f s = record s { world = f s.world }

abbrev pub write : Entry → Logs → Logs
write e s = record s { entries = e ∷ s.entries }

-- What the pointer leads to; NULL is not read where it is not tested.
abbrev pub bytes_of : Option Chars → CString
bytes_of none = []
bytes_of (some c) = c.bytes

-- GetStringUTFChars and GetByteArrayElements. JNI leaves open what they do with NULL.
unfoldable pub take_chars : Option Chars → Logs → Logs
take_chars none s = on_logs_world (λ w. record w { undefined = true }) s
take_chars (some c) s = record s { copies = if c.copied then s.copies + 1 else s.copies }

-- The same under a test for NULL.
unfoldable pub take_given : Option Chars → Logs → Logs
take_given none s = s
take_given (some c) s = take_chars (some c) s

-- The release under the flag of the copy.
unfoldable pub release_chars : Option Chars → Logs → Logs
release_chars none s = s
release_chars (some c) s = record s { copies = if c.copied then s.copies - 1 else s.copies }

-- ReleaseByteArrayElements of the elements of one array with another array. JNI leaves that open, and the
-- copy is not taken as given back.
unfoldable pub release_other : Option Chars → Logs → Logs
release_other none s = s
release_other (some c) s = on_logs_world (λ w. record w { undefined = c.copied || w.undefined }) s

-- A method that jumps to `out:` without a context: up to the switch back.
unfoldable pub or_out : (known : Bool) → (body : Logs → Logs) → Logs → Logs
or_out known body s =
    let (got, w) = get_ctx known true s.world in
    let t = record s { world = w } in
    let ran = body t in on_logs_world unset_ctx (if got then ran else t)

-- A method that returns without a context; `release` is behind the switch back.
unfoldable pub or_return : (known do_set : Bool) → (body release : Logs → Logs) → Logs → Logs
or_return known do_set body release s =
    let (got, w) = get_ctx known do_set s.world in
    let t = record s { world = w } in
    let ran = release (on_logs_world unset_ctx (body t)) in if got then ran else t

-- The text behind the message of an exception entry.
abbrev pub backtrace_text : Option CString → CString
backtrace_text none = codes "no JNI exception"
backtrace_text (some t) = t

-- `NDRXJ_LOG_EXCEPTION_E`; `trace` is what the JVM tells of an exception that is pending.
unfoldable pub log_exception_e :
    (trace : Exception → Throwable) → Topic → (msg : CString) → Option Throwable → Logs → Logs
log_exception_e trace topic msg e s =
    let (text, refs) = exception_backtrace e (Option.map trace s.world.pending) s.refs in
    write (exception_entry topic (msg ++ codes ": " ++ backtrace_text text))
      (record s { refs = refs })

-- What the four methods for exceptions share.
unfoldable pub log_exception :
    (trace : Exception → Throwable)
    → Topic
    → (known : Bool) → (msg : Option Chars) → Option Throwable
    → Logs
    → Logs
log_exception trace topic known msg e s =
    release_chars msg
      (or_out known (log_exception_e trace topic (bytes_of msg) e) (take_chars msg s))

-- The methods, with what they are called with, `known` excepted.
pub data LogCall : Type 0 where
  tplogubfex tplogndrxex tplogex : (lev : ℕ) → (msg : Option Chars) → Option Throwable → LogCall
  userlogex : (msg : Option Chars) → Option Throwable → LogCall
  tplog_c : (lev : ℕ) → (file : Option Chars) → (line : Jint) → (msg : Option Chars) → LogCall
  tplogndrx_c : (lev : ℕ) → (file : Option Chars) → (line : Jint) → (msg : Option Chars) → LogCall
  tplog_dump : (lev : ℕ) → (msg data_of : Option Chars) → LogCall
  tplog_dump_diff : (lev : ℕ) → (msg data1 data2 : Option Chars) → LogCall

-- The test for a line number.
unfoldable pub entry_at : (lev : ℕ) → (file : CString) → (line : Jint) → (msg : CString) → Entry
entry_at lev file exfail msg = plain_entry lev msg
entry_at lev file (at n) msg = located_entry lev file n msg

-- The file of an entry whose class has none.
unfoldable pub file_name : Option Chars → CString
file_name none = codes "?.java"
file_name (some f) = f.bytes

-- `tplogdumpdiff` with twice the length of the first array, so that bytes behind a shorter second one
-- are read.
unfoldable pub write_diff : (lev : ℕ) → (msg : CString) → (first second : List ℕ) → Logs → Logs
write_diff lev msg first second s = write (diff_entry lev msg first (take (length first) second)) (
    on_logs_world (λ w. record w { undefined = ltb (length second) (length first) || w.undefined })
      s)

-- A log method.
unfoldable pub run_log : (trace : Exception → Throwable) → (known : Bool) → LogCall → Logs → Logs
run_log trace known (tplogubfex lev msg e) s = log_exception trace (ubf_log lev) known msg e s
run_log trace known (tplogndrxex lev msg e) s = log_exception trace (ndrx_log lev) known msg e s
run_log trace known (tplogex lev msg e) s = log_exception trace (tp_log lev) known msg e s
run_log trace known (userlogex msg e) s = log_exception trace user_log known msg e s
run_log trace known (tplog_c lev file line msg) s =
    or_return known true (write (entry_at lev (file_name file) line (bytes_of msg)))
      (λ t. release_chars msg (release_chars file t)) (take_given file (take_chars msg s))
run_log trace known (tplogndrx_c lev file line msg) s =
    or_return known false (write (entry_at lev (bytes_of file) line (bytes_of msg)))
      (λ t. release_chars msg (release_chars file t)) (take_chars msg (take_chars file s))
run_log trace known (tplog_dump lev msg data_of) s =
    or_return known true (write (dump_entry lev (bytes_of msg) (bytes_of data_of)))
      (λ t. release_chars data_of (release_chars msg t)) (take_chars data_of (take_chars msg s))
run_log trace known (tplog_dump_diff lev msg data1 data2) s =
    or_return known true (write_diff lev (bytes_of msg) (bytes_of data1) (bytes_of data2))
      (λ t. release_other data2 (release_chars data1 (release_chars msg t)))
      (take_chars data2 (take_chars data1 (take_chars msg s)))

-- `tplogqinfo`; `answer` is what the library returns, with its Nerror.
unfoldable pub tplogqinfo : (known : Bool) → (answer : Jint × ℕ) → Logs → Jint × Logs
tplogqinfo known (exfail, err) s =
    let (got, w) = get_ctx known true s.world in
    let t = record s { world = w } in
    if got
    then (exfail, on_logs_world unset_ctx (on_logs_world (nstd_throw err) t))
    else (at 0, on_logs_world unset_ctx t)
tplogqinfo known (at n, err) s =
    let (got, w) = get_ctx known true s.world in
    let t = on_logs_world unset_ctx (record s { world = w }) in if got then (at n, t) else (at 0, t)
