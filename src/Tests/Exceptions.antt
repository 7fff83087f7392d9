-- ===== src/Tests/Exceptions.antt =====
-- The theorems on exceptions, applied to two throws and the table of the library's classes.
use endurox_java.Base.{
  ℕ, ◌≡◌, ◌≢◌, refl, true, false, none, some, List, [], ◌∷◌, arith, length, ◌<◌,
}
use mathlib.Core.List.{Nodup-nil, not-mem-nil}
use mathlib.Core.Option
use endurox_java.Base.Bytes.{CString, codes}
use endurox_java.Buffers
use endurox_java.Buffers.{
  UbfCode, bminval, beinval, beunix, other_berror, Code, tpeinval, tpesvcfail, tpeevent,
  tpediagnostic, other_code, World,
}
use endurox_java.Linker.Resources.{HashLib}
use endurox_java.Exceptions.{Cached, class_name_of, Answers, Env, atmi_throw}
use endurox_java.Exceptions.Names.{Texts}
use endurox_java.Exceptions.Load.{Loading}
use endurox_java.Exceptions.Sound.{Good}
use endurox_java.Exceptions.Throws.{Throw, atmi_of, nstd_of, throws, throws-Good}
use endurox_java.Exceptions.Backtrace.{Throwable, uncaused, caused_by, all_lines}
use endurox_java.Exceptions.Pending.{as_thrown, Gives, atmi_throw_pending}
use endurox_java.Tests.HashList.{hash_list}
use endurox_java.Tests.Calls.{start}

abbrev classes : HashLib Cached class_name_of
classes = hash_list class_name_of

abbrev text : Code → CString
text tpeinval = codes "TPEINVAL"
text tpesvcfail = codes "TPESVCFAIL"
text tpeevent = codes "TPEEVENT"
text tpediagnostic = codes "TPEDIAGNOSTIC"
text (other_code n) = codes "TPESYSTEM"

lengths : (m n : List ℕ) → length m ≢ length n → m ≢ n
lengths m n ne e = ne cc

text-Texts : Texts text
text-Texts = record { short = short; diagnostic = diagnostic }
  where
    short : (c : Code) → length (text c) < 200
    short tpeinval = omega arith
    short tpesvcfail = omega arith
    short tpeevent = omega arith
    short tpediagnostic = omega arith
    short (other_code n) = omega arith

    diagnostic : (c : Code) → text c ≡ text tpediagnostic → c ≡ tpediagnostic
    diagnostic tpeinval e =
        absurd (lengths (codes "TPEINVAL") (codes "TPEDIAGNOSTIC") (λ p. omega (arith, p)) e)
    diagnostic tpesvcfail e =
        absurd (lengths (codes "TPESVCFAIL") (codes "TPEDIAGNOSTIC") (λ p. omega (arith, p)) e)
    diagnostic tpeevent e =
        absurd (lengths (codes "TPEEVENT") (codes "TPEDIAGNOSTIC") (λ p. omega (arith, p)) e)
    diagnostic tpediagnostic e = refl
    diagnostic (other_code n) e =
        absurd (lengths (codes "TPESYSTEM") (codes "TPEDIAGNOSTIC") (λ p. omega (arith, p)) e)

abbrev given : Answers
given = record {
  class_found = true;
  mid_found = true;
  qctl_found = true;
  data_found = true;
  malloc_ok = true;
  weak_made = true;
  object_made = true;
}

abbrev fresh : Env classes
fresh = record {
  cache = classes.empty;
  class_refs = 0;
  weak_refs = 0;
  released = 0;
  pending = none;
  aborted = false;
  null_used = false;
}

abbrev two_throws : List Throw
two_throws = atmi_of given (some 0) true tpediagnostic ∷ nstd_of given (codes "NEMALLOC") ∷ []

abbrev all_there : Loading
all_there = record {
  found = λ c. true;
  weak_made = λ c. true;
  methods = true ∷ [];
  fields = true ∷ true ∷ [];
}

fresh-Good : Good text classes 0 fresh
unfolding hash_list
fresh-Good =
    (record { counted = refl; once = Nodup-nil; has_ids = λ c m. absurd (not-mem-nil m) }, refl)

throws-Good_example : Good text classes 0 (throws text classes two_throws fresh)
throws-Good_example =
    throws-Good text classes 0 two_throws fresh text-Texts (refl, (tt, tt)) fresh-Good

given-Gives : Gives given
given-Gives = record {
  class_found = refl;
  mid_found = refl;
  qctl_found = refl;
  data_found = refl;
  malloc_ok = refl;
  weak_made = refl;
  object_made = refl;
}

abbrev ubf_text : UbfCode → CString
ubf_text bminval = codes "BMINVAL"
ubf_text beinval = codes "BEINVAL"
ubf_text beunix = codes "BEUNIX"
ubf_text (other_berror n) = codes "BNOTPRES"

abbrev nstd_text : ℕ → CString
nstd_text n = codes "NEINVAL"

atmi_throw_pending_example :
    (atmi_throw classes text given (some 0) true tpediagnostic fresh).pending
    ≡ Option.map
        (as_thrown text ubf_text nstd_text)
        (Buffers.atmi_throw (some 0) true tpediagnostic start).pending
atmi_throw_pending_example =
    atmi_throw_pending classes text ubf_text nstd_text given given-Gives (some 0) true tpediagnostic
      fresh start

-- Caused by an exception without a text, with a frame that is missing.
abbrev failure : Throwable
failure =
    caused_by
      (record {
        frames = some (some (some (codes "at A")) ∷ none ∷ []);
        message = some (codes "E");
      })
      (uncaused (record { frames = some []; message = none }))

failure_lines : all_lines failure ≡ codes "E\nat A\n"
failure_lines = refl
