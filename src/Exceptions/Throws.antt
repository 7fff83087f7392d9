-- ===== src/Exceptions/Throws.antt =====
-- Any sequence of throws, each in a native method of its own.
use endurox_java.Base.{
  either, ℕ, ◌+◌, ◌≡◌, ◌≢◌, refl, Bool, true, false, not, ◌&&◌, Bool-cases, inl, inr, Option, none,
  some, Option-cases, List, [], ◌∷◌, arith, if◌then◌else◌,
}
use endurox_java.Base.Bytes.{CString, codes}
use endurox_java.Buffers.{Code, tpediagnostic, is_diagnostic}
use endurox_java.Linker.Resources.{HashLib}
use endurox_java.Exceptions.{
  Cached, class_name_of, Answers, Env, class_of, caches_get, caches_single, plain_throw,
  throw_object, atmi_class, atmi_throw, jvm_error,
}
use endurox_java.Exceptions.Names.{
  Texts, class_of_diagnostic, class_of_nstd, class_of_ubf, class_of_fits,
}
use endurox_java.Exceptions.Sound.{Complete, Good, caches_add-Good, diagnostic_of}

-- The calls of the three functions that throw, with the answers to each.
pub data Throw : Type 0 where
  atmi_of : Answers → (buffer : Option ℕ) → (addarg1 : Bool) → Code → Throw
  nstd_of ubf_of : Answers → CString → Throw

-- The class of TPEDIAGNOSTIC has its field `qctl`.
abbrev pub WithQctl : Throw → Type 0
WithQctl (atmi_of a buffer addarg1 err) = a.qctl_found ≡ true
WithQctl (nstd_of a s) = Unit
WithQctl (ubf_of a s) = Unit

abbrev pub AllWithQctl : List Throw → Type 0
AllWithQctl [] = Unit
AllWithQctl (t ∷ ts) = WithQctl t × AllWithQctl ts

module _ (text : Code → CString) (H : HashLib Cached class_name_of) where
  open H use {Table, items, add_str, find_str, find_str_some}

  abbrev pub throw : Throw → Env H → Env H
  throw (atmi_of a buffer addarg1 err) e = atmi_throw H text a buffer addarg1 err e
  throw (nstd_of a s) e = plain_throw H a (codes "Nstd") s e
  throw (ubf_of a s) e = plain_throw H a (codes "Ubf") s e

  -- Java takes the exception between two throws, unless the process has been aborted.
  abbrev pub throws : List Throw → Env H → Env H
  throws [] e = e
  throws (t ∷ ts) e =
      let rest = throws ts (throw t (record e { pending = none })) in if e.aborted then e else rest

  module _ (k : ℕ) where
    caches_single-Good :
        (a : Answers) (kind s : CString) (e : Env H)
        → ((t : CString) → class_of kind s ≢ class_of (codes "Atmi") t)
        → Good text H k e
        → Good text H k (caches_single H a (class_of kind s) e).1
    unfolding caches_single caches_get
    caches_single-Good a kind s e other good =
        elim (Option-cases (find_str (class_of kind s) e.cache)) [
          | inr (c, there) ↦ rw (caches_single, there) good
          | inl new ↦ elim (Bool-cases a.class_found) [
            | inr missing ↦ rw (caches_single, new, missing) good
            | inl found ↦
                let d : Cached = record {
                  class_name = [];
                  mid1 = false;
                  fid1 = false;
                  fid2 = false;
                } in
                let e1 : Env H = record e { class_refs = e.class_refs + 1 } in
                rw (caches_single, new, found)
                  (caches_add-Good text H k a (class_of kind s) d e1 good new (class_of_fits kind s)
                    (λ err same. absurd (other (text err) same))).0
          ]
        ]

    plain_throw-Good :
        (a : Answers) (kind s : CString) (e : Env H)
        → ((t : CString) → class_of kind s ≢ class_of (codes "Atmi") t)
        → Good text H k e
        → Good text H k (plain_throw H a kind s e)
    unfolding plain_throw
    plain_throw-Good a kind s e other good =
        let kept = caches_single-Good a kind s e other good in
        elim (Option-cases (caches_single H a (class_of kind s) e).0) [
          | inl fails ↦ rw (plain_throw, fails) kept
          | inr (c, there) ↦ rw (plain_throw, there) kept
        ]

    throw_object-Good :
        (a : Answers) (c : Cached) (buffer : Option ℕ) (addarg1 : Bool) (err : Code) (e : Env H)
        → (c.mid1 ≡ true) × (c.fid2 ≡ true) × (err ≡ tpediagnostic → c.fid1 ≡ true)
        → Good text H k e
        → Good text H k (throw_object H a c buffer addarg1 err e)
    unfolding throw_object
    throw_object-Good a c buffer addarg1 err e (mid, fid, diag) good =
        elim (Bool-cases a.object_made) [
          | inr fails ↦ rw fails (good.0, ground arith)
          | inl made ↦ elim (Bool-cases (is_diagnostic err)) [
            | inl is ↦
                let there = diag (diagnostic_of err is) in rw (made, is) (good.0, ground arith)
            | inr other ↦ rw (made, other) (good.0, ground arith)
          ]
        ]

    atmi_class-Good :
        (a : Answers) (err : Code) (e : Env H)
        → Texts text
        → a.qctl_found ≡ true
        → let cls = class_of (codes "Atmi") (text err) in
          find_str cls e.cache ≡ none
          → Good text H k e
          → let (cached, e1) = atmi_class H a cls err e in
            Good text H k e1
            × ((c : Cached) → cached ≡ some c → Complete text c × (c.class_name ≡ cls))
    unfolding atmi_class
    atmi_class-Good a err e texts qctl new good =
        let cls = class_of (codes "Atmi") (text err) in
        let d : Cached = record {
          class_name = [];
          mid1 = true;
          fid1 = is_diagnostic err && a.qctl_found;
          fid2 = true;
        } in
        let e1 : Env H = record e {
          class_refs = e.class_refs + 1;
          pending = if is_diagnostic err && not a.qctl_found then some jvm_error else e.pending;
        } in
        let all : Complete text (record d { class_name = cls }) = λ err' same. (
          refl,
          refl,
          λ diag.
              let is = class_of_diagnostic text err texts (rw diag at same) in rw (is, qctl) refl,
        ) in
        let (kept, only) = caches_add-Good text H k a cls d e1 good new (class_of_fits _ _) all in
        elim (Bool-cases a.class_found) [
          | inr missing ↦ rw missing (good, λ c p. cc p)
          | inl found ↦ elim (Bool-cases (a.mid_found && a.data_found)) [
            | inr no_ids ↦ rw (found, no_ids) (good, λ c p. cc p)
            | inl ids ↦ rw (found, ids) (kept, λ c p. rw (only c p) (all, refl))
          ]
        ]

    atmi_throw-Good :
        (a : Answers) (buffer : Option ℕ) (addarg1 : Bool) (err : Code) (e : Env H)
        → Texts text
        → a.qctl_found ≡ true
        → Good text H k e
        → Good text H k (atmi_throw H text a buffer addarg1 err e)
    unfolding atmi_throw caches_get
    atmi_throw-Good a buffer addarg1 err e texts qctl good =
        let cls = class_of (codes "Atmi") (text err) in
        elim (Option-cases (find_str cls e.cache)) [
          | inr (c, there) ↦
              let (name, among) = find_str_some cls e.cache c there in
              rw (atmi_throw, there)
                (throw_object-Good a c buffer addarg1 err e (good.0.has_ids c among err name) good)
          | inl new ↦
              let (kept, only) = atmi_class-Good a err e texts qctl new good in
              elim (Option-cases (atmi_class H a cls err e).0) [
                | inl fails ↦ rw (atmi_throw, new, fails) kept
                | inr (c, made) ↦
                    let (all, name) = only c made in
                    rw (atmi_throw, new, made)
                      (throw_object-Good a c buffer addarg1 err (atmi_class H a cls err e).1
                        (all err name) kept)
              ]
        ]

    throw-Good :
        (t : Throw) (e : Env H)
        → Texts text
        → WithQctl t
        → Good text H k e
        → Good text H k (throw t e)
    throw-Good (atmi_of a buffer addarg1 err) e texts qctl good =
        atmi_throw-Good a buffer addarg1 err e texts qctl good
    throw-Good (nstd_of a s) e texts qctl good =
        plain_throw-Good a (codes "Nstd") s e (class_of_nstd s) good
    throw-Good (ubf_of a s) e texts qctl good =
        plain_throw-Good a (codes "Ubf") s e (class_of_ubf s) good

    -- Any sequence of throws keeps the cache: one weak reference for each of its classes besides the `k`
    -- others, each class once and with the ids that its throws use, and no id that is NULL has been used,
    -- if the texts of tpecodestr are short and TPEDIAGNOSTIC's is its own, and its class has `qctl`.
    pub throws-Good :
        (ts : List Throw) (e : Env H)
        → Texts text
        → AllWithQctl ts
        → Good text H k e
        → Good text H k (throws ts e)
    throws-Good [] e texts qctl good = good
    throws-Good (t ∷ ts) e texts (q, qs) good =
        let e' : Env H = record e { pending = none } in
        either (Good text H k) e.aborted good
          (throws-Good ts (throw t e') texts qs (throw-Good t e' texts q good))
