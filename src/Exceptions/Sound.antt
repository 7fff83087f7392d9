-- ===== src/Exceptions/Sound.antt =====
-- What the throws keep of the dynamic cache.
use mathlib.Core.List.{Mem, Nodup, map, mem-append, mem-cons, not-mem-nil}
use mathlib.Core.Logic.Or
use endurox_java.Base.{
  ℕ, ◌+◌, ◌≡◌, refl, true, false, Bool-cases, inl, inr, none, some, [], ◌∷◌, ◌++◌, arith, length,
  length-append,
}
use endurox_java.Base.Bytes.{CString, codes, fit}
use endurox_java.Buffers.{
  Code, tpediagnostic, tpeinval, tpesvcfail, tpeevent, other_code, is_diagnostic,
}
use endurox_java.Linker.Resources.{HashLib}
use endurox_java.Linker.Resources.Keys
use endurox_java.Exceptions.{Cached, class_name_of, Answers, Env, class_of, caches_add}

pub diagnostic_of : (err : Code) → is_diagnostic err ≡ true → err ≡ tpediagnostic
diagnostic_of tpediagnostic e = refl
diagnostic_of tpeinval e = cc
diagnostic_of tpesvcfail e = cc
diagnostic_of tpeevent e = cc
diagnostic_of (other_code n) e = cc

module _ (text : Code → CString) where
  -- A class of ATMI exceptions has the ids that a throw of its code uses.
  abbrev pub Complete : Cached → Type 0
  Complete c =
      (err : Code)
      → c.class_name ≡ class_of (codes "Atmi") (text err)
      → (c.mid1 ≡ true) × (c.fid2 ≡ true) × (err ≡ tpediagnostic → c.fid1 ≡ true)

  module _ (H : HashLib Cached class_name_of) (k : ℕ) where
    open H use {Table, items, add_str, find_str, items-add_str, find_str_some}

    -- One weak reference for each class of the cache besides `k` others, each class once, with its ids.
    pub record Sound (t : Table) (weak : ℕ) : Type 0 where
      pub counted : weak ≡ k + length (items t)
      pub once : Nodup (map class_name_of (items t))
      pub has_ids : (c : Cached) → Mem c (items t) → Complete c

    abbrev pub Good : Env H → Type 0
    Good e = Sound e.cache e.weak_refs × (e.null_used ≡ false)

    Sound-add_str :
        (t : Table) (weak : ℕ) (c : Cached)
        → Sound t weak
        → find_str c.class_name t ≡ none
        → Complete c
        → Sound (add_str c t) (weak + 1)
    Sound-add_str t weak c sound new all = record {
      counted = rw (items-add_str) (omega (arith, sound.counted, length-append (items t) (c ∷ [])));
      once = Keys.Nodup-add_str H c t (Keys.find_str_new H c.class_name t new) sound.once;
      has_ids = λ d m.
          let m' : Mem d (items t ++ c ∷ []) = rw (← items-add_str c t) m in
          λ err name.
            Or.elim (hlevel) (mem-append.0 m') (λ old. sound.has_ids d old err name)
              (λ last.
                Or.elim (hlevel) (mem-cons.0 last) (λ same. rw same (all err (rw same at name)))
                  (λ no. absurd (not-mem-nil no)));
    }

    pub caches_add-Good :
        (a : Answers) (cls : CString) (d : Cached) (e : Env H)
        → Good e
        → find_str cls e.cache ≡ none
        → fit 256 cls ≡ cls
        → Complete (record d { class_name = cls })
        → Good (caches_add H a cls d e).1
          × ((c : Cached) → (caches_add H a cls d e).0 ≡ some c → c ≡ record d { class_name = cls })
    unfolding caches_add
    caches_add-Good a cls d e good new fits all = elim (Bool-cases a.malloc_ok) [
      | inr no_memory ↦ rw (caches_add, no_memory) (good, λ c p. cc p)
      | inl made ↦ elim (Bool-cases a.weak_made) [
        | inr fails ↦ rw (caches_add, made, fails) (good, λ c p. cc p)
        | inl weak ↦
            rw (caches_add, made, weak, fits)
              (
                (
                  Sound-add_str e.cache e.weak_refs (record d { class_name = cls }) good.0 new all,
                  good.1,
                ),
                λ c p. cc p,
              )
      ]
    ]
