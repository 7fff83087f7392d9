-- ===== src/Exceptions/Lifecycle.antt =====
-- The library from its load to its unload: which references to classes are held.
use endurox_java.Base.{
  ℕ, suc, ◌+◌, ◌-◌, ◌≡◌, ◌⊎◌, refl, ap, ◌∙◌, Bool, true, false, not, ◌&&◌, Bool-cases, inl, inr,
  List, [], ◌∷◌, arith, if◌then◌else◌,
}
use endurox_java.Linker.Resources.{HashLib}
use endurox_java.Exceptions.{Cached, class_name_of, Env}
use endurox_java.Exceptions.Load.{
  ClassEntry, Loading, find_ids, load_classes, drop_local, caches_load,
}

-- How many entries of the table have the mark.
abbrev pub marked : Bool → List ClassEntry → ℕ
marked global [] = 0
marked true (c ∷ cs) = if c.global then suc (marked true cs) else marked true cs
marked false (c ∷ cs) = if c.global then marked false cs else suc (marked false cs)

-- Every class is found, and every weak reference is made.
abbrev pub all_found : Loading → List ClassEntry → Bool
all_found l [] = true
all_found l (c ∷ cs) =
    l.found c.class_str && not (c.global && not (l.weak_made c.class_str)) && all_found l cs

module _ (H : HashLib Cached class_name_of) where
  open H use {items, empty, items-empty}

  -- The state with other numbers of references.
  abbrev pub counts : (class_refs weak_refs released : ℕ) → Env H → Env H
  counts c w r e = record e { class_refs = c; weak_refs = w; released = r }

  counts_cong :
      (e : Env H) (c c' w w' r r' : ℕ)
      → c ≡ c'
      → w ≡ w'
      → r ≡ r'
      → counts c w r e ≡ counts c' w' r' e
  counts_cong e c c' w w' r r' p q s = cc

  load_classes_ok :
      (l : Loading) (cs : List ClassEntry) (e : Env H) → (load_classes H l cs e).0 ≡ all_found l cs
  unfolding load_classes
  load_classes_ok l [] e = refl
  load_classes_ok l (c ∷ cs) e = elim (Bool-cases (l.found c.class_str)) [
    | inr missing ↦ rw missing refl
    | inl found ↦ elim (Bool-cases (c.global && not (l.weak_made c.class_str))) [
      | inl fails ↦ rw (found, fails) refl
      | inr made ↦ rw (found, made) (load_classes_ok l cs _)
    ]
  ]

  load_classes_refs :
      (l : Loading) (cs : List ClassEntry) (e : Env H)
      → all_found l cs ≡ true
      → (load_classes H l cs e).1
        ≡ counts (e.class_refs + marked false cs) (e.weak_refs + marked true cs) e.released e
  unfolding load_classes
  load_classes_refs l [] e all = counts_cong e _ _ _ _ _ _ (omega arith) (omega arith) refl
  load_classes_refs l (c ∷ cs) e all =
      let found : l.found c.class_str ≡ true = ground arith in
      let made : (c.global && not (l.weak_made c.class_str)) ≡ false = ground arith in
      let rest : all_found l cs ≡ true = ground arith in
      elim (Bool-cases c.global) [
        | inl global ↦
            let weak : (true && not (l.weak_made c.class_str)) ≡ false = rw global at made in
            rw (found, global, weak)
              (load_classes_refs l cs
                  (record e { class_refs = (e.class_refs + 1) - 1; weak_refs = e.weak_refs + 1 })
                  rest
                ∙ counts_cong e _ _ _ _ _ _ (omega arith) (omega arith) refl)
        | inr local ↦
            rw (found, local)
              (load_classes_refs l cs (record e { class_refs = e.class_refs + 1 }) rest
                ∙ counts_cong e _ _ _ _ _ _ (omega arith) refl refl)
      ]

  drop_local_refs :
      (cs : List ClassEntry) (e : Env H)
      → drop_local H cs e ≡ counts (e.class_refs - marked false cs) e.weak_refs e.released e
  unfolding drop_local
  drop_local_refs [] e = counts_cong e _ _ _ _ _ _ (omega arith) refl refl
  drop_local_refs (c ∷ cs) e = elim (Bool-cases c.global) [
    | inl global ↦ rw global (drop_local_refs cs e)
    | inr local ↦ rw local (
        drop_local_refs cs (record e { class_refs = e.class_refs - 1 })
        ∙ counts_cong e _ _ _ _ _ _ (omega arith) refl refl)
  ]

  -- A load succeeds just when the JVM finds every class, method and field and makes every weak
  -- reference, and then one weak reference is held for each global class and no local one is left.
  pub caches_load_lem :
      (l : Loading) (cs : List ClassEntry) (e : Env H)
      → let all = all_found l cs && find_ids l.methods && find_ids l.fields in
        ((all ≡ false) × ((caches_load H l cs e).0 ≡ false))
        ⊎ ((all ≡ true)
            × (caches_load H l cs e
                ≡ (true, counts e.class_refs (e.weak_refs + marked true cs) e.released e)))
  unfolding caches_load
  caches_load_lem l cs e =
      let ok = load_classes_ok l cs e in
      elim (Bool-cases (all_found l cs && find_ids l.methods && find_ids l.fields)) [
        | inr fails ↦ inl (fails, rw (caches_load, ok, fails) refl)
        | inl all ↦
            let found : all_found l cs ≡ true = ground arith in
            inr (
              all,
              rw (caches_load, ok, all, load_classes_refs l cs e found)
                  (ap (λ (x : Env H). (true, x))
                    (drop_local_refs cs _ ∙ counts_cong e _ _ _ _ _ _ (omega arith) refl refl)),
            )
      ]
