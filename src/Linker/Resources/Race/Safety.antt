-- ===== src/Linker/Resources/Race/Safety.antt =====
-- What the two critical sections guarantee when no two jobs have one name.
use mathlib.Core.List.{
  Mem, Nodup, Nodup-nil, not-mem-nil, mem-cons, mem-append, mem-map_of_mem, exists_of_mem-map,
}
use mathlib.Core.Logic.{∥∥₁_elim, ∥∥₁_map, ◌∨₁◌}
use mathlib.Core.Logic.Or
use mathlib.Core.Path.{subst}
use endurox_java.Base.{
  ◌<◌, ℕ, ◌≡◌, ◌≢◌, inl, inr, refl, ap, sym, ◌∙◌, true, none, List, [], ◌∷◌, ◌++◌, map, arith,
  Option-cases,
}
use endurox_java.Base.Bytes.{CString}
use endurox_java.Linker.Entry.{Hash, classes, embedded, Job}
use endurox_java.Linker.Resources.{
  Resource, resname_of, HashLib, Pool, head_of, with_head, res_find, element,
}
use endurox_java.Linker.Resources.Serial.{
  same_hash, head_of-with_head, head_of_start, Nodup-add_str,
}
use endurox_java.Linker.Resources.Race.{
  Pc, checked, added, failed, update, System, Step, look_up, duplicate, no_memory, not_embedded,
  insert, Reach, here, next, start,
}

mem-append_one : (v e : Resource) (l : List Resource) → Mem v (l ++ e ∷ []) → Mem v l ∨₁ (v ≡ e)
mem-append_one v e l m = Or.elim squash₁ ((mem-append {s = l} {t = e ∷ []}).0 m) Or.inl (λ new.
    Or.elim squash₁ ((mem-cons {a = v} {b = e} {l = []}).0 new) Or.inr
      (λ nowhere. absurd (not-mem-nil nowhere)))

pub eq_of_same_hash : (h g : Hash) → same_hash h g ≡ true → g ≡ h
eq_of_same_hash classes classes e = refl
eq_of_same_hash classes embedded e = cc
eq_of_same_hash embedded classes e = cc
eq_of_same_hash embedded embedded e = refl

module _ (H : HashLib Resource resname_of) (number : ℕ → CString) (jobs : ℕ → Job) (count : ℕ) where
  open H use {items, add_str, items-add_str}

  -- No two jobs for one hash have the same name.
  abbrev pub Distinct : Type 0
  Distinct =
      (i j : ℕ)
      → i < count
      → j < count
      → (jobs i).head ≡ (jobs j).head
      → (jobs i).resname ≡ (jobs j).resname
      → i ≡ j

  -- A record in a hash is that of a job which has inserted it, and its name stands there once.
  pub record Inv (s : System H number jobs count) : Type 0 where
    pub owned :
        (h : Hash) (v : Resource)
        → Mem v (items (head_of H h s.pool))
        → ∥ (
            (i : ℕ) × (i < count)
            × (s.pc i ≡ added)
            × ((jobs i).head ≡ h)
            × (element number (jobs i) ≡ v)) ∥₁
    pub once : (h : Hash) → Nodup (map resname_of (items (head_of H h s.pool)))

  Inv-start : Inv (start H number jobs count)
  Inv-start = record {
    owned = λ h v m. absurd (not-mem-nil (rw (head_of_start H number h) at m));
    once = λ h. rw (head_of_start H number h) Nodup-nil;
  }

  -- A step that leaves the hashes alone and takes no job from `added` keeps the invariant.
  Inv-same :
      (s : System H number jobs count) (p : Pool H) (i : ℕ) (pc : Pc)
      → Inv s
      → s.pc i ≢ added
      → ((h : Hash) → head_of H h p ≡ head_of H h s.pool)
      → Inv (record { pool = p; pc = update s.pc i pc })
  Inv-same s p i pc inv moving same = record {
    owned = λ h v m.
        ∥∥₁_map (inv.owned h v (rw (same h) at m))
          λ (k, below, done, head, name). (k, below, ground arith, head, name);
    once = λ h. rw (same h) (inv.once h);
  }

  -- The error flag and the freed records are no part of a hash.
  head_of_error :
      (p : Pool H) (f : List Resource) (h : Hash)
      → head_of H h (record p { thpool_error = true; freed = f }) ≡ head_of H h p
  unfolding head_of
  head_of_error p f classes = refl
  head_of_error p f embedded = refl

  module _ (distinct : Distinct) where
    -- The name of a job that has not inserted is not in its hash.
    absent :
        (s : System H number jobs count) (i : ℕ)
        → i < count
        → Inv s
        → s.pc i ≢ added
        → ¬ Mem (jobs i).resname (map resname_of (items (head_of H (jobs i).head s.pool)))
    unfolding element
    absent s i under inv moving m =
        ∥∥₁_elim (exists_of_mem-map m) (λ x y. absurd x)
          λ (v, there, name).
            ∥∥₁_elim (inv.owned (jobs i).head v there) (λ x y. absurd x)
              λ (k, below, done, head, named). moving (
                subst (λ n. s.pc n ≡ added)
                  (distinct k i below under head (ap resname_of named ∙ name)) done)

    Inv-insert :
        (s : System H number jobs count) (i : ℕ)
        → i < count
        → Inv s
        → s.pc i ≡ checked
        → Inv (record {
          pool =
              with_head H
                (jobs i).head
                (add_str (element number (jobs i)) (head_of H (jobs i).head s.pool))
                s.pool;
          pc = update s.pc i added;
        })
    unfolding element
    Inv-insert s i under inv at =
        let moving : s.pc i ≢ added = λ e. cc in
        let t = head_of H (jobs i).head s.pool in
        let t' = add_str (element number (jobs i)) t in
        record {
          owned = λ h v m. elim (head_of-with_head H number h (jobs i).head t' s.pool) [
            | inl (same, now, was) ↦
                Or.elim squash₁
                  (mem-append_one v (element number (jobs i)) (items t)
                    (rw (← items-add_str (element number (jobs i)) t, ← now) m))
                  (λ old.
                    ∥∥₁_map (inv.owned h v (rw was at old))
                      λ (k, below, done, head, name). (k, below, ground arith, head, name))
                  (λ e. ∣ (i, under, ground arith, eq_of_same_hash h (jobs i).head same, sym e) ∣₁)
            | inr (other, kept) ↦
                ∥∥₁_map (inv.owned h v (rw kept at m))
                  λ (k, below, done, head, name). (k, below, ground arith, head, name)
          ];
          once = λ h. elim (head_of-with_head H number h (jobs i).head t' s.pool) [
            | inl (same, now, was) ↦ rw now (
                Nodup-add_str H number (jobs i) t (absent s i under inv moving)
                  (inv.once (jobs i).head))
            | inr (other, kept) ↦ rw kept (inv.once h)
          ];
        }

    Inv-step : {s t : System H number jobs count} → Step H number jobs count s t → Inv s → Inv t
    Inv-step {s} (look_up i under at found) inv =
        Inv-same s s.pool i checked inv (λ e. cc) (λ h. refl)
    Inv-step {s} (duplicate i elm under at found) inv =
        Inv-same s _ i failed inv (λ e. cc) (head_of_error s.pool (elm ∷ s.pool.freed))
    Inv-step {s} (no_memory i under at) inv =
        Inv-same s _ i failed inv (λ e. cc) (head_of_error s.pool s.pool.freed)
    Inv-step {s} (not_embedded i under at) inv =
        Inv-same s _ i failed inv (λ e. cc)
          (head_of_error s.pool (element number (jobs i) ∷ s.pool.freed))
    Inv-step {s} (insert i under at) inv = Inv-insert s i under inv at

    pub Reach-Inv :
        {s : System H number jobs count}
        → Reach H number jobs count (start H number jobs count) s
        → Inv s
    Reach-Inv here = Inv-start
    Reach-Inv (next r st) = Inv-step st (Reach-Inv r)

    -- If no two jobs for one hash have the same name, then in every interleaving no hash ever holds
    -- a name twice.
    pub distinct_once :
        {s : System H number jobs count}
        → Reach H number jobs count (start H number jobs count) s
        → (h : Hash) → Nodup (map resname_of (items (head_of H h s.pool)))
    distinct_once r = (Reach-Inv r).once

    -- If no two jobs for one hash have the same name, then in every interleaving a job that has not
    -- inserted its record does not find its name in its hash, so that none fails as a duplicate.
    pub distinct_unknown :
        {s : System H number jobs count}
        → Reach H number jobs count (start H number jobs count) s
        → (i : ℕ) → i < count
        → s.pc i ≢ added
        → res_find H (head_of H (jobs i).head s.pool) (jobs i).resname ≡ none
    unfolding res_find
    distinct_unknown {s} r i under moving =
        elim (Option-cases (H.find_str (jobs i).resname (head_of H (jobs i).head s.pool))) [
          | inl unknown ↦ unknown
          | inr (v, e) ↦
              let (name, there) = H.find_str_some _ _ v e in
              absurd (
                absent s i under (Reach-Inv r) moving
                  (rw (← name) (mem-map_of_mem resname_of there)))
        ]
