-- ===== src/Linker/Resources/Race/Complete.antt =====
-- What the threads of the pool have done behind the wait for their jobs.
use mathlib.Core.List.{Mem, mem-cons, mem-append}
use mathlib.Core.Logic.Or
use endurox_java.Base.{
  ℕ, ◌≡◌, ◌≢◌, ◌⊎◌, inl, inr, refl, ap, ◌∙◌, true, false, Bool-cases, List, [], ◌∷◌, arith, ◌==◌,
}
use endurox_java.Base.Bytes.{CString}
use endurox_java.Linker.Entry.{Hash, classes, embedded, Job}
use endurox_java.Linker.Resources.{Resource, resname_of, HashLib, Pool, head_of, with_head, element}
use endurox_java.Linker.Resources.Serial.{same_hash, head_of-with_head}
use endurox_java.Linker.Resources.Race.{
  added, failed, update, System, Step, look_up, duplicate, insert, Reach, here, next, start,
}

pub same_hash_refl : (h g : Hash) → h ≡ g → same_hash h g ≢ false
same_hash_refl classes classes e f = cc
same_hash_refl classes embedded e f = cc
same_hash_refl embedded classes e f = cc
same_hash_refl embedded embedded e f = cc

module _ (H : HashLib Resource resname_of) (number : ℕ → CString) (jobs : ℕ → Job) (count : ℕ) where
  open H use {items, add_str, items-add_str}

  -- The record of a job that has inserted it is in its hash, and a job that has failed has set the error.
  pub record Kept (s : System H number jobs count) : Type 0 where
    pub present :
        (i : ℕ)
        → s.pc i ≡ added
        → Mem (element number (jobs i)) (items (head_of H (jobs i).head s.pool))
    pub error : (i : ℕ) → s.pc i ≡ failed → s.pool.thpool_error ≡ true

  head_of_error :
      (p : Pool H) (f : List Resource) (h : Hash)
      → head_of H h (record p { thpool_error = true; freed = f }) ≡ head_of H h p
  unfolding head_of
  head_of_error p f classes = refl
  head_of_error p f embedded = refl

  with_head_error :
      (h : Hash) (t : H.Table) (p : Pool H) → (with_head H h t p).thpool_error ≡ p.thpool_error
  unfolding with_head
  with_head_error classes t p = refl
  with_head_error embedded t p = refl

  Kept-failed :
      (s : System H number jobs count) (f : List Resource) (i : ℕ)
      → Kept s
      → Kept (record {
        pool = record (s.pool) { thpool_error = true; freed = f };
        pc = update s.pc i failed;
      })
  Kept-failed s f i k = record {
    present = λ j at. elim (Bool-cases (i == j)) [
      | inl same ↦ cc (rw same at at)
      | inr other ↦ rw (head_of_error s.pool f (jobs j).head) (k.present j (rw other at at))
    ];
    error = λ j at. refl;
  }

  Kept-insert :
      (s : System H number jobs count) (i : ℕ)
      → Kept s
      → Kept (record {
        pool =
            with_head H
              (jobs i).head
              (add_str (element number (jobs i)) (head_of H (jobs i).head s.pool))
              s.pool;
        pc = update s.pc i added;
      })
  Kept-insert s i k =
      let t = head_of H (jobs i).head s.pool in
      let t' = add_str (element number (jobs i)) t in
      let old_or_new : (j : ℕ)
          → (j ≡ i) ⊎ (s.pc j ≡ added)
          → Mem (element number (jobs j))
              (items (head_of H (jobs j).head (with_head H (jobs i).head t' s.pool))) =
        λ j w. elim (head_of-with_head H number (jobs j).head (jobs i).head t' s.pool) [
          | inl (same, now, was) ↦
              rw (now, items-add_str (element number (jobs i)) t)
                (elim w [
                  | inl new ↦
                      mem-append.1
                        (Or.inr (mem-cons.1 (Or.inl (ap (λ n. element number (jobs n)) new))))
                  | inr old ↦
                      (mem-append {s = items t} {t = element number (jobs i) ∷ []}).1
                        (Or.inl (rw was (k.present j old)))
                ])
          | inr (other, kept) ↦ elim w [
            | inl new ↦
                absurd
                  (same_hash_refl (jobs j).head (jobs i).head (ap (λ n. (jobs n).head) new) other)
            | inr old ↦ rw kept (k.present j old)
          ]
        ] in
      record {
        present = λ j at. old_or_new j (ground arith);
        error = λ j at. with_head_error (jobs i).head t' s.pool ∙ k.error j (ground arith);
      }

  Kept-step : {s t : System H number jobs count} → Step H number jobs count s t → Kept s → Kept t
  Kept-step {s} (look_up i under at found) k = record {
    present = λ j pc. k.present j (ground arith);
    error = λ j pc. k.error j (ground arith);
  }
  Kept-step {s} (duplicate i elm under at found) k = Kept-failed s (elm ∷ s.pool.freed) i k
  Kept-step {s} (Step.no_memory i under at) k = Kept-failed s s.pool.freed i k
  Kept-step {s} (Step.not_embedded i under at) k =
      Kept-failed s (element number (jobs i) ∷ s.pool.freed) i k
  Kept-step {s} (insert i under at) k = Kept-insert s i k

  pub Reach-Kept :
      {s : System H number jobs count}
      → Reach H number jobs count (start H number jobs count) s
      → Kept s
  Reach-Kept here = record { present = λ i at. cc; error = λ i at. cc }
  Reach-Kept (next r st) = Kept-step st (Reach-Kept r)
