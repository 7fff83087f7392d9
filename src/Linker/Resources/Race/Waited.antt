-- ===== src/Linker/Resources/Race/Waited.antt =====
-- What the threads of the pool have done behind the wait for their jobs.
use mathlib.Core.List.{Mem, Nodup, mem-cons, not-mem-nil}
use mathlib.Core.Logic.Or
use mathlib.Core.Logic.{∥∥₁_elim, ∥∥₁_map}
use mathlib.Core.Path.{subst}
use mathlib.Core.Logic.{◌↔◌}
use mathlib.Core.List.{mem-map_of_mem, exists_of_mem-map}
use endurox_java.Base.{
  ℕ, zero, suc, ◌<◌, ◌≡◌, inl, inr, refl, ap, sym, ◌∙◌, false, Bool-cases, List, [], ◌∷◌, arith,
  length, map,
}
use endurox_java.Base.Bytes.{CString}
use endurox_java.Linker.Entry.{Hash, Job}
use endurox_java.Linker.Resources.{
  Pool, Resource, resname_of, HashLib, head_of, element, Attempt, pool_start,
}
use endurox_java.Linker.Resources.Serial.{jobs_of, same_hash}
use endurox_java.Linker.Resources.Race.{added, start, started}
use endurox_java.Linker.Resources.Race.Safety.{Distinct, Reach-Inv, eq_of_same_hash}
use endurox_java.Linker.Resources.Race.Complete.{Reach-Kept, same_hash_refl}
use endurox_java.Linker.Resources.Race.Turns.{
  IsDone, jobs, Run, Reach-trans, turns-Reach, wait-Reach, wait-IsDone, turns_none,
}
use endurox_java.Linker.Resources.Threads.{job_at, Threads, run_turns, thpool_wait, run_threads}

-- A job for a hash is the one with some number, and the other way round.
mem-jobs_of :
    (h : Hash) (js : List (Job × Attempt)) (j : Job)
    → Mem j (jobs_of h js)
    → ∥ ((i : ℕ) × (i < length js) × ((job_at js i).0 ≡ j) × ((job_at js i).0.head ≡ h)) ∥₁
mem-jobs_of h [] j m = absurd (not-mem-nil m)
mem-jobs_of h ((k, a) ∷ js) j m = elim (Bool-cases (same_hash h k.head)) [
  | inr other ↦
      ∥∥₁_map (mem-jobs_of h js j (rw other at m)) (λ (i, under, e, f). (suc i, omega arith, e, f))
  | inl same ↦
      Or.elim squash₁ ((mem-cons {a = j} {b = k} {l = jobs_of h js}).0 (rw same at m))
        (λ e. ∣ (zero, omega arith, sym e, eq_of_same_hash h k.head same) ∣₁)
        (λ r. ∥∥₁_map (mem-jobs_of h js j r) (λ (i, under, e, f). (suc i, omega arith, e, f)))
]

jobs_of-mem :
    (h : Hash) (js : List (Job × Attempt)) (i : ℕ)
    → i < length js
    → (job_at js i).0.head ≡ h
    → Mem (job_at js i).0 (jobs_of h js)
jobs_of-mem h [] i under e = absurd (omega arith)
jobs_of-mem h ((k, a) ∷ js) zero under e = elim (Bool-cases (same_hash h k.head)) [
  | inl same ↦ rw same ((mem-cons {a = k} {b = k} {l = jobs_of h js}).1 (Or.inl refl))
  | inr other ↦ absurd (same_hash_refl h k.head (sym e) other)
]
jobs_of-mem h ((k, a) ∷ js) (suc i) under e =
    let rest = jobs_of-mem h js i (omega arith) e in
    elim (Bool-cases (same_hash h k.head)) [
      | inl same ↦
          rw same ((mem-cons {a = (job_at js i).0} {b = k} {l = jobs_of h js}).1 (Or.inr rest))
      | inr other ↦ rw other rest
    ]

module _ (H : HashLib Resource resname_of) (number : ℕ → CString) (js : List (Job × Attempt)) where
  -- Without an error every job is at its end, and has inserted its record.
  all_added :
      (s : Threads H number js)
      → Run H number js (start H number (jobs H number js) (length js)) s
      → s.pool.thpool_error ≡ false
      → (i : ℕ) → IsDone (s.pc i)
      → s.pc i ≡ added
  all_added s r clear i (inl e) = e
  all_added s r clear i (inr e) =
      let bad = (Reach-Kept H number (jobs H number js) (length js) r).error i e in cc

  -- However the threads of the pool take turns, if no two jobs for one hash have the same name, then behind
  -- the wait for them without an error each hash holds the records of exactly its jobs, and no name
  -- twice.
  pub run_threads_lem :
      (schedule : List ℕ) (h : Hash)
      → Distinct H number (jobs H number js) (length js)
      → (run_threads H number js schedule (pool_start H)).thpool_error ≡ false
      → let t = head_of H h (run_threads H number js schedule (pool_start H)) in
        ((v : Resource) → Mem v (H.items t) ↔ Mem v (map (element number) (jobs_of h js)))
        × Nodup (map resname_of (H.items t))
  unfolding run_threads
  run_threads_lem schedule h distinct clear =
      let s0 = start H number (jobs H number js) (length js) in
      let s1 = run_turns H number js schedule s0 in
      let s = thpool_wait H number js (length js) s1 in
      let r =
        Reach-trans H number js (turns-Reach H number js schedule s0)
          (wait-Reach H number js (length js) s1) in
      let inv = Reach-Inv H number (jobs H number js) (length js) distinct r in
      let kept = Reach-Kept H number (jobs H number js) (length js) r in
      (
        λ v. (
          λ m. ∥∥₁_elim (inv.owned h v m) squash₁ λ (i, under, done, head, e).
              subst (λ u. Mem u (map (element number) (jobs_of h js))) e
                (mem-map_of_mem (element number) (jobs_of-mem h js i under head)),
          λ m. ∥∥₁_elim (exists_of_mem-map m) squash₁ λ (j, there, e).
              ∥∥₁_elim (mem-jobs_of h js j there) squash₁ λ (i, under, is, head).
                let done =
                  all_added s r clear i
                    (wait-IsDone H number js (length js) i s1 (omega arith) under) in
                subst (λ u. Mem u (H.items (head_of H h s.pool))) (ap (element number) is ∙ e)
                  (subst
                    (λ g. Mem (element number (jobs H number js i)) (H.items (head_of H g s.pool)))
                    head (kept.present i done)),
        ),
        inv.once h,
      )

module _ (H : HashLib Resource resname_of) (number : ℕ → CString) where
  -- Without jobs the turns do nothing.
  pub run_threads_none : (schedule : List ℕ) (p : Pool H) → run_threads H number [] schedule p ≡ p
  unfolding run_threads thpool_wait
  run_threads_none schedule p =
      ap (λ (s : Threads H number []). s.pool)
        (turns_none H number schedule (started H number (jobs H number []) 0 p))
