-- ===== src/Linker/Resources/Race/Turns.antt =====
-- The turns of the threads as steps of the jobs, and where the wait leaves each job.
use mathlib.Core.Path.{subst}
use endurox_java.Base.{
  ℕ, zero, suc, ◌<◌, ◌+◌, ◌≡◌, ◌≢◌, ◌⊎◌, inl, inr, refl, ap, sym, ◌∙◌, true, false, Bool-cases,
  Option, none, some, List, [], ◌∷◌, arith, length, ltb, ◌==◌,
}
use endurox_java.Base.Bytes.{CString}
use endurox_java.Linker.Entry.{Job}
use endurox_java.Linker.Resources.{
  Resource, resname_of, HashLib, head_of, res_find, Attempt, no_memory, not_embedded, embedded_ok,
}
use endurox_java.Linker.Resources.Race
use endurox_java.Linker.Resources.Race.{
  Pc, pending, checked, added, failed, update, System, Reach, here, next, start, started,
}
use endurox_java.Linker.Resources.Threads.{
  job_at, Threads, res_add_section, turn, run_turns, thpool_wait,
}

-- The job has come to its end.
abbrev pub IsDone : Pc → Type 0
IsDone pc = (pc ≡ added) ⊎ (pc ≡ failed)

not_pending : (pc : Pc) → IsDone pc → pc ≢ pending
not_pending pc (inl e) q = cc
not_pending pc (inr e) q = cc

module _ (H : HashLib Resource resname_of) (number : ℕ → CString) (js : List (Job × Attempt)) where
  abbrev pub jobs : ℕ → Job
  jobs i = (job_at js i).0

  abbrev pub Run : Threads H number js → Threads H number js → Type 0
  Run = Reach H number jobs (length js)

  section-Reach :
      (s : Threads H number js) (pc : Pc) (found : Option Resource) (a : Attempt) (i : ℕ)
      → i < length js
      → s.pc i ≡ pc
      → res_find H (head_of H (jobs i).head s.pool) (jobs i).resname ≡ found
      → Run s (res_add_section H number js pc found a i s)
  unfolding res_add_section
  section-Reach s pending none a i under at e = next here (Race.look_up i under at e)
  section-Reach s pending (some elm) a i under at e = next here (Race.duplicate i elm under at e)
  section-Reach s checked found no_memory i under at e = next here (Race.no_memory i under at)
  section-Reach s checked found not_embedded i under at e = next here (Race.not_embedded i under at)
  section-Reach s checked found embedded_ok i under at e = next here (Race.insert i under at)
  section-Reach s added found a i under at e = here
  section-Reach s failed found a i under at e = here

  -- A job behind its look-up is at its end after one section.
  section-IsDone :
      (s : Threads H number js) (pc : Pc) (found : Option Resource) (a : Attempt) (i : ℕ)
      → s.pc i ≡ pc
      → pc ≢ pending
      → IsDone ((res_add_section H number js pc found a i s).pc i)
  unfolding res_add_section
  section-IsDone s pending found a i at late = absurd (late refl)
  section-IsDone s checked found no_memory i at late = inr (ground arith)
  section-IsDone s checked found not_embedded i at late = inr (ground arith)
  section-IsDone s checked found embedded_ok i at late = inl (ground arith)
  section-IsDone s added found a i at late = inl at
  section-IsDone s failed found a i at late = inr at

  section-late :
      (s : Threads H number js) (pc : Pc) (found : Option Resource) (a : Attempt) (i : ℕ)
      → s.pc i ≡ pc
      → (res_add_section H number js pc found a i s).pc i ≢ pending
  unfolding res_add_section
  section-late s pending none a i at e = ground arith
  section-late s pending (some elm) a i at e = ground arith
  section-late s checked found no_memory i at e = ground arith
  section-late s checked found not_embedded i at e = ground arith
  section-late s checked found embedded_ok i at e = ground arith
  section-late s added found a i at e = cc
  section-late s failed found a i at e = cc

  -- A section of another job, or of one at its end, leaves a job where it stands.
  section-other :
      (s : Threads H number js) (pc : Pc) (found : Option Resource) (a : Attempt) (i k : ℕ)
      → (i == k) ≡ false
      → (res_add_section H number js pc found a i s).pc k ≡ s.pc k
  unfolding res_add_section
  section-other s pending none a i k ne = rw ne refl
  section-other s pending (some elm) a i k ne = rw ne refl
  section-other s checked found no_memory i k ne = rw ne refl
  section-other s checked found not_embedded i k ne = rw ne refl
  section-other s checked found embedded_ok i k ne = rw ne refl
  section-other s added found a i k ne = refl
  section-other s failed found a i k ne = refl

  abbrev section : ℕ → Threads H number js → Threads H number js
  section i s =
      res_add_section H number js (s.pc i)
        (res_find H (head_of H (jobs i).head s.pool) (jobs i).resname) (job_at js i).1 i s

  turn-under :
      (i : ℕ) (s : Threads H number js) → i < length js → turn H number js i s ≡ section i s
  unfolding turn
  turn-under i s under = rw (turn, ltb_true i under) refl
    where
      ltb_true : (i : ℕ) → i < length js → ltb i (length js) ≡ true
      ltb_true i u = ground arith

  turn-Reach : (i : ℕ) (s : Threads H number js) → Run s (turn H number js i s)
  unfolding turn
  turn-Reach i s = elim (Bool-cases (ltb i (length js))) [
    | inr behind ↦ rw (turn, behind) here
    | inl under ↦
        rw (turn, under) (section-Reach s (s.pc i) _ (job_at js i).1 i (ground arith) refl refl)
  ]

  turn-IsDone :
      (i k : ℕ) (s : Threads H number js)
      → i < length js
      → IsDone (s.pc k)
      → IsDone ((turn H number js i s).pc k)
  turn-IsDone i k s under done = rw (turn-under i s under) (elim (Bool-cases (i == k)) [
    | inr other ↦ rw (section-other s (s.pc i) _ (job_at js i).1 i k other) done
    | inl same ↦
        (let e : i ≡ k = ground arith in
          subst (λ m. IsDone ((section i s).pc m)) e
            (section-IsDone s (s.pc i) _ (job_at js i).1 i refl
              (λ q. not_pending (s.pc k) done (ap s.pc (sym e) ∙ q))))
  ])

  turn_twice :
      (i : ℕ) (s : Threads H number js)
      → i < length js
      → IsDone ((turn H number js i (turn H number js i s)).pc i)
  turn_twice i s under =
      let s1 = section i s in
      rw (turn-under i s under, turn-under i s1 under)
        (section-IsDone s1 (s1.pc i) _ (job_at js i).1 i refl
          (section-late s (s.pc i) _ (job_at js i).1 i refl))

  pub Reach-trans : {s t u : Threads H number js} → Run s t → Run t u → Run s u
  Reach-trans r here = r
  Reach-trans r (next q st) = next (Reach-trans r q) st

  pub turns-Reach : (is : List ℕ) (s : Threads H number js) → Run s (run_turns H number js is s)
  unfolding run_turns
  turns-Reach [] s = here
  turns-Reach (i ∷ is) s = Reach-trans (turn-Reach i s) (turns-Reach is (turn H number js i s))

  pub wait-Reach : (n : ℕ) (s : Threads H number js) → Run s (thpool_wait H number js n s)
  unfolding thpool_wait
  wait-Reach zero s = here
  wait-Reach (suc n) s =
      let t = thpool_wait H number js n s in
      Reach-trans (wait-Reach n s)
        (Reach-trans (turn-Reach n t) (turn-Reach n (turn H number js n t)))

  pub wait-IsDone :
      (n k : ℕ) (s : Threads H number js)
      → n < length js + 1
      → k < n
      → IsDone ((thpool_wait H number js n s).pc k)
  unfolding thpool_wait
  wait-IsDone zero k s within below = absurd (omega arith)
  wait-IsDone (suc n) k s within below =
      let t = thpool_wait H number js n s in
      elim (Bool-cases (n == k)) [
        | inl same ↦
            subst (λ m. IsDone ((turn H number js n (turn H number js n t)).pc m)) (ground arith)
              (turn_twice n t (omega arith))
        | inr other ↦
            turn-IsDone n k (turn H number js n t) (omega arith)
              (turn-IsDone n k t (omega arith) (wait-IsDone n k s (omega arith) (ground arith)))
      ]

module _ (H : HashLib Resource resname_of) (number : ℕ → CString) where
  pub turns_none : (is : List ℕ) (s : Threads H number []) → run_turns H number [] is s ≡ s
  unfolding run_turns turn
  turns_none [] s = refl
  turns_none (i ∷ is) s = elim (Bool-cases (ltb i 0)) [
    | inl under ↦ absurd (ground arith)
    | inr behind ↦ rw behind (turns_none is s)
  ]
