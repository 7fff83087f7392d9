-- ===== src/Linker/Resources/Threads.antt =====
-- exjld/resources.c as the thread pool of exjld/exjld.c runs it: the threads take turns, and in a turn a
-- job runs up to the end of its next critical section.
use endurox_java.Base.{
  true, ℕ, zero, suc, Option, none, some, List, [], ◌∷◌, if◌then◌else◌, ltb, length,
}
use endurox_java.Base.Bytes.{CString}
use endurox_java.Linker.Entry.{Job, classes}
use endurox_java.Linker.Resources.{
  Resource, resname_of, HashLib, Pool, head_of, with_head, res_find, element, Attempt, no_memory,
  not_embedded, embedded_ok,
}
use endurox_java.Linker.Resources.Race.{
  Pc, pending, checked, added, failed, update, System, started,
}

-- The job with a number; behind the last one stands one that no turn runs.
abbrev pub job_at : List (Job × Attempt) → ℕ → Job × Attempt
job_at [] i =
    (record { head = classes; resname = []; id = 0; respath = []; emb_pfx = [] }, no_memory)
job_at (j ∷ js) zero = j
job_at (j ∷ js) (suc i) = job_at js i

module _ (H : HashLib Resource resname_of) (number : ℕ → CString) (js : List (Job × Attempt)) where
  abbrev pub Threads : Type 0
  Threads = System H number (λ i. (job_at js i).0) (length js)

  -- `exljd_res_add_th` by the place where the job stands: the look-up, whose result is `found`, or what
  -- follows it.
  unfoldable pub res_add_section : Pc → (found : Option Resource) → Attempt → ℕ → Threads → Threads
  res_add_section pending none a i s = record s { pc = update s.pc i checked }
  res_add_section pending (some elm) a i s = record {
    pool = record (s.pool) { thpool_error = true; freed = elm ∷ s.pool.freed };
    pc = update s.pc i failed;
  }
  res_add_section checked found no_memory i s = record {
    pool = record (s.pool) { thpool_error = true };
    pc = update s.pc i failed;
  }
  res_add_section checked found not_embedded i s = record {
    pool = record (s.pool) {
      thpool_error = true;
      freed = element number (job_at js i).0 ∷ s.pool.freed;
    };
    pc = update s.pc i failed;
  }
  res_add_section checked found embedded_ok i s =
      let job = (job_at js i).0 in
      record {
        pool =
            with_head H job.head (H.add_str (element number job) (head_of H job.head s.pool))
              s.pool;
        pc = update s.pc i added;
      }
  res_add_section added found a i s = s
  res_add_section failed found a i s = s

  -- A turn of the job `i`.
  unfoldable pub turn : ℕ → Threads → Threads
  turn i s =
      let (job, a) = job_at js i in
      let s' =
        res_add_section (s.pc i) (res_find H (head_of H job.head s.pool) job.resname) a i s in
      if ltb i (length js) then s' else s

  unfoldable pub run_turns : List ℕ → Threads → Threads
  run_turns [] s = s
  run_turns (i ∷ is) s = run_turns is (turn i s)

  -- `ndrx_thpool_wait`: what is left of the first `n` jobs is run to its end.
  unfoldable pub thpool_wait : ℕ → Threads → Threads
  thpool_wait zero s = s
  thpool_wait (suc n) s = turn n (turn n (thpool_wait n s))

  -- The jobs in a pool whose threads take the turns of `schedule` first.
  unfoldable pub run_threads : (schedule : List ℕ) → Pool H → Pool H
  run_threads schedule p =
      (thpool_wait (length js)
        (run_turns schedule (started H number (λ i. (job_at js i).0) (length js) p))).pool
