-- ===== src/Tests/Linker.antt =====
-- The theorems on the linker and on the class index, applied to a small application of two
-- classes and a resource.
use mathlib.Core.List.{Mem, Nodup, not-mem-nil}
use endurox_java.Base.{
  ap, zero, suc, ℕ, ◌≡◌, ◌+◌, refl, true, false, some, none, List, [], ◌∷◌, ◌++◌, map, arith,
}
use endurox_java.Base.Bytes.{CString, codes, strcmp, str_eq}
use endurox_java.Boot.Index.{ClassIndex, get_index_bytes, search}
use endurox_java.Boot.Index.Bisect.{IsSorted, Answers, search-Answers}
use endurox_java.Linker.Entry.{classes, Job, Found, walk, walk_start, process_entry}
use endurox_java.Linker.Entry.Names.{walk-jobs, IsNumbered, file_names}
use endurox_java.Linker.Resources.{
  Pool, Resource, resname_of, HashLib, Attempt, embedded_ok, run_jobs, pool_start, element, head_of,
  with_head, res_find, res_add_th, res_sort_by_resname,
}
use mathlib.Core.Logic.{◌↔◌}
use endurox_java.Linker.Resources.Threads.{
  job_at, run_threads, run_turns, thpool_wait, turn, res_add_section,
}
use endurox_java.Linker.Resources.Race.Waited.{run_threads_lem}
use endurox_java.Linker.Resources.Serial.{run_jobs_lem, jobs_of}
use endurox_java.Linker.Resources.Sorted.{row, res_sort_by_resname-IsSorted}
use endurox_java.Linker.Resources.Race.{}
use endurox_java.Linker.Resources.Race.Safety.{Distinct}
use endurox_java.Linked.{table, linked_absent}
use endurox_java.Tests.HashList.{hash_list}

abbrev two_rows : List ClassIndex
two_rows =
    record { cls = codes "A"; content = 1 ∷ [] } ∷ record { cls = codes "B"; content = 2 ∷ [] } ∷ []

search-Answers_example : Answers two_rows (codes "B") (search two_rows (codes "B"))
unfolding search strcmp
search-Answers_example = search-Answers two_rows (codes "B") ((refl, tt), (tt, tt)) (omega arith)

abbrev three_files : List Found
three_files =
    record { path = codes "./b/B.class"; is_file = true; memory = true }
    ∷ record { path = codes "./b"; is_file = false; memory = true }
    ∷ record { path = codes "./A.class"; is_file = true; memory = true }
    ∷ record { path = codes "./x.png"; is_file = true; memory = true }
    ∷ []

walk-jobs_example :
    IsNumbered (walk three_files walk_start).1
    × (map (λ (j : Job). j.resname) (walk three_files walk_start).1.jobs ≡ file_names three_files)
unfolding walk process_entry
walk-jobs_example = walk-jobs three_files refl

abbrev class_job : CString → ℕ → Job
class_job name n = record {
  head = classes;
  resname = name;
  id = n;
  respath = codes "./" ++ name;
  emb_pfx = codes "class";
}

abbrev digit : ℕ → CString
digit n = (n + b'0') ∷ []

abbrev hashes : HashLib Resource resname_of
hashes = hash_list resname_of

abbrev two_jobs : List (Job × Attempt)
two_jobs = (class_job (codes "B") 1, embedded_ok) ∷ (class_job (codes "A") 2, embedded_ok) ∷ []

abbrev file_bytes : Resource → List ℕ
file_bytes r = r.id ∷ []

run_jobs_lem_example :
    let t = head_of hashes classes (run_jobs hashes digit two_jobs (pool_start hashes)) in
    (hashes.items t ≡ map (element digit) (jobs_of classes two_jobs))
    × Nodup (map resname_of (hashes.items t))
unfolding run_jobs res_add_th res_find head_of with_head element hash_list str_eq
run_jobs_lem_example = run_jobs_lem hashes digit classes two_jobs refl

res_sort_by_resname-IsSorted_example : IsSorted (
    map (row file_bytes) (
      hashes.items (
        res_sort_by_resname hashes
          (head_of hashes classes (run_jobs hashes digit two_jobs (pool_start hashes))))))
unfolding run_jobs res_add_th res_find head_of with_head element hash_list str_eq
res_sort_by_resname-IsSorted_example =
    res_sort_by_resname-IsSorted hashes file_bytes
      (head_of hashes classes (run_jobs hashes digit two_jobs (pool_start hashes)))
      (run_jobs_lem hashes digit classes two_jobs refl).1

linked_absent_example :
    get_index_bytes true true true (codes "a") (table hashes digit file_bytes classes []) 0
    ≡ some (none, 0)
unfolding run_jobs head_of hash_list res_sort_by_resname
linked_absent_example =
    linked_absent hashes digit file_bytes classes [] refl (omega arith) (codes "a")
      (λ j m. absurd (not-mem-nil m)) true true true 0

abbrev first_byte : CString → ℕ
first_byte [] = 0
first_byte (b ∷ s) = b

two_jobs-Distinct : Distinct hashes digit (λ i. (job_at two_jobs i).0) 2
two_jobs-Distinct zero zero in_i in_j heads names = refl
two_jobs-Distinct zero (suc zero) in_i in_j heads names =
    let e : 66 ≡ 65 = ap first_byte names in absurd (omega (arith, e))
two_jobs-Distinct (suc zero) zero in_i in_j heads names =
    let e : 65 ≡ 66 = ap first_byte names in absurd (omega (arith, e))
two_jobs-Distinct (suc zero) (suc zero) in_i in_j heads names = refl
two_jobs-Distinct i (suc (suc j)) in_i in_j heads names = absurd (omega arith)
two_jobs-Distinct (suc (suc i)) j in_i in_j heads names = absurd (omega arith)

-- The second job inserts first.
run_threads_lem_example :
    let t =
      head_of hashes classes
        (run_threads hashes digit two_jobs (0 ∷ 1 ∷ 1 ∷ []) (pool_start hashes)) in
    ((v : Resource)
      → Mem v (hashes.items t) ↔ Mem v (map (element digit) (jobs_of classes two_jobs)))
    × Nodup (map resname_of (hashes.items t))
unfolding run_threads run_turns thpool_wait turn res_add_section res_find head_of with_head element
    hash_list str_eq
run_threads_lem_example =
    run_threads_lem hashes digit two_jobs (0 ∷ 1 ∷ 1 ∷ []) classes two_jobs-Distinct refl

abbrev same_jobs : ℕ → Job
same_jobs n = class_job (codes "A") n

abbrev one_class : Pool hashes
one_class = run_jobs hashes digit ((class_job (codes "A") 1, embedded_ok) ∷ []) (pool_start hashes)
