-- ===== src/Linked.antt =====
-- The linker and the boot library together: what exjld/findclasses.c and exjld/resources.c put
-- into a binary, and what `getIndexBytes` of libexjlds/exj.c finds in it.
use mathlib.Core.List.{Mem, mem-cons, not-mem-nil, mem-map_of_mem, exists_of_mem-map}
use mathlib.Core.List.Perm
use mathlib.Core.Path.{subst}
use mathlib.Core.Logic.{∥∥₁_elim, ∥∥₁_map, ◌↔◌}
use mathlib.Core.Logic.Or
use endurox_java.Base.{
  ℕ, zero, suc, ◌+◌, ◌<◌, ◌≡◌, ◌≢◌, refl, ap, sym, ◌∙◌, Bool, false, none, some, List, [], ◌∷◌, map,
  ◌&&◌, if◌then◌else◌, Bool-cases, inl, inr, arith, ltb, length, get_elem?, Option, true,
}
use endurox_java.Base.Bytes.{CString}
use endurox_java.Base.Bytes.Order.{strcmp_refl}
use endurox_java.Boot.Index.{
  ClassIndex, int_limit, Search, found, not_found, undefined, out_of_fuel, search, get_index_bytes,
}
use endurox_java.Boot.Index.Bisect.{IsSorted, Answers, search-Answers, strcmp_of_lt}
use endurox_java.Linker.Entry.{Hash, classes, embedded, Job}
use endurox_java.Linker.Resources.{
  Pool, Resource, resname_of, HashLib, head_of, element, Attempt, run_jobs, pool_start,
  resname_sort, res_sort_by_resname,
}
use endurox_java.Linker.Resources.Threads.{job_at, run_threads}
use endurox_java.Linker.Resources.Race.Safety.{Distinct}
use endurox_java.Linker.Resources.Race.Waited.{run_threads_lem}
use endurox_java.Linker.Settings.{BufferLib}
use endurox_java.Linker.Options.{Opt}
use endurox_java.Linker.Main.{System, Linker, main}
use endurox_java.Linker.Main.Done.{work}
use endurox_java.Linker.Main.Outcome.{main_success, main_pool}
use endurox_java.Linker.Resources.Serial.{jobs_of, run_jobs_lem}
use endurox_java.Linker.Resources.Sorted.{row, res_sort_by_resname-IsSorted}

get_elem?_of_mem :
    {A : Type 0} {a : A} (xs : List A) → Mem a xs → ∥ ((i : ℕ) × (get_elem? xs i ≡ some a)) ∥₁
get_elem?_of_mem [] m = absurd (not-mem-nil m)
get_elem?_of_mem (x ∷ xs) m =
    Or.elim squash₁ (mem-cons.0 m) (λ e. ∣ (0, ap some (sym e)) ∣₁)
      (λ r. ∥∥₁_map (get_elem?_of_mem xs r) (λ (i, e). (suc i, e)))

mem_of_get_elem? : {A : Type 0} {a : A} (xs : List A) (i : ℕ) → get_elem? xs i ≡ some a → Mem a xs
mem_of_get_elem? [] i e = cc
mem_of_get_elem? (x ∷ xs) zero e = mem-cons.1 (Or.inl (cc))
mem_of_get_elem? (x ∷ xs) (suc i) e = mem-cons.1 (Or.inr (mem_of_get_elem? xs i e))

-- In a sorted table an entry is fixed by its name.
entry_unique :
    (index : List ClassIndex) (i j : ℕ) {a b : ClassIndex}
    → IsSorted index
    → get_elem? index i ≡ some a
    → get_elem? index j ≡ some b
    → a.cls ≡ b.cls
    → a ≡ b
entry_unique index i j {a} {b} s p q same = elim (Bool-cases (ltb i j)) [
  | inl lower ↦ ground (arith, strcmp_of_lt index i j {a = a} {b = b} s, strcmp_refl a.cls)
  | inr high ↦ elim (Bool-cases (ltb j i)) [
    | inl upper ↦ ground (arith, strcmp_of_lt index j i {a = b} {b = a} s, strcmp_refl a.cls)
    | inr low ↦ ground arith
  ]
]

ClassIndex-set : IsSet ClassIndex
ClassIndex-set = hlevel

-- The search of a sorted table for a name that it holds ends at that entry.
search-mem :
    (index : List ClassIndex) (e : ClassIndex)
    → IsSorted index
    → length index + length index < int_limit
    → Mem e index
    → (i : ℕ) × (search index e.cls ≡ found i e)
search-mem index e s small m = go (search index e.cls) (search-Answers index e.cls s small) refl
  where
    go :
        (r : Search)
        → Answers index e.cls r
        → search index e.cls ≡ r
        → (i : ℕ) × (search index e.cls ≡ found i e)
    go (found i d) (at, same) eq = (
      i,
      eq
          ∙ ap (found i) (
              ∥∥₁_elim (get_elem?_of_mem index m) (ClassIndex-set d e)
                (λ (j, there). entry_unique index i j s at there same)),
    )
    go not_found missing eq = absurd (
        ∥∥₁_elim (get_elem?_of_mem index m) (λ x y. absurd x)
          (λ (j, there). missing j e there refl))
    go undefined h eq = absurd h
    go out_of_fuel h eq = absurd h

-- A table without the name gives no entry.
search-not-mem :
    (index : List ClassIndex) (name : CString)
    → IsSorted index
    → length index + length index < int_limit
    → ((e : ClassIndex) → Mem e index → e.cls ≢ name)
    → search index name ≡ not_found
search-not-mem index name s small other =
    go (search index name) (search-Answers index name s small) refl
  where
    go : (r : Search) → Answers index name r → search index name ≡ r → search index name ≡ not_found
    go (found i d) (at, same) eq = absurd (other d (mem_of_get_elem? index i at) same)
    go not_found missing eq = eq
    go undefined h eq = absurd h
    go out_of_fuel h eq = absurd h

module _ (is_copy array_ok region_ok : Bool) (index : List ClassIndex) (utf : CString) where
  get_index_bytes-found :
      {i : ℕ} {e : ClassIndex}
      → search index utf ≡ found i e
      → (strings : ℕ)
      → get_index_bytes is_copy array_ok region_ok utf index strings
        ≡ some (
          if array_ok && region_ok then some e.content else none,
          if is_copy then strings else strings + 1,
        )
  unfolding get_index_bytes
  get_index_bytes-found e strings = ground arith

  get_index_bytes-not_found :
      search index utf ≡ not_found
      → (strings : ℕ)
      → get_index_bytes is_copy array_ok region_ok utf index strings
        ≡ some (none, if is_copy then strings else strings + 1)
  unfolding get_index_bytes
  get_index_bytes-not_found e strings = ground arith

module _ (H : HashLib Resource resname_of) (number : ℕ → CString)
    (content : Resource → List ℕ) where
  open H use {items}

  -- The table that the generated code holds for a hash, after the jobs and the sort.
  abbrev pub table : Hash → List (Job × Attempt) → List ClassIndex
  table h js =
      map (row content)
        (items (res_sort_by_resname H (head_of H h (run_jobs H number js (pool_start H)))))

  module _ (h : Hash) (js : List (Job × Attempt))
      (ok : (run_jobs H number js (pool_start H)).thpool_error ≡ false)
      (small : length (table h js) + length (table h js) < int_limit) where
    sorted : IsSorted (table h js)
    sorted =
        res_sort_by_resname-IsSorted H content (head_of H h (run_jobs H number js (pool_start H)))
          (run_jobs_lem H number h js ok).1

    -- The records behind the rows are those of the jobs.
    record-mem :
        (r : Resource)
        → Mem r (items (res_sort_by_resname H (head_of H h (run_jobs H number js (pool_start H)))))
          ↔ Mem r (map (element number) (jobs_of h js))
    unfolding res_sort_by_resname
    record-mem r =
        let t = head_of H h (run_jobs H number js (pool_start H)) in
        subst (λ l. Mem r (items (H.sort resname_sort t)) ↔ Mem r l)
          (run_jobs_lem H number h js ok).0 (Perm.mem_iff (H.sort_perm resname_sort t))

    row-mem : (j : Job) → Mem j (jobs_of h js) → Mem (row content (element number j)) (table h js)
    row-mem j m =
        mem-map_of_mem (row content)
          ((record-mem (element number j)).1 (mem-map_of_mem (element number) m))

    row-not-mem :
        (name : CString)
        → ((j : Job) → Mem j (jobs_of h js) → j.resname ≢ name)
        → (e : ClassIndex) → Mem e (table h js)
        → e.cls ≢ name
    unfolding element
    row-not-mem name other e m same =
        ∥∥₁_elim (exists_of_mem-map m) (λ x y. absurd x)
          λ (r, in_rows, eq).
            ∥∥₁_elim (exists_of_mem-map ((record-mem r).0 in_rows)) (λ x y. absurd x)
              λ (j, job, made).
                other j job
                  (ap (λ (s : Resource). s.resname) made ∙ ap (λ (d : ClassIndex). d.cls) eq ∙ same)

    -- What the linker packed for a job is what the boot library returns under the job's name, or
    -- NULL when the JVM has no array for it; the characters of the name are released just when they
    -- are a copy.
    pub linked_found :
        (j : Job)
        → Mem j (jobs_of h js)
        → (is_copy array_ok region_ok : Bool) (strings : ℕ)
        → get_index_bytes is_copy array_ok region_ok j.resname (table h js) strings
          ≡ some (
            if array_ok && region_ok then some (content (element number j)) else none,
            if is_copy then strings else strings + 1,
          )
    unfolding element
    linked_found j m is_copy array_ok region_ok strings =
        let (i, e) =
          search-mem (table h js) (row content (element number j)) sorted small (row-mem j m) in
        get_index_bytes-found is_copy array_ok region_ok (table h js) j.resname e strings

    -- When the jobs have been done one after another without an error and the table has fewer than 2 ^ 30
    -- entries, a name of no job is not found, and the class loader falls back to the class path.
    pub linked_absent :
        (name : CString)
        → ((j : Job) → Mem j (jobs_of h js) → j.resname ≢ name)
        → (is_copy array_ok region_ok : Bool) (strings : ℕ)
        → get_index_bytes is_copy array_ok region_ok name (table h js) strings
          ≡ some (none, if is_copy then strings else strings + 1)
    linked_absent name other is_copy array_ok region_ok strings =
        get_index_bytes-not_found is_copy array_ok region_ok (table h js) name
          (search-not-mem (table h js) name sorted small (row-not-mem name other)) strings

module _ (B : BufferLib) (list_add : List CString → CString → Option (List CString))
    (H : HashLib Resource resname_of) (number : ℕ → CString) (content : Resource → List ℕ)
    (sys : System) where
  -- The table of the program that the linker's last build is made of: its hash, as `main` leaves it.
  abbrev pub index_of : Hash → Linker B list_add H number sys → List ClassIndex
  index_of h l = map (row content) (H.items (head_of H h l.pool))

  head_of-sorted :
      (h : Hash) (p : Pool H)
      → head_of H h (record p {
        classes_hash = res_sort_by_resname H p.classes_hash;
        emb_res_hash = res_sort_by_resname H p.emb_res_hash;
      })
        ≡ res_sort_by_resname H (head_of H h p)
  unfolding head_of
  head_of-sorted classes p = refl
  head_of-sorted embedded p = refl

  -- When the linker exits with success, however the threads of its pool have taken turns, and no two of
  -- the jobs for one hash have the same name, each file of the JAR files for which the walk made a job
  -- is what the boot library returns under the job's name, as long as the table has fewer than 2 ^ 30
  -- entries: the table made of the hash that `main` leaves holds its bytes, and the search finds them,
  -- or gives NULL when the JVM has no array for them.
  pub main_found :
      (opts : List Opt) (jars : List CString)
      → (main B list_add H number sys opts jars).0 ≡ true
      → Distinct H number
          (λ i. (job_at (work B list_add H number sys) i).0)
          (length (work B list_add H number sys))
      → (h : Hash) (j : Job) → Mem j (jobs_of h (work B list_add H number sys))
      → length (index_of h (main B list_add H number sys opts jars).1)
          + length (index_of h (main B list_add H number sys opts jars).1)
        < int_limit
      → (is_copy array_ok region_ok : Bool) (strings : ℕ)
      → get_index_bytes is_copy array_ok region_ok j.resname
          (index_of h (main B list_add H number sys opts jars).1)
          strings
        ≡ some (
          if array_ok && region_ok then some (content (element number j)) else none,
          if is_copy then strings else strings + 1,
        )
  unfolding element res_sort_by_resname
  main_found opts jars ok distinct h j m small is_copy array_ok region_ok strings =
      let js = work B list_add H number sys in
      let t = head_of H h (run_threads H number js sys.schedule (pool_start H)) in
      let no_error = (main_success B list_add H number sys opts jars ok).3.no_error in
      let (all, once) = run_threads_lem H number js sys.schedule h distinct no_error in
      let e : head_of H h (main B list_add H number sys opts jars).1.pool
          ≡ res_sort_by_resname H t =
        ap (head_of H h) (main_pool B list_add H number sys opts jars ok) ∙ head_of-sorted h _ in
      let index = index_of h (main B list_add H number sys opts jars).1 in
      let same : index ≡ map (row content) (H.items (res_sort_by_resname H t)) =
        ap (λ u. map (row content) (H.items u)) e in
      let there : Mem (row content (element number j)) index =
        subst (Mem (row content (element number j))) (sym same) (
          mem-map_of_mem (row content) (
            (Perm.mem_iff (H.sort_perm resname_sort t)).1
              ((all (element number j)).1 (mem-map_of_mem (element number) m)))) in
      let sorted : IsSorted index =
        subst IsSorted (sym same) (res_sort_by_resname-IsSorted H content t once) in
      let (i, found_at) = search-mem index (row content (element number j)) sorted small there in
      get_index_bytes-found is_copy array_ok region_ok index j.resname found_at strings
