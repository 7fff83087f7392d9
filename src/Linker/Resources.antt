-- ===== src/Linker/Resources.antt =====
-- exjld/resources.c: the hashes of classes and embedded resources, filled by the thread pool and
-- sorted by name before the code is generated. The hash itself is uthash under its Enduro/X names
-- (exhash.h), which is not part of the repository: it enters as the record `HashLib`.
pub mod Serial
pub mod Sorted
pub mod Threads
pub mod Race
pub mod Freed
pub mod Keys
use mathlib.Core.List.{Mem, Pairwise, Perm}
use endurox_java.Base.{
  ℕ, ◌≡◌, ◌≢◌, Bool, true, false, Option, none, some, List, [], ◌∷◌, ◌++◌, Ordering, if◌then◌else◌,
}
use endurox_java.Base.Bytes.{CString, codes, strcmp}
use endurox_java.Linker.Entry.{Hash, classes, embedded, Job}

-- `exjld_resource_t`
pub record Resource : Type 0 where
  pub resname : CString
  pub id : ℕ
  pub respath : CString
  pub embpath : CString

-- `resname_sort`
unfoldable pub resname_sort : Resource → Resource → Ordering
resname_sort a b = strcmp a.resname b.resname

-- What EXHASH_SORT expects of the comparison that it is given.
pub record IsOrder {V : Type 0} (cmp : V → V → Ordering) : Type 0 where
  pub flip : (a b : V) → cmp a b ≡ Ordering.gt → cmp b a ≡ Ordering.lt
  pub trans : (a b c : V) → cmp a b ≢ Ordering.gt → cmp b c ≢ Ordering.gt → cmp a c ≢ Ordering.gt

-- A uthash table of records under a string key, as its manual describes it: EXHASH_ITER goes over
-- the items in the order of insertion, EXHASH_FIND_STR finds an item with the key if there is one,
-- EXHASH_SORT reorders the items by a comparison.
pub record HashLib (V : Type 0) (key : V → CString) : Type 1 where
  pub Table : Type 0
  pub empty : Table
  pub items : Table → List V
  pub find_str : CString → Table → Option V
  pub add_str : V → Table → Table
  pub sort : (V → V → Ordering) → Table → Table
  pub items-empty : items empty ≡ []
  pub items-add_str : (v : V) (t : Table) → items (add_str v t) ≡ items t ++ v ∷ []
  pub find_str_none :
      (k : CString) (t : Table) → find_str k t ≡ none → (v : V) → Mem v (items t) → key v ≢ k
  pub find_str_some :
      (k : CString) (t : Table) (v : V) → find_str k t ≡ some v → (key v ≡ k) × Mem v (items t)
  pub sort_perm : (cmp : V → V → Ordering) (t : Table) → Perm (items (sort cmp t)) (items t)
  pub sort_ascends :
      (cmp : V → V → Ordering) (t : Table)
      → IsOrder cmp
      → Pairwise (λ a b. cmp a b ≢ Ordering.gt) (items (sort cmp t))

abbrev pub resname_of : Resource → CString
resname_of r = r.resname

-- The record that a job makes; `number` prints an int in decimals.
unfoldable pub element : (number : ℕ → CString) → Job → Resource
element number job = record {
  resname = job.resname;
  id = job.id;
  respath = job.respath;
  embpath = job.emb_pfx ++ codes "_" ++ number job.id;
}

-- The outcome of the allocation and of `ndrx_file_gen_embed` for a job.
pub data Attempt : Type 0 where
  no_memory not_embedded embedded_ok : Attempt

module _ (H : HashLib Resource resname_of) where
  open H use {Table, empty, find_str, add_str, sort}

  -- The globals of the linker that the jobs touch. `freed` lists the records given back to the
  -- allocator.
  pub record Pool : Type 0 where
    pub classes_hash : Table
    pub emb_res_hash : Table
    pub thpool_error : Bool
    pub freed : List Resource

  -- `*data->head`
  unfoldable pub head_of : Hash → Pool → Table
  head_of classes p = p.classes_hash
  head_of embedded p = p.emb_res_hash

  unfoldable pub with_head : Hash → Table → Pool → Pool
  with_head classes t p = record p { classes_hash = t }
  with_head embedded t p = record p { emb_res_hash = t }

  -- `exljd_res_find`
  unfoldable pub res_find : Table → CString → Option Resource
  res_find head resname = find_str resname head

  -- `exljd_res_add_th` by one thread with no other in between. On an error the record that `elm`
  -- points to is freed; for a duplicate that is the record found in the hash.
  unfoldable pub res_add_th : (number : ℕ → CString) → Attempt → Job → Pool → Pool
  res_add_th number attempt job p = elim (res_find (head_of job.head p) job.resname) [
    | some elm ↦ record p { thpool_error = true; freed = elm ∷ p.freed }
    | none ↦ elim attempt [
      | no_memory ↦ record p { thpool_error = true }
      | not_embedded ↦ record p { thpool_error = true; freed = element number job ∷ p.freed }
      | embedded_ok ↦ with_head job.head (add_str (element number job) (head_of job.head p)) p
    ]
  ]

  -- The jobs of a pool of one thread, each with its outcome.
  unfoldable pub run_jobs : (number : ℕ → CString) → List (Job × Attempt) → Pool → Pool
  run_jobs number [] p = p
  run_jobs number ((job, attempt) ∷ js) p = run_jobs number js (res_add_th number attempt job p)

  -- `exljd_res_sort_by_resname`
  unfoldable pub res_sort_by_resname : Table → Table
  res_sort_by_resname head = sort resname_sort head

  abbrev pub pool_start : Pool
  pool_start = record {
    classes_hash = empty;
    emb_res_hash = empty;
    thpool_error = false;
    freed = [];
  }
