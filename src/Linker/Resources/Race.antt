-- ===== src/Linker/Resources/Race.antt =====
-- exjld/resources.c under several threads. `exljd_res_add_th` takes the lock of the hash twice,
-- once in `exljd_res_find` and once for the insertion, and other threads run in between.
pub mod Complete
pub mod Safety
pub mod Slips
pub mod Turns
pub mod Waited
use mathlib.Core.List.{
  Mem, Nodup, Nodup-nil, Nodup-append, Nodup-cons, map-append, append_assoc, not-mem-nil, mem-cons,
  mem-append, mem-map_of_mem, exists_of_mem-map,
}
use mathlib.Core.Logic.{∥∥₁_elim, ∥∥₁_map}
use mathlib.Core.Logic.Or
use endurox_java.Base.{
  ◌<◌, ℕ, ◌≡◌, ◌≢◌, ◌⊎◌, inl, inr, refl, ap, sym, ◌∙◌, Bool, true, false, Option, none, some, List,
  [], ◌∷◌, ◌++◌, map, arith, if◌then◌else◌, ◌==◌, Bool-cases,
}
use endurox_java.Base.Bytes.{CString}
use endurox_java.Linker.Entry.{Hash, classes, embedded, Job}
use endurox_java.Linker.Resources.{
  Resource, resname_of, HashLib, Pool, head_of, with_head, res_find, element, pool_start,
}

-- Where the thread that runs a job stands: before the look-up, behind it, or at the end.
pub data Pc : Type 0 where
  pending checked added failed : Pc

abbrev pub update : (ℕ → Pc) → ℕ → Pc → ℕ → Pc
update f i pc j = if i == j then pc else f j

module _ (H : HashLib Resource resname_of) (number : ℕ → CString) (jobs : ℕ → Job) (count : ℕ) where
  open H use {items, add_str, items-empty, items-add_str}

  pub record System : Type 0 where
    pub pool : Pool H
    pub pc : ℕ → Pc

  -- `exljd_res_add_th` for job `i` up to the end of its first critical section, and from there on.
  pub data Step (s : System) : System → Type 0 where
    look_up :
        (i : ℕ)
        → i < count
        → s.pc i ≡ pending
        → res_find H (head_of H (jobs i).head s.pool) (jobs i).resname ≡ none
        → Step s (record s { pc = update s.pc i checked })
    duplicate :
        (i : ℕ) (elm : Resource)
        → i < count
        → s.pc i ≡ pending
        → res_find H (head_of H (jobs i).head s.pool) (jobs i).resname ≡ some elm
        → Step s (record {
          pool = record (s.pool) { thpool_error = true; freed = elm ∷ s.pool.freed };
          pc = update s.pc i failed;
        })
    no_memory :
        (i : ℕ)
        → i < count
        → s.pc i ≡ checked
        → Step s
            (record { pool = record (s.pool) { thpool_error = true }; pc = update s.pc i failed })
    not_embedded :
        (i : ℕ)
        → i < count
        → s.pc i ≡ checked
        → Step s (record {
          pool = record (s.pool) {
            thpool_error = true;
            freed = element number (jobs i) ∷ s.pool.freed;
          };
          pc = update s.pc i failed;
        })
    insert :
        (i : ℕ)
        → i < count
        → s.pc i ≡ checked
        → Step s (record {
          pool =
              with_head H
                (jobs i).head
                (add_str (element number (jobs i)) (head_of H (jobs i).head s.pool))
                s.pool;
          pc = update s.pc i added;
        })

  pub data Reach (s : System) : System → Type 0 where
    here : Reach s s
    next : {t u : System} → Reach s t → Step t u → Reach s u

  abbrev pub started : Pool H → System
  started p = record { pool = p; pc = λ i. pending }

  abbrev pub start : System
  start = started (pool_start H)
