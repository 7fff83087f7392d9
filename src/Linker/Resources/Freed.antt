-- ===== src/Linker/Resources/Freed.antt =====
-- Which records `exljd_res_add_th` gives back to the allocator.
use mathlib.Core.List.{Mem, mem-cons_self}
use endurox_java.Base.{ℕ, ◌≡◌, refl, true, some, List, ◌∷◌}
use endurox_java.Base.Bytes.{CString}
use endurox_java.Linker.Entry.{Hash, classes, embedded, Job}
use endurox_java.Linker.Resources.{
  Resource, resname_of, HashLib, Pool, head_of, res_find, res_add_th, Attempt,
}

module _ (H : HashLib Resource resname_of) (number : ℕ → CString) where
  head_of_freed :
      (h : Hash) (p : Pool H) (f : List Resource)
      → head_of H h (record p { thpool_error = true; freed = f }) ≡ head_of H h p
  unfolding head_of
  head_of_freed classes p f = refl
  head_of_freed embedded p f = refl

  res_add_th-found :
      (attempt : Attempt) (job : Job) (p : Pool H) (elm : Resource)
      → res_find H (head_of H job.head p) job.resname ≡ some elm
      → res_add_th H number attempt job p ≡ record p { thpool_error = true; freed = elm ∷ p.freed }
  unfolding res_add_th
  res_add_th-found attempt job p elm found = rw (found, res_add_th) refl

  -- A job whose name is in its hash sets the error and frees the record that the hash holds under
  -- that name, and the record stays in the hash.
  pub duplicate_dangles :
      (attempt : Attempt) (job : Job) (p : Pool H) (elm : Resource)
      → res_find H (head_of H job.head p) job.resname ≡ some elm
      → let p' = res_add_th H number attempt job p in
        (p'.thpool_error ≡ true)
        × Mem elm p'.freed
        × Mem elm (H.items (head_of H job.head p'))
        × (elm.resname ≡ job.resname)
  unfolding res_find
  duplicate_dangles attempt job p elm found =
      let (name, there) = H.find_str_some job.resname (head_of H job.head p) elm found in
      rw (res_add_th-found attempt job p elm found, head_of_freed job.head p (elm ∷ p.freed))
        (refl, mem-cons_self, there, name)
