-- ===== src/Linker/Resources/Sorted.antt =====
-- The sorted hash: once no name is twice in it, the names ascend strictly.
use mathlib.Core.List.{
  Mem, Nodup, Pairwise, Nodup-cons, Pairwise-cons, mem-cons_self, mem-cons_of_mem, mem-map_of_mem,
}
use mathlib.Core.List.Perm
use endurox_java.Base.{ℕ, ◌≡◌, ◌≢◌, List, [], ◌∷◌, map, Ordering, Ordering-cases, inl, inr}
use endurox_java.Base.Bytes.{CString, strcmp}
use endurox_java.Base.Bytes.Order.{eq_of_strcmp, strcmp_flip, strcmp_not_gt_trans}
use endurox_java.Boot.Index.{ClassIndex}
use endurox_java.Boot.Index.Bisect.{Before, IsSorted}
use endurox_java.Linker.Resources.{
  Resource, resname_of, resname_sort, IsOrder, HashLib, res_sort_by_resname,
}

pub resname_sort-IsOrder : IsOrder resname_sort
unfolding resname_sort
resname_sort-IsOrder = record {
  flip = λ a b. strcmp_flip a.resname b.resname;
  trans = λ a b c. strcmp_not_gt_trans a.resname b.resname c.resname;
}

-- The table row of a resource: its name, and the bytes that its generated include holds.
abbrev pub row : (content : Resource → List ℕ) → Resource → ClassIndex
row content r = record { cls = r.resname; content = content r }

module _ (content : Resource → List ℕ) where
  Before-rows :
      (x : CString) (rs : List Resource)
      → ((r : Resource) → Mem r rs → strcmp x r.resname ≡ Ordering.lt)
      → Before x (map (row content) rs)
  Before-rows x [] h = tt
  Before-rows x (r ∷ rs) h =
      (h r mem-cons_self, Before-rows x rs (λ s m. h s (mem-cons_of_mem r m)))

  -- Ascending names of which none is twice there ascend strictly.
  IsSorted-rows :
      (rs : List Resource)
      → Pairwise (λ a b. resname_sort a b ≢ Ordering.gt) rs
      → Nodup (map resname_of rs)
      → IsSorted (map (row content) rs)
  unfolding resname_sort
  IsSorted-rows [] up once = tt
  IsSorted-rows (r ∷ rs) up once =
      let (first, rest) = Pairwise-cons.0 up in
      let (new, once') = Nodup-cons.0 once in
      (
        Before-rows r.resname rs (λ s m. elim (Ordering-cases (strcmp r.resname s.resname)) [
          | inl less ↦ less
          | inr (inl same) ↦
              absurd
                (new (rw (eq_of_strcmp r.resname s.resname same) (mem-map_of_mem resname_of m)))
          | inr (inr more) ↦ absurd (first s m more)
        ]),
        IsSorted-rows rs rest once',
      )

module _ (H : HashLib Resource resname_of) (content : Resource → List ℕ) where
  open H use {Table, items, sort_perm, sort_ascends}

  -- The table that is generated from a sorted hash without duplicates is sorted for the search.
  pub res_sort_by_resname-IsSorted :
      (t : Table)
      → Nodup (map resname_of (items t))
      → IsSorted (map (row content) (items (res_sort_by_resname H t)))
  unfolding res_sort_by_resname
  res_sort_by_resname-IsSorted t once =
      IsSorted-rows content (items (H.sort resname_sort t))
        (sort_ascends resname_sort t resname_sort-IsOrder)
        (Perm.nodup (Perm.map resname_of (Perm.symm (sort_perm resname_sort t))) once)
