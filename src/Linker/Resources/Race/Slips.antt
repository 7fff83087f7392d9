-- ===== src/Linker/Resources/Race/Slips.antt =====
-- Two jobs of one name between whose look-ups and insertions nothing stands.
use mathlib.Core.List.{append_assoc}
use endurox_java.Base.{◌<◌, ℕ, ◌≡◌, ◌≢◌, refl, ap, sym, ◌∙◌, none, [], ◌∷◌, ◌++◌, arith}
use endurox_java.Base.Bytes.{CString}
use endurox_java.Linker.Entry.{Hash, classes, embedded, Job}
use endurox_java.Linker.Resources.{
  Resource, resname_of, HashLib, Pool, head_of, with_head, res_find, element,
}
use endurox_java.Linker.Resources.Race.{
  pending, checked, added, update, System, look_up, insert, Reach, here, next,
}

module _ (H : HashLib Resource resname_of) (number : ℕ → CString) (jobs : ℕ → Job) (count : ℕ) where
  open H use {items, add_str, items-add_str}

  head_of-with_head_eq :
      (h g : Hash) (t : H.Table) (p : Pool H) → h ≡ g → head_of H h (with_head H g t p) ≡ t
  unfolding head_of with_head
  head_of-with_head_eq classes classes t p e = refl
  head_of-with_head_eq classes embedded t p e = cc
  head_of-with_head_eq embedded classes t p e = cc
  head_of-with_head_eq embedded embedded t p e = refl

  with_head_error :
      (h : Hash) (t : H.Table) (p : Pool H) → (with_head H h t p).thpool_error ≡ p.thpool_error
  unfolding with_head
  with_head_error classes t p = refl
  with_head_error embedded t p = refl

  -- Two jobs for one hash with the same name, both before their look-up, while the name is not in
  -- the hash: some interleaving inserts both and sets no error.
  pub duplicate_slips :
      (s : System H number jobs count) (i j : ℕ)
      → i ≢ j
      → i < count
      → j < count
      → (jobs i).head ≡ (jobs j).head
      → (jobs i).resname ≡ (jobs j).resname
      → s.pc i ≡ pending
      → s.pc j ≡ pending
      → res_find H (head_of H (jobs i).head s.pool) (jobs i).resname ≡ none
      → (t : System H number jobs count) × Reach H number jobs count s t
        × (t.pool.thpool_error ≡ s.pool.thpool_error)
        × (items (head_of H (jobs i).head t.pool)
            ≡ items (head_of H (jobs i).head s.pool)
              ++ element number (jobs i) ∷ element number (jobs j) ∷ [])
  duplicate_slips s i j ne in_i in_j heads names at_i at_j unknown =
      let s1 : System H number jobs count = record s { pc = update s.pc i checked } in
      let s2 : System H number jobs count = record s { pc = update s1.pc j checked } in
      let h = (jobs i).head in
      let p3 = with_head H h (add_str (element number (jobs i)) (head_of H h s.pool)) s.pool in
      let s3 : System H number jobs count = record { pool = p3; pc = update s2.pc i added } in
      let p4 =
        with_head H (jobs j).head (add_str (element number (jobs j)) (head_of H (jobs j).head p3))
          p3 in
      let s4 : System H number jobs count = record { pool = p4; pc = update s3.pc j added } in
      let r1 : Reach H number jobs count s s1 = next here (look_up i in_i at_i unknown) in
      let r2 : Reach H number jobs count s s2 =
        next r1 (look_up j in_j (ground arith) (rw (← heads, ← names) unknown)) in
      let r3 : Reach H number jobs count s s3 = next r2 (insert i in_i (ground arith)) in
      let r4 : Reach H number jobs count s s4 = next r3 (insert j in_j (ground arith)) in
      let one = element number (jobs i) in
      let two = element number (jobs j) in
      let old = items (head_of H h s.pool) in
      let last =
        head_of-with_head_eq h (jobs j).head (add_str two (head_of H (jobs j).head p3)) p3 heads in
      let first =
        head_of-with_head_eq (jobs j).head h (add_str one (head_of H h s.pool)) s.pool
          (sym heads) in
      (
        s4,
        r4,
        with_head_error (jobs j).head (add_str two (head_of H (jobs j).head p3)) p3
            ∙ with_head_error h (add_str one (head_of H h s.pool)) s.pool,
        ap items last
            ∙ items-add_str two (head_of H (jobs j).head p3)
            ∙ ap (λ l. l ++ two ∷ []) (ap items first ∙ items-add_str one (head_of H h s.pool))
            ∙ append_assoc old (one ∷ []) (two ∷ []),
      )
