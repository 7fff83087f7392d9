-- ===== src/Ubf/Calls.antt =====
-- Any call of the methods of TypedUbf that run nothing of Java, and histories of them. `tpubftojson`,
-- which keeps its block, and the methods with callbacks stand apart.
use endurox_java.Ubf.Project.{bproj, bdelete, bprojcpy}
use endurox_java.Ubf.Pairs.{bconcat, bcpy, bupdate, bjoin, bojoin, bcmp, bsubset}
use endurox_java.Ubf.Values.{JavaValue, bdel, bdelall, badd, bchg, bget, bget_object, baddfast}
use endurox_java.Ubf.Info.{
  bpres, bisubf, blen, bnext, boccur, bsizeof, bunused, bused, bnum, binit, bprint, tpjsontoubf,
  tplogprintubf,
}
use endurox_java.Ubf.Leaves.{Leaves}
use endurox_java.Ubf.Leaves.Buffers.{
  fields_call-Leaves, bprojcpy-Leaves, pair_call-Leaves, bcmp-Leaves, bsubset-Leaves,
}
use endurox_java.Ubf.Leaves.Values.{
  change-Leaves, badd-Leaves, bchg-Leaves, baddfast-Leaves, bget-Leaves, bget_object-Leaves,
}
use endurox_java.Ubf.Leaves.Questions.{
  ask-Leaves, blen-Leaves, bnext-Leaves, binit-Leaves, bprint-Leaves, tpjsontoubf-Leaves,
  tplogprintubf-Leaves,
}
use endurox_java.Ubf.{UbfLib, FieldType, Location, JvmAnswers, UbfState, exfail}
use endurox_java.Buffers.{TypedBuffer}
use endurox_java.Base.Bytes.{CString}
use endurox_java.Base.{◌≡◌, ◌≢◌, refl, ◌∙◌, ℕ, Bool, false, List, [], ◌∷◌}

-- The methods, with what they are called with.
pub data UbfCall : Type 0 where
  bproj_of bdelete_of : List ℕ → UbfCall
  bprojcpy_of : (src : ℕ) → List ℕ → UbfCall
  bconcat_of bcpy_of bupdate_of bjoin_of bojoin_of bcmp_of bsubset_of : (src : ℕ) → UbfCall
  bdel_of : (bfldid occ : ℕ) → UbfCall
  bdelall_of : (bfldid : ℕ) → UbfCall
  badd_of : (bfldid : ℕ) → JavaValue → UbfCall
  bchg_of : (bfldid occ : ℕ) → JavaValue → UbfCall
  baddfast_of : (bfldid : ℕ) → JavaValue → Location → UbfCall
  bget_of bget_object_of : (bfldid occ : ℕ) → FieldType → UbfCall
  bpres_of blen_of : (bfldid occ : ℕ) → UbfCall
  boccur_of : (bfldid : ℕ) → UbfCall
  bisubf_of bsizeof_of bunused_of bused_of bnum_of binit_of bprint_of tplogprintubf_of : UbfCall
  bnext_of : (first : Bool) → UbfCall
  tpjsontoubf_of : CString → UbfCall

-- A call on an object, with what the JVM and malloc answer to it.
pub record UbfStep : Type 0 where
  pub object : ℕ
  pub answers : JvmAnswers
  pub call : UbfCall

module _ {B : Type 0} (L : UbfLib B) where
  abbrev pub behind_ubf : JvmAnswers → (object : ℕ) → UbfCall → UbfState B → UbfState B
  behind_ubf a object (bproj_of ids) s = bproj L a object ids s
  behind_ubf a object (bdelete_of ids) s = bdelete L a object ids s
  behind_ubf a object (bprojcpy_of src ids) s = bprojcpy L a object src ids s
  behind_ubf a object (bconcat_of src) s = bconcat L a object src s
  behind_ubf a object (bcpy_of src) s = bcpy L a object src s
  behind_ubf a object (bupdate_of src) s = bupdate L a object src s
  behind_ubf a object (bjoin_of src) s = bjoin L a object src s
  behind_ubf a object (bojoin_of src) s = bojoin L a object src s
  behind_ubf a object (bcmp_of src) s = (bcmp L a object src s).1
  behind_ubf a object (bsubset_of src) s = (bsubset L a object src s).1
  behind_ubf a object (bdel_of bfldid occ) s = bdel L a object bfldid occ s
  behind_ubf a object (bdelall_of bfldid) s = bdelall L a object bfldid s
  behind_ubf a object (badd_of bfldid value) s = badd L a object bfldid value s
  behind_ubf a object (bchg_of bfldid occ value) s = bchg L a object bfldid occ value s
  behind_ubf a object (baddfast_of bfldid value loc) s = (baddfast L a object bfldid value loc s).1
  behind_ubf a object (bget_of bfldid occ t) s = (bget L a object bfldid occ t s).1
  behind_ubf a object (bget_object_of bfldid occ t) s = (bget_object L a object bfldid occ t s).1
  behind_ubf a object (bpres_of bfldid occ) s = (bpres L a object bfldid occ s).1
  behind_ubf a object (blen_of bfldid occ) s = (blen L a object bfldid occ s).1
  behind_ubf a object (boccur_of bfldid) s = (boccur L a object bfldid s).1
  behind_ubf a object bisubf_of s = (bisubf L a object s).1
  behind_ubf a object bsizeof_of s = (bsizeof L a object s).1
  behind_ubf a object bunused_of s = (bunused L a object s).1
  behind_ubf a object bused_of s = (bused L a object s).1
  behind_ubf a object bnum_of s = (bnum L a object s).1
  behind_ubf a object binit_of s = (binit L a object s).1
  behind_ubf a object bprint_of s = bprint L a object s
  behind_ubf a object tplogprintubf_of s = tplogprintubf a object s
  behind_ubf a object (bnext_of first) s = (bnext L a object first s).1
  behind_ubf a object (tpjsontoubf_of json) s = tpjsontoubf L a object json s

  -- A method changes no buffer but its object's own, no object, and leaves nothing held or allocated
  -- that was not, whatever the library, the JVM and malloc answer.
  pub call-Leaves :
      (a : JvmAnswers) (object : ℕ) (c : UbfCall) (s : UbfState B)
      → Leaves (s.world.objects object).c_ptr s (behind_ubf a object c s)
  unfolding bconcat bcpy bdel bdelall bdelete bget bisubf bjoin bnum boccur bojoin bpres bproj
      bsizeof bunused bupdate bused
  call-Leaves a object (bproj_of ids) s = fields_call-Leaves L.bproj a object ids s
  call-Leaves a object (bdelete_of ids) s = fields_call-Leaves L.bdelete a object ids s
  call-Leaves a object (bprojcpy_of src ids) s = bprojcpy-Leaves L a object src ids s
  call-Leaves a object (bconcat_of src) s = pair_call-Leaves L.bconcat a object src s
  call-Leaves a object (bcpy_of src) s = pair_call-Leaves L.bcpy a object src s
  call-Leaves a object (bupdate_of src) s = pair_call-Leaves L.bupdate a object src s
  call-Leaves a object (bjoin_of src) s = pair_call-Leaves L.bjoin a object src s
  call-Leaves a object (bojoin_of src) s = pair_call-Leaves L.bojoin a object src s
  call-Leaves a object (bcmp_of src) s = bcmp-Leaves L a object src s
  call-Leaves a object (bsubset_of src) s = bsubset-Leaves L a object src s
  call-Leaves a object (bdel_of bfldid occ) s = change-Leaves (L.bdel bfldid occ) a object s
  call-Leaves a object (bdelall_of bfldid) s = change-Leaves (L.bdelall bfldid) a object s
  call-Leaves a object (badd_of bfldid value) s = badd-Leaves L a object bfldid value s
  call-Leaves a object (bchg_of bfldid occ value) s = bchg-Leaves L a object bfldid occ value s
  call-Leaves a object (baddfast_of bfldid value loc) s =
      baddfast-Leaves L a object bfldid value loc s
  call-Leaves a object (bget_of bfldid occ t) s = bget-Leaves L a object bfldid occ t s
  call-Leaves a object (bget_object_of bfldid occ t) s =
      bget_object-Leaves L a object bfldid occ t s
  call-Leaves a object (bpres_of bfldid occ) s = ask-Leaves a object false (L.bpres bfldid occ) s
  call-Leaves a object (blen_of bfldid occ) s = blen-Leaves L a object bfldid occ s
  call-Leaves a object (boccur_of bfldid) s = ask-Leaves a object exfail (L.boccur bfldid) s
  call-Leaves a object bisubf_of s = ask-Leaves a object false L.bisubf s
  call-Leaves a object bsizeof_of s = ask-Leaves a object exfail (λ b. (L.bsizeof b).0) s
  call-Leaves a object bunused_of s = ask-Leaves a object exfail L.bunused s
  call-Leaves a object bused_of s = ask-Leaves a object exfail L.bused s
  call-Leaves a object bnum_of s = ask-Leaves a object exfail L.bnum s
  call-Leaves a object binit_of s = binit-Leaves L a object s
  call-Leaves a object bprint_of s = bprint-Leaves L a object s
  call-Leaves a object tplogprintubf_of s = tplogprintubf-Leaves a object s
  call-Leaves a object (bnext_of first) s = bnext-Leaves L a object first s
  call-Leaves a object (tpjsontoubf_of json) s = tpjsontoubf-Leaves L a object json s

  unfoldable pub run_ubf : List UbfStep → UbfState B → UbfState B
  run_ubf [] s = s
  run_ubf (st ∷ sts) s = run_ubf sts (behind_ubf st.answers st.object st.call s)

-- No object of the calls holds the buffer at `i`.
abbrev pub Spares : (i : ℕ) → (ℕ → TypedBuffer) → List UbfStep → Type 0
Spares i objects [] = Unit {0}
Spares i objects (st ∷ sts) = (i ≢ (objects st.object).c_ptr) × Spares i objects sts

module _ {B : Type 0} (L : UbfLib B) where
  -- After any history of the methods of TypedUbf but Bread, Bwrite, Bextread, tpubftojson and the
  -- evaluations of expressions, the objects, the number of copies that the JVM holds, of blocks
  -- and of trees are what they were, and so is each buffer that no object of the calls holds.
  pub run_ubf-Leaves :
      (steps : List UbfStep) (i : ℕ) (s : UbfState B)
      → Spares i s.world.objects steps
      → ((run_ubf L steps s).content i ≡ s.content i)
        × ((run_ubf L steps s).world.objects ≡ s.world.objects)
        × ((run_ubf L steps s).copies ≡ s.copies)
        × ((run_ubf L steps s).blocks ≡ s.blocks)
        × ((run_ubf L steps s).trees ≡ s.trees)
  unfolding run_ubf
  run_ubf-Leaves [] i s spared = (refl, refl, refl, refl, refl)
  run_ubf-Leaves (st ∷ sts) i s (other, spared) =
      let l = call-Leaves L st.answers st.object st.call s in
      let (content, objects, copies, blocks, trees) =
        run_ubf-Leaves sts i (behind_ubf L st.answers st.object st.call s)
          (rw (l.objects) spared) in
      (
        content ∙ l.elsewhere i other,
        objects ∙ l.objects,
        copies ∙ l.copies,
        blocks ∙ l.blocks,
        trees ∙ l.trees,
      )
