-- ===== src/Ubf/Context.antt =====
-- The context of the thread behind the methods of TypedUbf.
use endurox_java.Base.{
  ◌≡◌, refl, ◌∙◌, inl, inr, Bool, true, false, Option, none, some, ℕ, Bool-cases, either,
}
use endurox_java.Buffers.{World, atmi_throw, ubf_throw, unset_ctx, get_ctx, typed_buffer_get_ctx}
use endurox_java.Ubf.{
  FieldType, Value, UbfLib, JvmAnswers, UbfState, take_elements, release_elements, in_context,
  bfld_string, bfld_carray,
}
use endurox_java.Ubf.Calls.{
  UbfCall, behind_ubf, bproj_of, bdelete_of, bprojcpy_of, bconcat_of, bcpy_of, bupdate_of, bjoin_of,
  bojoin_of, bcmp_of, bsubset_of, bdel_of, bdelall_of, badd_of, bchg_of, baddfast_of, bget_of,
  bget_object_of, bpres_of, blen_of, boccur_of, bisubf_of, bsizeof_of, bunused_of, bused_of,
  bnum_of, binit_of, bprint_of, tplogprintubf_of, bnext_of, tpjsontoubf_of,
}
use endurox_java.Ubf.Info.{
  query, ask, bpres, bisubf, blen, bnext, boccur, bsizeof, bunused, bused, bnum, binit, bprint,
  tpjsontoubf, tplogprintubf,
}
use endurox_java.Ubf.Pairs.{
  with_buffers, pair_call, bconcat, bcpy, bupdate, bjoin, bojoin, bcmp, bsubset,
}
use endurox_java.Ubf.Project.{fields_call, bproj, bdelete, bprojcpy}
use endurox_java.Ubf.Values.{
  JavaValue, change, bdel, bdelall, ubf_cbadd, ubf_cbchg, with_value, badd, bchg, ubf_baddfast,
  baddfast, ubf_cbfind, made_object, bget, bget_object, jshort, jlong, jbyte, jfloat, jdouble,
  jstring, jbyte_array,
}

without_context :
    (holder known : Bool) (w : World)
    → (typed_buffer_get_ctx holder known true w).0 ≡ false
    → (typed_buffer_get_ctx holder known true w).1.ctx_set ≡ w.ctx_set
unfolding typed_buffer_get_ctx get_ctx atmi_throw
without_context true true w e = cc
without_context true false w e = refl
without_context false known w e = refl

module _ {B : Type 0} where
  -- No context is set.
  abbrev pub Unset : UbfState B → Type 0
  Unset s = s.world.ctx_set ≡ false

  in_context-Unset :
      {R : Type 0} (a : JvmAnswers) (failed : R) (body : UbfState B → R × UbfState B)
      (s : UbfState B)
      → Unset s
      → Unset (in_context a failed body s).1
  unfolding in_context unset_ctx
  in_context-Unset a failed body s unset =
      let got = typed_buffer_get_ctx a.holder a.known true s.world in
      elim (Bool-cases got.0) [
        | inl there ↦ rw (in_context, there) refl
        | inr missing ↦
            rw (in_context, missing) (without_context a.holder a.known s.world missing ∙ unset)
      ]

  with_value-Unset :
      {R : Type 0} (a : JvmAnswers) (null : UbfState B → R × UbfState B) (value : JavaValue)
      (function : (t : FieldType) → Value t → UbfState B → R × UbfState B) (s : UbfState B)
      → Unset s
      → ((u : UbfState B) → Unset u → Unset (null u).1)
      → ((t : FieldType) (v : Value t) (u : UbfState B) → Unset u → Unset (function t v u).1)
      → Unset (with_value a null value function s).1
  unfolding with_value take_elements release_elements
  with_value-Unset a null (jshort v) function s unset empty keeps = keeps _ v s unset
  with_value-Unset a null (jlong v) function s unset empty keeps = keeps _ v s unset
  with_value-Unset a null (jbyte v) function s unset empty keeps = keeps _ v s unset
  with_value-Unset a null (jfloat v) function s unset empty keeps = keeps _ v s unset
  with_value-Unset a null (jdouble v) function s unset empty keeps = keeps _ v s unset
  with_value-Unset a null (jstring none) function s unset empty keeps = empty s unset
  with_value-Unset a null (jstring (some v)) function s unset empty keeps =
      keeps bfld_string v (take_elements a s) unset
  with_value-Unset a null (jbyte_array v) function s unset empty keeps =
      keeps bfld_carray v (take_elements a s) unset

  made_object-Unset :
      {A : Type 0} (a : JvmAnswers) (found : Option A × UbfState B)
      → Unset found.1
      → Unset (made_object a found).1
  unfolding made_object
  made_object-Unset a (none, t) unset = unset
  made_object-Unset {A} a (some value, t) unset =
      either {A = Option A × UbfState B} (λ r. Unset r.1) a.made unset unset

  -- Where the thread has no context set before a method, it has none behind it, whatever the library, the
  -- JVM and malloc answer.
  pub behind_ubf-Unset :
      (L : UbfLib B) (a : JvmAnswers) (object : ℕ) (c : UbfCall) (s : UbfState B)
      → s.world.ctx_set ≡ false
      → (behind_ubf L a object c s).world.ctx_set ≡ false
  unfolding ask badd baddfast bchg bcmp bconcat bcpy bdel bdelall bdelete bget bget_object binit
      bisubf bjoin blen bnext bnum boccur bojoin bpres bprint bproj bprojcpy bsizeof bsubset bunused
      bupdate bused change fields_call pair_call query tpjsontoubf tplogprintubf ubf_baddfast
      ubf_cbadd ubf_cbchg ubf_cbfind ubf_throw unset_ctx with_buffers
  behind_ubf-Unset L a object (bproj_of ids) s unset = in_context-Unset a _ _ s unset
  behind_ubf-Unset L a object (bdelete_of ids) s unset = in_context-Unset a _ _ s unset
  behind_ubf-Unset L a object (bprojcpy_of src ids) s unset = in_context-Unset a _ _ s unset
  behind_ubf-Unset L a object (bconcat_of src) s unset = in_context-Unset a _ _ s unset
  behind_ubf-Unset L a object (bcpy_of src) s unset = in_context-Unset a _ _ s unset
  behind_ubf-Unset L a object (bupdate_of src) s unset = in_context-Unset a _ _ s unset
  behind_ubf-Unset L a object (bjoin_of src) s unset = in_context-Unset a _ _ s unset
  behind_ubf-Unset L a object (bojoin_of src) s unset = in_context-Unset a _ _ s unset
  behind_ubf-Unset L a object (bcmp_of src) s unset = in_context-Unset a _ _ s unset
  behind_ubf-Unset L a object (bsubset_of src) s unset = in_context-Unset a _ _ s unset
  behind_ubf-Unset L a object (bdel_of bfldid occ) s unset = in_context-Unset a _ _ s unset
  behind_ubf-Unset L a object (bdelall_of bfldid) s unset = in_context-Unset a _ _ s unset
  behind_ubf-Unset L a object (badd_of bfldid value) s unset =
      with_value-Unset a _ value _ s unset (λ u e. e) λ t v u e. in_context-Unset a tt _ u e
  behind_ubf-Unset L a object (bchg_of bfldid occ value) s unset =
      with_value-Unset a _ value _ s unset (λ u e. e) λ t v u e. in_context-Unset a tt _ u e
  behind_ubf-Unset L a object (baddfast_of bfldid value loc) s unset =
      with_value-Unset a _ value _ s unset (λ u e. e) λ t v u e. in_context-Unset a loc _ u e
  behind_ubf-Unset L a object (bget_of bfldid occ t) s unset = in_context-Unset a _ _ s unset
  behind_ubf-Unset L a object (bget_object_of bfldid occ t) s unset =
      made_object-Unset a _ (in_context-Unset a none _ s unset)
  behind_ubf-Unset L a object (bpres_of bfldid occ) s unset = in_context-Unset a _ _ s unset
  behind_ubf-Unset L a object (blen_of bfldid occ) s unset = in_context-Unset a _ _ s unset
  behind_ubf-Unset L a object (boccur_of bfldid) s unset = in_context-Unset a _ _ s unset
  behind_ubf-Unset L a object bisubf_of s unset = in_context-Unset a _ _ s unset
  behind_ubf-Unset L a object bsizeof_of s unset = in_context-Unset a _ _ s unset
  behind_ubf-Unset L a object bunused_of s unset = in_context-Unset a _ _ s unset
  behind_ubf-Unset L a object bused_of s unset = in_context-Unset a _ _ s unset
  behind_ubf-Unset L a object bnum_of s unset = in_context-Unset a _ _ s unset
  behind_ubf-Unset L a object binit_of s unset = in_context-Unset a _ _ s unset
  behind_ubf-Unset L a object bprint_of s unset = in_context-Unset a _ _ s unset
  behind_ubf-Unset L a object tplogprintubf_of s unset = refl
  behind_ubf-Unset L a object (bnext_of first) s unset = in_context-Unset a _ _ s unset
  behind_ubf-Unset L a object (tpjsontoubf_of json) s unset = refl
