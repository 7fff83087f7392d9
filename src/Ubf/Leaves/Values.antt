-- ===== src/Ubf/Leaves/Values.antt =====
-- What the methods on single fields leave as it was.
use endurox_java.Buffers.{UbfCode, beinval, is_pending}
use endurox_java.Base.{◌==◌, not, ◌≡◌, refl, ℕ, Option, some, none, ◌⊎◌, inl, inr, either}
use endurox_java.Ubf.{
  Status, UbfLib, FieldType, bfld_string, bfld_carray, Value, Location, JvmAnswers, UbfState,
  take_elements,
}
use endurox_java.Ubf.Fields.{}
use endurox_java.Ubf.Leaves.{
  Leaves, Leaves-refl, Leaves-trans, throw-Leaves, open-Leaves, jvm-Leaves, apply-Leaves,
  own_buffer-Leaves, At-same, in_context-Leaves, elements-Leaves, content-Leaves,
}
use endurox_java.Ubf.Project.{}
use endurox_java.Ubf.Pairs.{}
use endurox_java.Ubf.Values.{
  field_code, found_value, added_fast, made_object, JavaValue, jshort, jlong, jbyte, jfloat,
  jdouble, jstring, jbyte_array, change, with_value, ubf_cbadd, ubf_cbchg, badd, bchg, ubf_cbfind,
  bget_object, ubf_baddfast, baddfast,
}

module _ {B : Type 0} where
  pub change-Leaves :
      (function : B → Status × B) (a : JvmAnswers) (object : ℕ) (s : UbfState B)
      → Leaves (s.world.objects object).c_ptr s (change function a object s)
  unfolding change
  change-Leaves function a object s =
      let p = (s.world.objects object).c_ptr in
      in_context-Leaves p a tt _ s
        λ t e. own_buffer-Leaves p object tt _ t (At-same s t refl e) λ u f. apply-Leaves p _ u

  with_value-Leaves :
      {R : Type 0} (p : ℕ) (a : JvmAnswers) (null : UbfState B → R × UbfState B) (value : JavaValue)
      (function : (t : FieldType) → Value t → UbfState B → R × UbfState B) (s : UbfState B)
      → Leaves p s (null s).1
      → ((t : FieldType) (v : Value t) (u : UbfState B)
          → u.world ≡ s.world
          → Leaves p u (function t v u).1)
      → Leaves p s (with_value a null value function s).1
  unfolding with_value take_elements
  with_value-Leaves p a null (jshort v) function s empty keeps = keeps _ v s refl
  with_value-Leaves p a null (jlong v) function s empty keeps = keeps _ v s refl
  with_value-Leaves p a null (jbyte v) function s empty keeps = keeps _ v s refl
  with_value-Leaves p a null (jfloat v) function s empty keeps = keeps _ v s refl
  with_value-Leaves p a null (jdouble v) function s empty keeps = keeps _ v s refl
  with_value-Leaves p a null (jstring none) function s empty keeps = empty
  with_value-Leaves p a null (jstring (some v)) function s empty keeps =
      elements-Leaves p a s _ (keeps bfld_string v (take_elements a s) refl)
  with_value-Leaves p a null (jbyte_array v) function s empty keeps =
      elements-Leaves p a s _ (keeps bfld_carray v (take_elements a s) refl)

  -- What `change` does behind the elements of a value, which leave the objects alone.
  behind_elements :
      (function : B → Status × B) (a : JvmAnswers) (object : ℕ) (s u : UbfState B)
      → u.world ≡ s.world
      → Leaves (s.world.objects object).c_ptr u (change function a object u)
  behind_elements function a object s u e = rw (← e) (change-Leaves function a object u)

  pub badd-Leaves :
      (L : UbfLib B) (a : JvmAnswers) (object bfldid : ℕ) (value : JavaValue) (s : UbfState B)
      → Leaves (s.world.objects object).c_ptr s (badd L a object bfldid value s)
  unfolding badd ubf_cbadd
  badd-Leaves L a object bfldid value s =
      with_value-Leaves _ a _ value _ s (throw-Leaves _ beinval s)
        λ t v u e. behind_elements (L.cbadd bfldid t v) a object s u e

  pub bchg-Leaves :
      (L : UbfLib B) (a : JvmAnswers) (object bfldid occ : ℕ) (value : JavaValue) (s : UbfState B)
      → Leaves (s.world.objects object).c_ptr s (bchg L a object bfldid occ value s)
  unfolding bchg ubf_cbchg
  bchg-Leaves L a object bfldid occ value s =
      with_value-Leaves _ a _ value _ s (throw-Leaves _ beinval s)
        λ t v u e. behind_elements (L.cbchg bfldid occ t v) a object s u e

  found_value-Leaves :
      {A : Type 0} (p : ℕ) (found : UbfCode ⊎ A) (s : UbfState B)
      → Leaves p s (found_value found s).1
  unfolding found_value
  found_value-Leaves p (inl err) s = throw-Leaves p err s
  found_value-Leaves p (inr value) s = Leaves-refl p s

  pub bget-Leaves :
      (L : UbfLib B) (a : JvmAnswers) (object bfldid occ : ℕ) (t : FieldType) (s : UbfState B)
      → Leaves (s.world.objects object).c_ptr s (ubf_cbfind L a object bfldid occ t s).1
  unfolding ubf_cbfind
  bget-Leaves L a object bfldid occ t s =
      let p = (s.world.objects object).c_ptr in
      in_context-Leaves p a none _ s λ u e.
        own_buffer-Leaves p object none _ u (At-same s u refl e) λ v f. found_value-Leaves p _ v

  pub made_object-Leaves :
      {A : Type 0} (p : ℕ) (a : JvmAnswers) (s : UbfState B) (found : Option A × UbfState B)
      → Leaves p s found.1
      → Leaves p s (made_object a found).1
  unfolding made_object
  made_object-Leaves p a s (none, t) l = l
  made_object-Leaves {A} p a s (some value, t) l =
      either {A = Option A × UbfState B} (λ r. Leaves p s r.1) a.made l
        (Leaves-trans l (jvm-Leaves p t))

  pub bget_object-Leaves :
      (L : UbfLib B) (a : JvmAnswers) (object bfldid occ : ℕ) (t : FieldType) (s : UbfState B)
      → Leaves (s.world.objects object).c_ptr s (bget_object L a object bfldid occ t s).1
  unfolding bget_object
  bget_object-Leaves L a object bfldid occ t s =
      made_object-Leaves _ a s (ubf_cbfind L a object bfldid occ t s)
        (bget-Leaves L a object bfldid occ t s)

  added_fast-Leaves :
      (p : ℕ) (loc : Location) (result : Status × Location × B) (s : UbfState B)
      → Leaves p s (added_fast p loc result s).1
  unfolding added_fast
  added_fast-Leaves p loc (none, loc', b) s = content-Leaves p b s
  added_fast-Leaves p loc (some err, loc', b) s =
      Leaves-trans (content-Leaves p b s) (throw-Leaves p err _)

  ubf_baddfast-Leaves :
      (L : UbfLib B) (a : JvmAnswers) (object bfldid : ℕ) (loc : Location) (t : FieldType)
      (v : Value t) (s : UbfState B)
      → Leaves (s.world.objects object).c_ptr s (ubf_baddfast L a object bfldid loc t v s).1
  unfolding ubf_baddfast
  ubf_baddfast-Leaves L a object bfldid loc t v s =
      let p = (s.world.objects object).c_ptr in
      in_context-Leaves p a loc _ s λ u e.
        let kept : Location × UbfState B → Type 0 = λ r. Leaves p u r.1 in
        either kept (not (field_code (L.bfldtype bfldid) == field_code t))
          (throw-Leaves p beinval u)
          (either kept (is_pending u.world) (Leaves-refl p u) (
            own_buffer-Leaves p object loc _ u (At-same s u refl e)
              λ w f. added_fast-Leaves p loc (L.baddfast bfldid t v loc (w.content p)) w))

  pub baddfast-Leaves :
      (L : UbfLib B) (a : JvmAnswers) (object bfldid : ℕ) (value : JavaValue) (loc : Location)
      (s : UbfState B)
      → Leaves (s.world.objects object).c_ptr s (baddfast L a object bfldid value loc s).1
  unfolding baddfast
  baddfast-Leaves L a object bfldid value loc s =
      with_value-Leaves _ a _ value _ s (open-Leaves _ s)
        λ t v u e. rw (← e) (ubf_baddfast-Leaves L a object bfldid loc t v u)
