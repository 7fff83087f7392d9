-- ===== src/Ubf/Values/Returned.antt =====
-- A value that Badd adds and Bget returns.
use endurox_java.Base.{
  true, sym, ◌∙◌, ap, Option-cases, ℕ, ◌≡◌, refl, some, none, inl, inr, set_at_self,
}
use endurox_java.Buffers.{Exception, ubf_throw, unset_ctx}
use endurox_java.Ubf.{
  release_elements, take_elements, on_world, Status, UbfLib, FieldType, Value, at, bfld_short,
  bfld_long, bfld_char, bfld_float, bfld_double, bfld_string, bfld_carray, JvmAnswers, UbfState,
  apply,
}
use endurox_java.Ubf.Runs.{
  reachable, address, set_ctx, in_context_runs, with_buffer_runs, with_buffer_fails,
}
use endurox_java.Ubf.Values.{
  made_object, ubf_cbadd, with_value, bget_object, found_value, badd, ubf_cbfind, bget, JavaValue,
  jshort, jlong, jbyte, jfloat, jdouble, jstring, jbyte_array, change,
}

-- The value of Java that becomes `v`.
abbrev pub java_value : (t : FieldType) → Value t → JavaValue
java_value bfld_short v = jshort v
java_value bfld_long v = jlong v
java_value bfld_char v = jbyte v
java_value bfld_float v = jfloat v
java_value bfld_double v = jdouble v
java_value bfld_string v = jstring (some v)
java_value bfld_carray v = jbyte_array v

-- CBadd adds an occurrence behind those that are there, and CBfind finds the values of its type as
-- they were added.
pub record KeepsValues {B : Type 0} (L : UbfLib B) : Type 0 where
  pub found :
      (bfldid n : ℕ) (t : FieldType) (v : Value t) (b b' : B)
      → L.bfldtype bfldid ≡ t
      → L.boccur bfldid b ≡ at n
      → L.cbadd bfldid t v b ≡ (none, b')
      → L.cbfind bfldid n t b' ≡ inr v

module _ {B : Type 0} where
  pub change_runs :
      (function : B → Status × B) (a : JvmAnswers) (object : ℕ) (s : UbfState B)
      → s.world.pending ≡ none
      → change function (reachable a) object s
        ≡ on_world unset_ctx
            (apply (address object s) (function (s.content (address object s))) (set_ctx s))
  unfolding change
  change_runs function a object s quiet =
      ap (λ r. r.1) (in_context_runs a tt _ s)
      ∙ ap (λ r. on_world unset_ctx r.1) (with_buffer_runs object tt _ (set_ctx s) quiet)

  change_fails :
      (function : B → Status × B) (a : JvmAnswers) (object : ℕ) (s : UbfState B) {e : Exception}
      → s.world.pending ≡ some e
      → change function (reachable a) object s ≡ on_world unset_ctx (set_ctx s)
  unfolding change
  change_fails function a object s pending =
      ap (λ r. r.1) (in_context_runs a tt _ s)
      ∙ ap (λ r. on_world unset_ctx r.1) (with_buffer_fails object tt _ (set_ctx s) pending)

  applied :
      (p : ℕ) (result : Status × B) (s : UbfState B)
      → (apply p result s).world.pending ≡ none
      → (b : B) × (result ≡ (none, b))
        × ((apply p result s).content p ≡ b)
        × ((apply p result s).world.objects ≡ s.world.objects)
  unfolding apply ubf_throw
  applied p (none, b) s quiet = (b, refl, set_at_self s.content p b, refl)
  applied p (some err, b) s quiet = cc

  -- What a change that leaves no exception has done.
  pub change_done :
      (function : B → Status × B) (a : JvmAnswers) (object : ℕ) (s : UbfState B)
      → (change function (reachable a) object s).world.pending ≡ none
      → (b : B) × (function (s.content (address object s)) ≡ (none, b))
        × ((change function (reachable a) object s).content (address object s) ≡ b)
        × ((change function (reachable a) object s).world.objects ≡ s.world.objects)
  unfolding unset_ctx
  change_done function a object s quiet = elim (Option-cases s.world.pending) [
    | inl before ↦
        let runs = change_runs function a object s before in
        let (b, did, there, same) =
          applied (address object s) (function (s.content (address object s))) (set_ctx s)
            (ap (λ t. t.world.pending) (sym runs) ∙ quiet) in
        (
          b,
          did,
          ap (λ t. t.content (address object s)) runs ∙ there,
          ap (λ t. t.world.objects) runs ∙ same,
        )
    | inr (e, before) ↦
        let kept = ap (λ t. t.world.pending) (change_fails function a object s before) in
        let none' : none ≡ some e = sym quiet ∙ kept ∙ before in cc
  ]

  -- What Badd has done when it leaves no exception.
  badd_done :
      (L : UbfLib B) (a : JvmAnswers) (object bfldid : ℕ) (t : FieldType) (v : Value t)
      (s : UbfState B)
      → (badd L (reachable a) object bfldid (java_value t v) s).world.pending ≡ none
      → (b : B) × (L.cbadd bfldid t v (s.content (address object s)) ≡ (none, b))
        × ((badd L (reachable a) object bfldid (java_value t v) s).content (address object s) ≡ b)
        × ((badd L (reachable a) object bfldid (java_value t v) s).world.objects ≡ s.world.objects)
  unfolding badd with_value ubf_cbadd take_elements release_elements
  badd_done L a object bfldid bfld_short v s quiet =
      change_done (L.cbadd bfldid bfld_short v) a object s quiet
  badd_done L a object bfldid bfld_long v s quiet =
      change_done (L.cbadd bfldid bfld_long v) a object s quiet
  badd_done L a object bfldid bfld_char v s quiet =
      change_done (L.cbadd bfldid bfld_char v) a object s quiet
  badd_done L a object bfldid bfld_float v s quiet =
      change_done (L.cbadd bfldid bfld_float v) a object s quiet
  badd_done L a object bfldid bfld_double v s quiet =
      change_done (L.cbadd bfldid bfld_double v) a object s quiet
  badd_done L a object bfldid bfld_string v s quiet =
      change_done (L.cbadd bfldid bfld_string v) a object (take_elements (reachable a) s) quiet
  badd_done L a object bfldid bfld_carray v s quiet =
      change_done (L.cbadd bfldid bfld_carray v) a object (take_elements (reachable a) s) quiet

  bget_found :
      (L : UbfLib B) (a : JvmAnswers) (object bfldid n : ℕ) (t : FieldType) (v : Value t)
      (s : UbfState B)
      → s.world.pending ≡ none
      → L.cbfind bfldid n t (s.content (address object s)) ≡ inr v
      → ubf_cbfind L (reachable a) object bfldid n t s ≡ (some v, on_world unset_ctx (set_ctx s))
  unfolding ubf_cbfind found_value
  bget_found L a object bfldid n t v s quiet there =
      in_context_runs a none _ s
      ∙ ap (λ r. (r.0, on_world unset_ctx r.1)) (with_buffer_runs object none _ (set_ctx s) quiet)
      ∙ ap (λ f. ((found_value f (set_ctx s)).0, on_world unset_ctx (found_value f (set_ctx s)).1))
          there

  -- With a library that finds what was added: when Badd leaves no exception, Bget of the occurrence that
  -- it added returns the value of Java that was given, for each type of field, as a number or as the
  -- object that the JVM makes.
  pub badd-bget :
      (L : UbfLib B) (keeps : KeepsValues L) (a a' : JvmAnswers) (object bfldid n : ℕ)
      (t : FieldType) (v : Value t) (s : UbfState B)
      → L.bfldtype bfldid ≡ t
      → L.boccur bfldid (s.content (address object s)) ≡ at n
      → (badd L (reachable a) object bfldid (java_value t v) s).world.pending ≡ none
      → ((bget L
            (reachable a')
            object
            bfldid
            n
            t
            (badd L (reachable a) object bfldid (java_value t v) s)).0
          ≡ some v)
        × ((bget_object L
              (record (reachable a') { made = true })
              object
              bfldid
              n
              t
              (badd L (reachable a) object bfldid (java_value t v) s)).0
            ≡ some v)
  unfolding bget bget_object made_object
  badd-bget L keeps a a' object bfldid n t v s type occurs quiet =
      let (b, did, there, same) = badd_done L a object bfldid t v s quiet in
      let after = badd L (reachable a) object bfldid (java_value t v) s in
      let held : after.content (address object after) ≡ b =
        ap (λ o. after.content (o object).c_ptr) same ∙ there in
      let found : L.cbfind bfldid n t (after.content (address object after)) ≡ inr v =
        ap (L.cbfind bfldid n t) held ∙ keeps.found bfldid n t v _ b type occurs did in
      (
        ap (λ r. r.0) (bget_found L a' object bfldid n t v after quiet found),
        ap (λ r. (made_object (record (reachable a') { made = true }) r).0)
            (bget_found L (record a' { made = true }) object bfldid n t v after quiet found),
      )
