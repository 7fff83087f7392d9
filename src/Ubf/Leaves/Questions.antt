-- ===== src/Ubf/Leaves/Questions.antt =====
-- What the questions about a buffer, its initialisation and the conversion from JSON leave as it was.
use endurox_java.Ubf.{
  Status, UbfLib, Jint, exfail, Next, next_error, next_end, next_field, JvmAnswers, UbfState,
  on_world, take_elements,
}
use endurox_java.Ubf.Info.{
  query, ask, blen, next_result, bnext, binit, throw_failed, bprint, atmi_failed, tpjsontoubf,
  tplogprintubf,
}
use endurox_java.Ubf.Leaves.{
  Leaves, Leaves-refl, Leaves-trans, on_world-Leaves, throw-Leaves, apply-Leaves, content-Leaves,
  own_buffer-Leaves, At-same, in_context-Leaves, elements-Leaves,
}
use endurox_java.Ubf.Leaves.Values.{made_object-Leaves}
use endurox_java.Ubf.Pairs.{is_exfail}
use endurox_java.Buffers.{Code, atmi_throw, unset_ctx}
use endurox_java.Base.Bytes.{CString}
use endurox_java.Base.{false, refl, ℕ, Bool, Option, none, some, either}

module _ {B : Type 0} where
  query-Leaves :
      {R : Type 0} (a : JvmAnswers) (object : ℕ) (failed : R)
      (function : ℕ → UbfState B → R × UbfState B) (s : UbfState B)
      → ((t : UbfState B)
          → Leaves (s.world.objects object).c_ptr t (function (s.world.objects object).c_ptr t).1)
      → Leaves (s.world.objects object).c_ptr s (query a object failed function s).1
  unfolding query
  query-Leaves a object failed function s keeps =
      in_context-Leaves _ a failed _ s
        λ t e. own_buffer-Leaves _ object failed function t (At-same s t refl e) λ u f. keeps u

  pub ask-Leaves :
      {R : Type 0} (a : JvmAnswers) (object : ℕ) (failed : R) (function : B → R) (s : UbfState B)
      → Leaves (s.world.objects object).c_ptr s (ask a object failed function s).1
  unfolding ask
  ask-Leaves a object failed function s = query-Leaves a object failed _ s λ t. Leaves-refl _ t

  pub blen-Leaves :
      (L : UbfLib B) (a : JvmAnswers) (object bfldid occ : ℕ) (s : UbfState B)
      → Leaves (s.world.objects object).c_ptr s (blen L a object bfldid occ s).1
  unfolding blen
  blen-Leaves L a object bfldid occ s =
      let p = (s.world.objects object).c_ptr in
      query-Leaves a object exfail _ s λ t.
        let (ret, berror) = L.blen bfldid occ (t.content p) in
        either (Leaves p t) (is_exfail ret) (throw-Leaves p berror t) (Leaves-refl p t)

  next_result-Leaves :
      (p : ℕ) (a : JvmAnswers) (found : Next) (s t : UbfState B)
      → Leaves p s t
      → Leaves p s (next_result a found t).1
  unfolding next_result
  next_result-Leaves p a (next_error err) s t l = Leaves-trans l (throw-Leaves p err t)
  next_result-Leaves p a next_end s t l = l
  next_result-Leaves p a (next_field bfldid occ len) s t l =
      made_object-Leaves p a s (some (bfldid, occ, len), t) l

  pub bnext-Leaves :
      (L : UbfLib B) (a : JvmAnswers) (object : ℕ) (first : Bool) (s : UbfState B)
      → Leaves (s.world.objects object).c_ptr s (bnext L a object first s).1
  unfolding bnext
  bnext-Leaves L a object first s =
      query-Leaves a object none _ s λ t. next_result-Leaves _ a _ t _ (content-Leaves _ _ t)

  pub binit-Leaves :
      (L : UbfLib B) (a : JvmAnswers) (object : ℕ) (s : UbfState B)
      → Leaves (s.world.objects object).c_ptr s (binit L a object s).1
  unfolding binit
  binit-Leaves L a object s =
      let p = (s.world.objects object).c_ptr in
      query-Leaves a object exfail _ s λ t.
        let (ret, berror) = L.bsizeof (t.content p) in
        either {A = Jint × UbfState B} (λ r. Leaves p t r.1) (is_exfail ret)
          (throw-Leaves p berror t) (apply-Leaves p (L.binit ret (t.content p)) t)

  throw_failed-Leaves :
      (p : ℕ) (status : Status) (s : UbfState B) → Leaves p s (throw_failed status s)
  unfolding throw_failed
  throw_failed-Leaves p none s = Leaves-refl p s
  throw_failed-Leaves p (some err) s = throw-Leaves p err s

  pub bprint-Leaves :
      (L : UbfLib B) (a : JvmAnswers) (object : ℕ) (s : UbfState B)
      → Leaves (s.world.objects object).c_ptr s (bprint L a object s)
  unfolding bprint
  bprint-Leaves L a object s = query-Leaves a object tt _ s λ t. throw_failed-Leaves _ _ t

  atmi_failed-Leaves :
      (p object : ℕ) (failed : Option Code) (s : UbfState B)
      → Leaves p s (atmi_failed object failed s)
  unfolding atmi_failed atmi_throw
  atmi_failed-Leaves p object none s = Leaves-refl p s
  atmi_failed-Leaves p object (some err) s =
      on_world-Leaves p (atmi_throw (some object) false err) s refl

  unset-Leaves : (p : ℕ) (s : UbfState B) → Leaves p s (on_world unset_ctx s)
  unfolding unset_ctx
  unset-Leaves p s = on_world-Leaves p unset_ctx s refl

  pub tpjsontoubf-Leaves :
      (L : UbfLib B) (a : JvmAnswers) (object : ℕ) (json : CString) (s : UbfState B)
      → Leaves (s.world.objects object).c_ptr s (tpjsontoubf L a object json s)
  unfolding tpjsontoubf take_elements
  tpjsontoubf-Leaves L a object json s =
      Leaves-trans
        (elements-Leaves _ a s _ (
          query-Leaves a object tt _ (take_elements a s)
            λ t. Leaves-trans (content-Leaves _ _ t) (atmi_failed-Leaves _ object _ _)))
        (unset-Leaves _ _)

  pub tplogprintubf-Leaves :
      (a : JvmAnswers) (object : ℕ) (s : UbfState B)
      → Leaves (s.world.objects object).c_ptr s (tplogprintubf a object s)
  unfolding tplogprintubf take_elements
  tplogprintubf-Leaves a object s =
      Leaves-trans (query-Leaves a object tt _ s λ t. elements-Leaves _ a t _ (Leaves-refl _ _))
        (unset-Leaves _ _)
