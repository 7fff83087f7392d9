-- ===== src/Ubf/Leaves/Buffers.antt =====
-- What the methods on arrays of field ids and on pairs of buffers leave as it was.
use endurox_java.Base.{
  ◌≡◌, refl, ap, ◌∙◌, ℕ, ◌+◌, Option, Option-cases, List, some, none, inl, inr, either, arith,
}
use endurox_java.Buffers.{beunix}
use endurox_java.Ubf.{Jint, Status, UbfLib, JvmAnswers, UbfState, take_elements}
use endurox_java.Ubf.Fields.{Block, copy_fields, read_fields}
use endurox_java.Ubf.Leaves.{
  Leaves, Leaves-refl, throw-Leaves, open-Leaves, apply-Leaves, with_buffer-Leaves,
  own_buffer-Leaves, At-same, in_context-Leaves, elements-Leaves,
}
use endurox_java.Ubf.Project.{with_fields, with_array, fields_call, bprojcpy}
use endurox_java.Ubf.Pairs.{with_buffers, pair_call, bcmp, bsubset, is_bminval, is_exfail}
use endurox_java.Ubf.Values.{}

module _ {B : Type 0} where
  with_fields-Leaves :
      (p : ℕ) (barra : Option Block) (f : List ℕ → UbfState B → UbfState B) (s : UbfState B)
      → ((ids : List ℕ) → Leaves p s (f ids s))
      → Leaves p s (with_fields barra f s)
  unfolding with_fields
  with_fields-Leaves p none f s keeps = open-Leaves p s
  with_fields-Leaves p (some barra) f s keeps = elim (Option-cases (read_fields barra)) [
    | inl short ↦ rw (with_fields, short) (open-Leaves p s)
    | inr (ids, whole) ↦ rw (with_fields, whole) (keeps ids)
  ]

  with_array-Leaves :
      (p : ℕ) (a : JvmAnswers) (jarr : List ℕ) (f : Option Block → UbfState B → UbfState B)
      (s : UbfState B)
      → ((barra : Option Block) (t : UbfState B) → t.world ≡ s.world → Leaves p t (f barra t))
      → Leaves p s (with_array a jarr f s)
  unfolding with_array take_elements
  with_array-Leaves p a jarr f s keeps =
      let held = record s { blocks = s.blocks + 1 } in
      let ran = f (copy_fields jarr) (take_elements a held) in
      let l = elements-Leaves p a held ran (keeps (copy_fields jarr) (take_elements a held) refl) in
      either (Leaves p s) a.memory
        (record {
          elsewhere = λ i ne. l.elsewhere i ne;
          objects = l.objects;
          copies = l.copies;
          blocks = let e = l.blocks in ground arith;
          trees = l.trees;
        })
        (throw-Leaves p beunix s)

  pub fields_call-Leaves :
      (function : List ℕ → B → Status × B) (a : JvmAnswers) (object : ℕ) (ids : List ℕ)
      (s : UbfState B)
      → Leaves (s.world.objects object).c_ptr s (fields_call function a object ids s)
  unfolding fields_call
  fields_call-Leaves function a object ids s =
      let p = (s.world.objects object).c_ptr in
      in_context-Leaves p a tt _ s λ t e. with_array-Leaves p a ids _ t λ barra u f.
        own_buffer-Leaves p object tt _ u (At-same s u refl (ap (λ w. w.objects) f ∙ e))
          λ v g. with_fields-Leaves p barra _ v λ chosen. apply-Leaves p _ v

  pub bprojcpy-Leaves :
      (L : UbfLib B) (a : JvmAnswers) (object src : ℕ) (ids : List ℕ) (s : UbfState B)
      → Leaves (s.world.objects object).c_ptr s (bprojcpy L a object src ids s)
  unfolding bprojcpy
  bprojcpy-Leaves L a object src ids s =
      let p = (s.world.objects object).c_ptr in
      in_context-Leaves p a tt _ s λ t e.
        own_buffer-Leaves p object tt _ t (At-same s t refl e) λ u f.
          with_buffer-Leaves p src tt _ u λ v g.
            with_array-Leaves p a ids _ v
              λ barra w h. with_fields-Leaves p barra _ w λ chosen. apply-Leaves p _ w

  with_buffers-Leaves :
      {R : Type 0} (a : JvmAnswers) (object src : ℕ) (failed unset : R)
      (function : ℕ → ℕ → UbfState B → R × UbfState B) (s : UbfState B)
      → ((from : ℕ) (t : UbfState B)
          → Leaves
              (s.world.objects object).c_ptr
              t
              (function (s.world.objects object).c_ptr from t).1)
      → Leaves
          (s.world.objects object).c_ptr
          s
          (with_buffers a object src failed unset function s).1
  unfolding with_buffers
  with_buffers-Leaves a object src failed unset function s keeps =
      let p = (s.world.objects object).c_ptr in
      in_context-Leaves p a unset _ s λ t e.
        own_buffer-Leaves p object failed _ t (At-same s t refl e)
          λ u f. with_buffer-Leaves p src failed _ u λ v g. keeps _ v

  pub pair_call-Leaves :
      (function : B → B → Status × B) (a : JvmAnswers) (object src : ℕ) (s : UbfState B)
      → Leaves (s.world.objects object).c_ptr s (pair_call function a object src s)
  unfolding pair_call
  pair_call-Leaves function a object src s =
      with_buffers-Leaves a object src tt tt _ s λ from t. apply-Leaves _ _ t

  pub bcmp-Leaves :
      (L : UbfLib B) (a : JvmAnswers) (object src : ℕ) (s : UbfState B)
      → Leaves (s.world.objects object).c_ptr s (bcmp L a object src s).1
  unfolding bcmp
  bcmp-Leaves L a object src s =
      let p = (s.world.objects object).c_ptr in
      with_buffers-Leaves a object src _ _ _ s λ from t.
        let (ret, berror) = L.bcmp (t.content p) (t.content from) in
        either {A = Jint × UbfState B} (λ r. Leaves p t r.1) (is_bminval berror) (Leaves-refl p t)
          (throw-Leaves p berror t)

  pub bsubset-Leaves :
      (L : UbfLib B) (a : JvmAnswers) (object src : ℕ) (s : UbfState B)
      → Leaves (s.world.objects object).c_ptr s (bsubset L a object src s).1
  unfolding bsubset
  bsubset-Leaves L a object src s =
      let p = (s.world.objects object).c_ptr in
      with_buffers-Leaves a object src _ _ _ s λ from t.
        let (ret, berror) = L.bsubset (t.content p) (t.content from) in
        either {A = Jint × UbfState B} (λ r. Leaves p t r.1) (is_exfail ret)
          (throw-Leaves p berror t) (Leaves-refl p t)
