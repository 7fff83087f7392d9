-- ===== src/Ubf/Project/Listed.antt =====
-- `Bproj` and `Bdelete` against calls of the library with the ids of Java themselves.
use endurox_java.Base.{
  if◌then◌else◌, ℕ, ◌≡◌, refl, ap, ◌∙◌, ◌+◌, Bool-cases, inl, inr, true, false, some, none, List,
  set_at, Option,
}
use endurox_java.Buffers.{ubf_throw, typed_buffer_get_ctx, get_buffer, unset_ctx}
use endurox_java.Ubf.{
  Status, JvmAnswers, UbfState, in_context, with_buffer, apply, take_elements, release_elements,
}
use endurox_java.Ubf.Fields.{copy_fields, Block, listed, copy_fields_lem}
use endurox_java.Ubf.Project.{fields_call, with_array, with_fields}
use endurox_java.Ubf.Values.{change}

module _ {B : Type 0} where
  -- The same buffers, and the same world.
  abbrev pub Alike : UbfState B → UbfState B → Type 0
  Alike s t = (s.world ≡ t.world) × (s.content ≡ t.content)

  apply-Alike :
      (p : ℕ) (r : Status × B) (s t : UbfState B)
      → s.world ≡ t.world
      → s.content ≡ t.content
      → Alike (apply p r s) (apply p r t)
  unfolding apply
  apply-Alike p (none, b) s t w c = (w, ap (λ f. set_at f p b) c)
  apply-Alike p (some err, b) s t w c = (ap (ubf_throw err) w, ap (λ f. set_at f p b) c)

  with_array_lem :
      (a : JvmAnswers) (jarr : List ℕ) (f : Option Block → UbfState B → UbfState B) (s : UbfState B)
      → a.memory ≡ true
      → Alike
          (with_array a jarr f s)
          (f (copy_fields jarr) (take_elements a (record s { blocks = s.blocks + 1 })))
  unfolding with_array release_elements
  with_array_lem a jarr f s memory = rw memory (refl, refl)

  with_fields_lem :
      (ids : List ℕ) (f : List ℕ → UbfState B → UbfState B) (s : UbfState B)
      → with_fields (copy_fields ids) f s ≡ f (listed ids) s
  unfolding with_fields
  with_fields_lem ids f s =
      let (barra, whole, size, read) = copy_fields_lem ids in rw (whole, with_fields, read) refl

  with_buffer-Alike :
      (function : List ℕ → B → Status × B) (object : ℕ) (ids : List ℕ) (copies blocks : ℕ)
      (t : UbfState B)
      → Alike
          (with_buffer
            (some object)
            tt
            (λ p u. (
              tt,
              with_fields
                  (copy_fields ids)
                  (λ chosen v. apply p (function chosen (v.content p)) v)
                  u,
            ))
            (record t { copies = copies; blocks = blocks })).1
          (with_buffer
            (some object)
            tt
            (λ p u. (tt, apply p (function (listed ids) (u.content p)) u))
            t).1
  unfolding with_buffer
  with_buffer-Alike function object ids copies blocks t =
      elim (Bool-cases (get_buffer (some object) 0 false false false t.world).0.ok) [
        | inl quiet ↦ rw (with_buffer, quiet, with_fields_lem) (apply-Alike _ _ _ _ refl refl)
        | inr pending ↦ rw (with_buffer, pending) (refl, refl)
      ]

  in_context-Alike :
      {R : Type 0} (a : JvmAnswers) (failed : R) (body other : UbfState B → R × UbfState B)
      (s : UbfState B)
      → ((t : UbfState B) → Alike (body t).1 (other t).1)
      → Alike (in_context a failed body s).1 (in_context a failed other s).1
  unfolding in_context unset_ctx
  in_context-Alike a failed body other s same =
      let got = typed_buffer_get_ctx a.holder a.known true s.world in
      let (w, c) = same (record s { world = got.1 }) in
      elim (Bool-cases got.0) [
        | inl set ↦ rw (in_context, set) (ap unset_ctx w, c)
        | inr unset ↦ rw (in_context, unset) (refl, refl)
      ]

  -- When malloc gives the block, the method does what a call of the library with the ids of the array
  -- does, up to the first that is BBADFLDID: to the buffers, to what is pending, and to the context.
  pub fields_call_lem :
      (function : List ℕ → B → Status × B) (a : JvmAnswers) (object : ℕ) (ids : List ℕ)
      (s : UbfState B)
      → a.memory ≡ true
      → Alike (fields_call function a object ids s) (change (function (listed ids)) a object s)
  unfolding fields_call change take_elements
  fields_call_lem function a object ids s memory = in_context-Alike a tt _ _ s λ t.
      let (w, c) = with_array_lem a ids _ t memory in
      let (w', c') =
        with_buffer-Alike function object ids (if a.copy then t.copies + 1 else t.copies)
          (t.blocks + 1) t in
      (w ∙ w', c ∙ c')
