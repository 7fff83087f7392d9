-- ===== src/Ubf/Project.antt =====
-- `Bproj` and `Bprojcpy` (libsrc/c/TypedUbf_Proj.c) and `Bdelete` (libsrc/c/TypedUbf_Del.c), which take
-- an array of field ids.
pub mod Listed
use endurox_java.Base.{ℕ, ◌+◌, ◌-◌, true, Option, none, some, List, if◌then◌else◌}
use endurox_java.Buffers.{beunix, ubf_throw}
use endurox_java.Ubf.Fields.{Block, copy_fields, read_fields}
use endurox_java.Ubf.{
  Status, UbfLib, JvmAnswers, UbfState, on_world, left_open, take_elements, release_elements,
  in_context, with_buffer, apply,
}

module _ {B : Type 0} where
  -- A call of the library with the ids of a block. C leaves it open what a cell holds that was never
  -- written, and what an access outside does.
  unfoldable pub with_fields :
      Option Block → (List ℕ → UbfState B → UbfState B) → UbfState B → UbfState B
  with_fields none call s = left_open s
  with_fields (some barra) call s = elim (read_fields barra) as (λ ids. UbfState B) [
    | none ↦ left_open s
    | some ids ↦ call ids s
  ]

  -- From the malloc of `barra` to its free.
  unfoldable pub with_array :
      JvmAnswers → List ℕ → (Option Block → UbfState B → UbfState B) → UbfState B → UbfState B
  with_array a jarr call s =
      let s1 = take_elements a (record s { blocks = s.blocks + 1 }) in
      let s2 = release_elements a (call (copy_fields jarr) s1) in
      if a.memory then record s2 { blocks = s2.blocks - 1 } else on_world (ubf_throw beunix) s

  -- The body of Bproj, which Bdelete repeats.
  unfoldable pub fields_call :
      (List ℕ → B → Status × B) → JvmAnswers → (object : ℕ) → List ℕ → UbfState B → UbfState B
  fields_call function a object bfldida s =
      (in_context a tt
        (λ s1. (
          tt,
          with_array a bfldida
              (λ barra s2.
                (with_buffer (some object) tt
                  (λ p s3.
                    (tt, with_fields barra (λ ids s4. apply p (function ids (s4.content p)) s4) s3))
                  s2).1)
              s1,
        ))
        s).1

  unfoldable pub bproj : UbfLib B → JvmAnswers → (object : ℕ) → List ℕ → UbfState B → UbfState B
  bproj L = fields_call L.bproj

  unfoldable pub bdelete : UbfLib B → JvmAnswers → (object : ℕ) → List ℕ → UbfState B → UbfState B
  bdelete L = fields_call L.bdelete

  -- Both buffers are read before the array.
  unfoldable pub bprojcpy :
      UbfLib B → JvmAnswers → (object src : ℕ) → List ℕ → UbfState B → UbfState B
  bprojcpy L a object src bfldida s =
      (in_context a tt
        (λ s1.
          with_buffer (some object) tt
            (λ dst s2.
              with_buffer (some src) tt
                (λ from s3. (
                  tt,
                  with_array a bfldida
                      (λ barra s4.
                        with_fields barra
                          (λ ids s5.
                            apply dst (L.bprojcpy ids (s5.content dst) (s5.content from)) s5)
                          s4)
                      s3,
                ))
                s2)
            s1)
        s).1
