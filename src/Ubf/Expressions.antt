-- ===== src/Ubf/Expressions.antt =====
-- Boolean expressions: libsrc/c/TypedUbf_Bbool.c, BExprTree.c, and `Bboolco` and `BboolsetcbfC` of
-- AtmiCtx.c. Compiled trees are addresses, 0 is NULL. Bboolev and Bfloatev of the library are arguments,
-- functions of the callback that is registered for each function of Java.
pub mod Bound
use endurox_java.Buffers.{UbfCode, ubf_throw, unset_ctx, out_of_memory, is_pending}
use endurox_java.Base.{
  ◌⊎◌, inl, inr, Bool, true, false, not, ◌&&◌, Option, none, some, ℕ, ◌+◌, ◌-◌, ◌==◌, if◌then◌else◌,
}
use endurox_java.Base.Bytes.{CString}
use endurox_java.Ubf.{
  Jint, Status, JvmAnswers, UbfState, on_world, left_open, take_elements, release_elements,
  in_context, with_buffer, exfail, at,
}
use endurox_java.Ubf.Pairs.{is_bminval, is_exfail}
use endurox_java.Ubf.Values.{}

-- `EXTRUE==ret`
abbrev pub is_extrue : Jint → Bool
is_extrue exfail = false
is_extrue (at n) = n == 1

-- What the library gets for a function of Java, and its evaluation of a tree by a number.
abbrev pub Callback : Type 0 → Type 0
Callback B = CString → UbfState B → Jint × UbfState B

abbrev pub Evaluation : Type 0 → Type 0
Evaluation B = Callback B → (tree : ℕ) → B → UbfState B → (Jint × UbfCode) × UbfState B

-- Bboolco of the library.
abbrev pub Compiler : Type 0
Compiler = CString → UbfCode ⊎ ℕ

module _ {B : Type 0} where
  -- NewStringUTF for the name of the function.
  unfoldable pub named : JvmAnswers → UbfState B → UbfState B
  named a s = if a.made then s else on_world (λ w. record w { pending = some out_of_memory }) s

  -- boolcbfDispatch of an object of TypedUbf. JNI leaves open a call on NULL.
  unfoldable pub on_object : (dispatch : ℕ → Callback B) → Option ℕ → Callback B
  on_object dispatch none funcname s = (exfail, left_open s)
  on_object dispatch (some object) funcname s = dispatch object funcname s

  -- `Bbool_callback_function`. The context is put aside before Java runs, and set behind it.
  unfoldable pub bbool_callback_function : (dispatch : ℕ → Callback B) → JvmAnswers → Callback B
  bbool_callback_function dispatch a funcname s =
      let s1 = named a (on_world unset_ctx s) in
      let (ret, s2) = on_object dispatch s1.cb_ubf funcname s1 in
      if is_pending s1.world
      then (exfail, on_world (λ w. record w { ctx_set = true }) s1)
      else (ret, on_world (λ w. record w { ctx_set = true }) s2)

  -- The body that Bboolev and Bfloatev share up to their result. `berror` is what the thread has there
  -- when the expression is NULL; the exit is `out:` in any case.
  unfoldable pub evaluate :
      {R : Type 0}
      → JvmAnswers
      → (berror : UbfCode) → (object : ℕ) → (jexpr : Option ℕ) → (failed : R)
      → (ℕ → B → UbfState B → R × UbfState B)
      → UbfState B
      → R × UbfState B
  evaluate a berror object none failed call s =
      (failed, on_world unset_ctx (on_world (ubf_throw berror) s))
  evaluate a berror object (some tree) failed call s =
      let saved = record s { cb_ubf = some object } in
      let (r, s') =
        in_context a failed
          (λ s1.
            let run = with_buffer (some object) failed (λ p s2. call tree (s2.content p) s2) s1 in
            if tree == 0 then (failed, s1) else run)
          saved in
      (r, on_world unset_ctx s')

  -- `Bboolev` with what the library is given for the functions of Java.
  unfoldable pub bboolev_with :
      Evaluation B
      → Callback B
      → JvmAnswers
      → (berror : UbfCode) → (object : ℕ) → (jexpr : Option ℕ) → UbfState B
      → Bool × UbfState B
  bboolev_with eval callback a berror object jexpr =
      evaluate a berror object jexpr false (λ tree b s.
        let ((ret, err), s1) = eval callback tree b s in
        if is_exfail ret then (false, on_world (ubf_throw err) s1) else (is_extrue ret, s1))

  unfoldable pub bboolev :
      Evaluation B
      → (dispatch : ℕ → Callback B) → JvmAnswers
      → (berror : UbfCode) → (object : ℕ) → (jexpr : Option ℕ) → UbfState B
      → Bool × UbfState B
  bboolev eval dispatch a = bboolev_with eval (bbool_callback_function dispatch a) a

  -- The number is the bits of the double; `none` is -1.0, or the value next to an exception.
  unfoldable pub bfloatev :
      (Callback B → (tree : ℕ) → B → UbfState B → (ℕ × UbfCode) × UbfState B)
      → (dispatch : ℕ → Callback B) → JvmAnswers
      → (berror : UbfCode) → (object : ℕ) → (jexpr : Option ℕ) → UbfState B
      → Option ℕ × UbfState B
  bfloatev eval dispatch a berror object jexpr = evaluate a berror object jexpr none (λ tree b s.
      let ((jret, err), s1) = eval (bbool_callback_function dispatch a) tree b s in
      if is_bminval err then (some jret, s1) else (some jret, on_world (ubf_throw err) s1))

  abbrev pub compiled : UbfState B → UbfState B
  compiled s = record s { trees = s.trees + 1 }

  abbrev pub btreefree : UbfState B → UbfState B
  btreefree s = record s { trees = s.trees - 1 }

  -- `Bqboolev`
  unfoldable pub bqboolev :
      Compiler
      → Evaluation B
      → (dispatch : ℕ → Callback B) → JvmAnswers
      → (berror : UbfCode) → (object : ℕ) → (jexprstr : Option CString) → UbfState B
      → Bool × UbfState B
  bqboolev compile eval dispatch a berror object none s =
      (false, on_world unset_ctx (on_world (ubf_throw berror) s))
  bqboolev compile eval dispatch a berror object (some jexprstr) s =
      let saved = record (take_elements a s) { cb_ubf = some object } in
      let (r, s') =
        in_context a false
          (with_buffer (some object) false (λ p s2.
            elim (compile jexprstr) as (λ t. Bool × UbfState B) [
              | inl err ↦ (false, on_world (ubf_throw err) s2)
              | inr tree ↦
                  let ((ret, err), s3) =
                    eval (bbool_callback_function dispatch a) tree (s2.content p) (compiled s2) in
                  (
                    not (is_exfail ret) && is_extrue ret,
                    btreefree (if is_exfail ret then on_world (ubf_throw err) s3 else s3),
                  )
            ]))
          saved in
      (r, on_world unset_ctx (release_elements a s'))

  -- `Bboolco` of AtmiCtx; `none` is NULL.
  unfoldable pub bboolco : Compiler → JvmAnswers → CString → UbfState B → Option ℕ × UbfState B
  bboolco compile a jexpr =
      in_context (record a { holder = true }) none
        (λ s1.
          let s2 = take_elements a s1 in
          elim (compile jexpr) as (λ t. Option ℕ × UbfState B) [
            | inl err ↦ (none, release_elements a (on_world (ubf_throw err) s2))
            | inr tree ↦ if a.made then (some tree, release_elements a (compiled s2)) else (
              none,
              release_elements a (
                  btreefree
                    (on_world (λ w. record w { pending = some out_of_memory }) (compiled s2))),
            )
          ])

  -- `BboolsetcbfC`; the characters are taken in front of the context, and the return without one keeps
  -- them.
  unfoldable pub bboolsetcbf : (CString → Status) → JvmAnswers → CString → UbfState B → UbfState B
  bboolsetcbf set a funcname s =
      (in_context (record a { holder = true }) tt
        (λ s1. (
          tt,
          elim (set funcname) as (λ e. UbfState B) [
            | none ↦ release_elements a s1
            | some err ↦ release_elements a (on_world (ubf_throw err) s1)
          ],
        ))
        (take_elements a s)).1

  -- `Btreefree` of BExprTree, in a context of its own.
  unfoldable pub free_tree : UbfState B → UbfState B
  free_tree s = on_world unset_ctx (btreefree s)
