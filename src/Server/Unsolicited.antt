-- ===== src/Server/Unsolicited.antt =====
-- libsrc/c/AtmiCtx_unsol.c, `ndrx_unsol_dispatcher`, with unsolDispatch of java/org/endurox/AtmiCtx.java:
-- an unsolicited message that the library hands to a callback in Java.
use endurox_java.Base.{
  ℕ, ◌≡◌, ◌∙◌, refl, Bool, true, false, not, ◌&&◌, Bool-cases, inl, inr, Option, Option-cases, none,
  some, ◌==◌,
}
use endurox_java.Base.Bytes.{CString, codes}
use endurox_java.Buffers.{World, choose, translate, translate_type, new_object, atmi_throw}
use endurox_java.Buffers.Prepared.{OwnedWorld, Choice-cases}
use endurox_java.Calls.{Answers}
use endurox_java.Calls.Contract.{Sole}
use endurox_java.Calls.Return.{Sole-same}
use endurox_java.Calls.History.{run-Owned}
use endurox_java.Server.{ServiceCode}
use endurox_java.Server.Dispatched.{Behaves, Unowned, translate-Ready}

-- `unsolDispatch` of Java.
abbrev pub unsol_dispatch : Option ServiceCode → ServiceCode
unsol_dispatch none jdata w = w
unsol_dispatch (some callback) jdata w = callback jdata w

module _ (a : Answers) where
  -- `ndrx_unsol_dispatcher`; `detached` says whether tpgetctxt takes the context off the thread.
  unfoldable pub unsol_dispatcher :
      (detached : Bool) → Option ServiceCode → (address len : ℕ) → World → World
  unfolding translate
  unsol_dispatcher detached callback address len w =
      let (jdata, w1) = translate a.memory a.known a.failed true address len none false w in
      let w2 = unsol_dispatch callback jdata (record w1 { ctx_set = not detached && w1.ctx_set }) in
      elim w1.pending as (λ p. World) [
        | some e ↦ record w1 { pending = none }
        | none ↦ record w2 { pending = none; ctx_set = true }
      ]

  translate_type_ctx :
      (type : CString) (q len : ℕ) (w : World)
      → (translate_type a.memory type q len false w).1.ctx_set ≡ w.ctx_set
  unfolding translate_type new_object atmi_throw
  translate_type_ctx type q len w = elim (Choice-cases (choose type)) [
    | inl c ↦ rw (translate_type, c) refl
    | inr (inl c) ↦ rw (translate_type, c) refl
    | inr (inr (k, c)) ↦ elim (Bool-cases a.memory) [
      | inl made ↦ rw (translate_type, c, made) refl
      | inr fails ↦ rw (translate_type, c, fails) refl
    ]
  ]

  translate_ctx :
      (q len : ℕ) (w : World)
      → (translate a.memory a.known a.failed true q len none false w).1.ctx_set ≡ w.ctx_set
  unfolding translate atmi_throw
  translate_ctx q len w = elim (Bool-cases (q == 0)) [
    | inl null ↦ rw (translate, null) (translate_type_ctx (codes "NULL") q len w)
    | inr some_ptr ↦ elim (Option-cases (w.heap q)) [
      | inl gone ↦ rw (translate, some_ptr, gone) refl
      | inr (t, there) ↦ rw (translate, some_ptr, there) (translate_type_ctx t q len w)
    ]
  ]

  Behaves-Owned :
      (callback : Option ServiceCode) (jdata : Option ℕ) (w : World)
      → ((s : ServiceCode) → callback ≡ some s → Behaves s)
      → OwnedWorld w
      → Sole w jdata
      → OwnedWorld (unsol_dispatch callback jdata w)
  Behaves-Owned none jdata w behaves owned sole = owned
  Behaves-Owned (some s) jdata w behaves owned sole =
      run-Owned w (s jdata w) owned (behaves s refl jdata w owned sole).0

  -- Behind an unsolicited message in a buffer that no object owns, with a context set, when the callback
  -- does what a history of Calls/History does (native methods, each with no other owner of the buffer
  -- that it is given and with a library that keeps its contract) and leaves no other owner of that
  -- buffer, no exception is pending, the context is set as it was, and each owner still has a buffer of
  -- its own.
  pub unsol_dispatcher_lem :
      (detached : Bool) (callback : Option ServiceCode) (address len : ℕ) (w : World)
      → ((s : ServiceCode) → callback ≡ some s → Behaves s)
      → OwnedWorld w
      → Unowned w address
      → w.ctx_set ≡ true
      → let w' = unsol_dispatcher detached callback address len w in
        OwnedWorld w' × (w'.pending ≡ none) × (w'.ctx_set ≡ true)
  unfolding unsol_dispatcher
  unsol_dispatcher_lem detached callback address len w behaves owned away set =
      let (jdata, w1) = translate a.memory a.known a.failed true address len none false w in
      let (owned1, sole1) = translate-Ready a address len w owned away in
      let w1' : World = record w1 { ctx_set = not detached && w1.ctx_set } in
      elim (Option-cases w1.pending) [
        | inr (e, p) ↦ rw (unsol_dispatcher, p) (owned1, refl, translate_ctx address len w ∙ set)
        | inl quiet ↦
            rw (unsol_dispatcher, quiet)
              (
                Behaves-Owned callback jdata w1' behaves owned1 (Sole-same jdata w1 w1' refl sole1),
                refl,
                refl,
              )
      ]
