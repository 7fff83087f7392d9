-- ===== src/Server/Dispatched.antt =====
-- A request that the library hands to a service in Java.
use endurox_java.Base.{
  either, ℕ, ◌≡◌, ◌≢◌, ◌⊎◌, refl, Bool, true, false, ◌&&◌, Bool-cases, inl, inr, Option,
  Option-cases, none, some, ◌==◌, set_at, set_at_self, set_at_other,
}
use endurox_java.Base.Bytes.{CString, str_eq}
use endurox_java.Buffers.{
  TypedBuffer, World, choose, out_of_memory, new_object, translate_type, translate, atmi_throw,
  unset_ctx,
}
use endurox_java.Buffers.Owned.{IsOwner, Rest}
use endurox_java.Buffers.Prepared.{OwnedWorld, Choice-cases, translate_type-Owned}
use endurox_java.Calls.{Answers}
use endurox_java.Calls.Contract.{Sole}
use endurox_java.Calls.Return.{Taker, Takes, Sole-same, tpreturn-Owned}
use endurox_java.Calls.History.{Run, run-Owned}
use endurox_java.Server.{
  is_error, ServiceCode, ServiceMap, Request, tp_call_dispatch, dispatch_call,
}

-- A service that uses the native methods as a history does, and leaves no other object that owns the
-- buffer of the request.
abbrev pub Behaves : ServiceCode → Type 0
Behaves s =
    (jdata : Option ℕ) (w : World)
    → OwnedWorld w
    → Sole w jdata
    → Run w (s jdata w) × Sole (s jdata w) jdata

-- No object owns the buffer that the library has for the request.
abbrev pub Unowned : World → ℕ → Type 0
Unowned w q = (j : ℕ) → IsOwner (w.objects j) → (w.objects j).c_ptr ≢ q

abbrev pub Ready : Option ℕ × World → Type 0
Ready (jdata, w) = OwnedWorld w × Sole w jdata

translate_type-Ready :
    (memory : Bool) (type : CString) (q len : ℕ) (w : World)
    → OwnedWorld w
    → Unowned w q
    → w.heap q ≡ some type
    → Ready (translate_type memory type q len false w)
unfolding translate_type new_object atmi_throw
translate_type-Ready memory type q len w owned away there =
    let rest : Rest w.heap w.objects none q = record {
      null = owned.null;
      live = λ j _. owned.live j;
      apart = λ j k ne _ _. owned.apart j k ne;
      away = λ j _. away j;
    } in
    let kept = translate_type-Owned memory type q len false w rest (type, there, refl) in
    (
      kept,
      elim (Choice-cases (choose type)) [
        | inl c ↦ rw (translate_type, c) tt
        | inr (inl c) ↦ rw (translate_type, c) tt
        | inr (inr (k, c)) ↦ elim (Bool-cases memory) [
          | inr fails ↦ rw (translate_type, c, fails) tt
          | inl made ↦
              rw (translate_type, c, made)
                (fresh w.objects w.next
                  (record { clazz = k; do_finalize = false; c_ptr = q; len = len }) away)
        ]
      ],
    )
  where
    fresh :
        (o : ℕ → TypedBuffer) (i : ℕ) (b : TypedBuffer)
        → ((j : ℕ) → IsOwner (o j) → (o j).c_ptr ≢ b.c_ptr)
        → (j : ℕ) → i ≢ j
        → IsOwner (set_at o i b j)
        → (set_at o i b j).c_ptr ≢ (set_at o i b i).c_ptr
    fresh o i b away j ne own =
        rw (set_at_other o i j b ne, set_at_self o i b)
          (away j (rw (set_at_other o i j b ne) at own))

module _ (a : Answers) where
  pub translate-Ready :
      (q len : ℕ) (w : World)
      → OwnedWorld w
      → Unowned w q
      → Ready (translate a.memory a.known a.failed true q len none false w)
  unfolding translate translate_type choose str_eq atmi_throw
  translate-Ready q len w owned away = elim (Bool-cases (q == 0)) [
    | inl null ↦ rw null (owned, tt)
    | inr some_ptr ↦ elim (Option-cases (w.heap q)) [
      | inl gone ↦ rw (some_ptr, gone) (owned, tt)
      | inr (t, there) ↦
          rw (some_ptr, there) (translate_type-Ready a.memory t q len w owned away there)
    ]
  ]

  module _ (take : Taker) (takes : Takes take) where
    tp_call_dispatch-Owned :
        (service : Option ServiceCode) (jdata : Option ℕ) (w : World)
        → ((s : ServiceCode) → service ≡ some s → Behaves s)
        → OwnedWorld w
        → Sole w jdata
        → OwnedWorld (tp_call_dispatch a take service jdata w)
    unfolding tp_call_dispatch
    tp_call_dispatch-Owned none jdata w behaves owned sole =
        (tpreturn-Owned a jdata w owned sole take takes).0
    tp_call_dispatch-Owned (some s) jdata w behaves owned sole =
        let (run, sole') = behaves s refl jdata w owned sole in
        let w1 = s jdata w in
        let owned1 = run-Owned w w1 owned run in
        elim (Option-cases w1.pending) [
          | inl quiet ↦ rw (tp_call_dispatch, quiet) owned1
          | inr (e, p) ↦
              rw (tp_call_dispatch, p)
                (either {A = World} OwnedWorld (is_error e) owned1
                  (tpreturn-Owned a jdata (record w1 { pending = none }) owned1
                    (Sole-same jdata w1 (record w1 { pending = none }) refl sole') take takes).0)
        ]

    -- Behind a request in a buffer that no object owned, to a service that does what a history of
    -- Calls/History does (native methods, each with no other owner of the buffer that it is given and with
    -- a library that keeps its contract) and leaves no other owner of the request's buffer, each owner
    -- still has a buffer of its own, also when an Error of the service gets no reply. If the objects for
    -- the call are made, the context is set again and no exception is pending; if not, the service is not
    -- called, no reply is given and one is pending.
    pub dispatch_call_lem :
        (m : ServiceMap) (r : Request) (w : World)
        → ((s : ServiceCode) → m r.name ≡ some s → Behaves s)
        → OwnedWorld w
        → Unowned w r.buffer
        → let w' = dispatch_call a take m r w in
          OwnedWorld w'
          × ((((r.client_made && r.info_made) ≡ true) × (w'.ctx_set ≡ true) × (w'.pending ≡ none))
              ⊎ (((r.client_made && r.info_made) ≡ false)
                  × (w'.heap
                      ≡ (translate a.memory a.known a.failed true r.buffer r.len none false
                          w).1.heap)
                  × (w'.pending ≡ some out_of_memory)))
    unfolding dispatch_call unset_ctx
    dispatch_call_lem m r w behaves owned away =
        let (jdata, w1) = translate a.memory a.known a.failed true r.buffer r.len none false w in
        let (owned1, sole1) = translate-Ready r.buffer r.len w owned away in
        elim (Bool-cases (r.client_made && r.info_made)) [
          | inr fails ↦ rw fails (owned1, inr (refl, refl, refl))
          | inl made ↦ rw made (
            tp_call_dispatch-Owned (m r.name) jdata (unset_ctx w1) behaves owned1
                (Sole-same jdata w1 (unset_ctx w1) refl sole1),
            inl (refl, refl, refl),
          )
        ]
