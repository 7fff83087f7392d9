-- ===== src/Calls/Return.antt =====
-- libsrc/c/AtmiCtx.c, `tpreturn` and `tpforward`: a service hands its buffer over to the library.
use endurox_java.Base.{
  ℕ, ◌≡◌, ◌≢◌, refl, true, false, not, Bool-cases, inl, inr, Option, Option-cases, none, some,
  if◌then◌else◌, set_at_self,
}
use endurox_java.Base.Bytes.{CString}
use endurox_java.Buffers.{TypedBuffer, World, atmi_throw, unset_ctx, get_ctx, get_buffer}
use endurox_java.Buffers.Owned.{Heap, Owned-given_away, Owned-kept}
use endurox_java.Buffers.Prepared.{OwnedWorld}
use endurox_java.Calls.{Answers}
use endurox_java.Calls.Contract.{Sole}

-- What the library does with the buffer that it is given: the buffers that are allocated then.
abbrev pub Taker : Type 0
Taker = (buf len : ℕ) → Heap → Heap

-- The part of both methods behind the context.
unfoldable pub hand_over : Taker → Option ℕ → World → World
unfolding get_buffer
hand_over take object w =
    let (input, w1) = get_buffer object 0 false true true w in
    if not input.ok then w1 else record w1 { heap = take input.buf input.len w1.heap }

module _ (a : Answers) where
  -- `ndrxj_Java_org_endurox_AtmiCtx_tpreturn`
  unfoldable pub tpreturn : Taker → Option ℕ → World → World
  unfolding get_ctx unset_ctx hand_over
  tpreturn take object w =
      let (got, w1) = get_ctx a.known true w in
      if not got then w1 else unset_ctx (hand_over take object w1)

  -- `ndrxj_Java_org_endurox_AtmiCtx_tpforward`; `take` depends on the name of the service.
  unfoldable pub tpforward : (CString → Taker) → CString → Option ℕ → World → World
  unfolding get_ctx unset_ctx hand_over
  tpforward take svcname object w =
      let (got, w1) = get_ctx a.known true w in
      if not got then w1 else unset_ctx (hand_over (take svcname) object w1)

-- The library frees the buffer or passes it on, and touches no other.
abbrev pub Takes : Taker → Type 0
Takes take =
    (buf len : ℕ) (h : Heap)
    → h 0 ≡ none
    → (take buf len h 0 ≡ none) × ((x : ℕ) → x ≢ buf → take buf len h x ≡ h x)

-- The object has neither a buffer nor the duty to free one.
abbrev pub Empty : (ℕ → TypedBuffer) → Option ℕ → Type 0
Empty o none = Unit
Empty o (some i) = ((o i).c_ptr ≡ 0) × ((o i).do_finalize ≡ false)

pub Sole-same :
    (object : Option ℕ) (w w' : World) → w'.objects ≡ w.objects → Sole w object → Sole w' object
Sole-same none w w' same sole = tt
Sole-same (some i) w w' same sole = rw same sole

pub hand_over-Owned :
    (take : Taker) (object : Option ℕ) (w : World)
    → Takes take
    → OwnedWorld w
    → Sole w object
    → OwnedWorld (hand_over take object w) × Empty (hand_over take object w).objects object
unfolding hand_over get_buffer
hand_over-Owned take none w takes owned sole =
    let (null, kept) = takes 0 0 w.heap owned.null in
    (Owned-kept w.heap (take 0 0 w.heap) w.objects owned null kept, tt)
hand_over-Owned take (some i) w takes owned sole =
    let b = w.objects i in
    let b' : TypedBuffer = record b { c_ptr = 0; do_finalize = false } in
    let (null, kept) = takes b.c_ptr b.len w.heap owned.null in
    let empty = set_at_self w.objects i b' in
    elim (Option-cases w.pending) [
      | inr (e, p) ↦
          rw (hand_over, get_buffer, p)
            (
              Owned-given_away w.heap w.heap w.objects i b' owned sole owned.null (λ x _. refl)
                  refl,
              rw empty (refl, refl),
            )
      | inl quiet ↦
          rw (hand_over, get_buffer, quiet)
            (
              Owned-given_away w.heap (take b.c_ptr b.len w.heap) w.objects i b' owned sole null
                  kept refl,
              rw empty (refl, refl),
            )
    ]

module _ (a : Answers) (object : Option ℕ) (w : World) (owned : OwnedWorld w)
    (sole : Sole w object) where
  with_ctx :
      (take : Taker)
      → Takes take
      → let w' = hand_over take object (record w { ctx_set = true }) in
        OwnedWorld w' × Empty w'.objects object
  with_ctx take takes =
      hand_over-Owned take object (record w { ctx_set = true }) takes owned
        (Sole-same object w (record w { ctx_set = true }) refl sole)

  -- A buffer that is returned leaves its object, which does not free it any more, and every other
  -- owner keeps its own, whatever the library does with the buffer, if no other object owned it.
  pub tpreturn-Owned :
      (take : Taker)
      → Takes take
      → OwnedWorld (tpreturn a take object w)
        × (a.known ≡ true → Empty (tpreturn a take object w).objects object)
  unfolding tpreturn get_ctx unset_ctx atmi_throw
  tpreturn-Owned take takes = elim (Bool-cases a.known) [
    | inr unknown ↦ rw (tpreturn, unknown) (owned, λ e. cc e)
    | inl known ↦ let (kept, empty) = with_ctx take takes in rw (tpreturn, known) (kept, λ e. empty)
  ]

  -- The same for a buffer that is forwarded.
  pub tpforward-Owned :
      (take : CString → Taker) (svcname : CString)
      → Takes (take svcname)
      → OwnedWorld (tpforward a take svcname object w)
        × (a.known ≡ true → Empty (tpforward a take svcname object w).objects object)
  unfolding tpforward get_ctx unset_ctx atmi_throw
  tpforward-Owned take svcname takes = elim (Bool-cases a.known) [
    | inr unknown ↦ rw (tpforward, unknown) (owned, λ e. cc e)
    | inl known ↦
        let (kept, empty) = with_ctx (take svcname) takes in
        rw (tpforward, known) (kept, λ e. empty)
  ]
