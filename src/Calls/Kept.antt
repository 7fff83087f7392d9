-- ===== src/Calls/Kept.antt =====
-- The calls keep each buffer with one owner, whatever the service answers within its contract.
use endurox_java.Base.{
  ℕ, ◌≡◌, ◌≢◌, refl, sym, ◌∙◌, true, false, Bool-cases, Option, Option-cases, none, some, inl, inr,
  ◌==◌, arith, set_at_same, [],
}
use endurox_java.Base.Bytes.{CString, codes}
use endurox_java.Buffers.{World, atmi_throw, unset_ctx, get_ctx, get_buffer}
use endurox_java.Buffers.Owned.{Rest}
use endurox_java.Buffers.Prepared.{OwnedWorld, Holds, result_prep-Owned}
use endurox_java.Calls.{
  Reply, Service, Answers, is_svcfail, is_event, Input, read_buffer, read_input, after,
  answer_object, call_failed, tpcall, tpgetrply, tprecv, result_new,
}
use endurox_java.Calls.Contract.{
  Answered, IsService, NoEvent, NoSvcfail, NoData, Sole, Answered-Rest, Stays-Owned,
}

-- What a method has read of an object whose buffer it got.
abbrev pub Read : World → Option ℕ → Input → Type 0
Read w none inp = (inp.ibuf ≡ 0) × (inp.ilen ≡ 0)
Read w (some i) inp =
    (inp.ibuf ≡ (w.objects i).c_ptr)
    × (w.heap inp.ibuf ≡ some inp.itype)
    × (inp.ilen ≡ (w.objects i).len)

module _ (a : Answers) where
  open a use {known, memory, result_memory, failed}

  read_buffer-Read :
      (itype : CString) (object : Option ℕ) (w : World)
      → let (inp, w1) = read_buffer a true itype object w in
        (w1.heap ≡ w.heap) × (w1.objects ≡ w.objects) × (inp.ok ≡ true → Read w object inp)
  unfolding read_buffer get_buffer atmi_throw
  read_buffer-Read itype none w = (refl, refl, λ ok. (refl, refl))
  read_buffer-Read itype (some i) w = elim (Option-cases w.pending) [
    | inr (e, p) ↦ rw (read_buffer, get_buffer, p) (refl, set_at_same w.objects i, λ ok. cc)
    | inl quiet ↦ elim (Option-cases (w.heap (w.objects i).c_ptr)) [
      | inl gone ↦
          rw (read_buffer, get_buffer, quiet, gone) (refl, set_at_same w.objects i, λ ok. cc)
      | inr (t, e) ↦
          rw (read_buffer, get_buffer, quiet, e)
            (refl, set_at_same w.objects i, λ ok. (refl, e, refl))
    ]
  ]

  pub read_input-Read :
      (itype : CString) (object : Option ℕ) (w : World)
      → let (inp, w1) = read_input a true itype object w in
        (w1.heap ≡ w.heap) × (w1.objects ≡ w.objects) × (inp.ok ≡ true → Read w object inp)
  unfolding read_input get_ctx atmi_throw
  read_input-Read itype object w = elim (Bool-cases known) [
    | inl got ↦ rw (read_input, got) (read_buffer-Read itype object (record w { ctx_set = true }))
    | inr unknown ↦ rw (unknown) (refl, refl, λ ok. cc)
  ]

  -- What the first part of a method leaves as it was.
  read_input_kept :
      (itype : CString) (object : Option ℕ) (w : World)
      → OwnedWorld w
      → Sole w object
      → let (inp, w1) = read_input a true itype object w in
        OwnedWorld w1 × Sole w1 object × (inp.ok ≡ true → Read w1 object inp)
  read_input_kept itype none w owned sole =
      let (e, e', read) = read_input-Read itype none w in (rw (e, e') owned, tt, read)
  read_input_kept itype (some i) w owned sole =
      let (e, e', read) = read_input-Read itype (some i) w in
      (rw (e, e') owned, rw e' sole, rw (e, e') read)

  pub read_buffer_kept :
      (itype : CString) (object : Option ℕ) (w : World)
      → OwnedWorld w
      → Sole w object
      → let (inp, w1) = read_buffer a true itype object w in
        OwnedWorld w1 × Sole w1 object × (inp.ok ≡ true → Read w1 object inp)
  read_buffer_kept itype none w owned sole =
      let (e, e', read) = read_buffer-Read itype none w in (rw (e, e') owned, tt, read)
  read_buffer_kept itype (some i) w owned sole =
      let (e, e', read) = read_buffer-Read itype (some i) w in
      (rw (e, e') owned, rw e' sole, rw (e, e') read)

  module _ (w : World) (owned : OwnedWorld w) (object : Option ℕ) (sole : Sole w object)
      (inp : Input) (read : Read w object inp) (r : Reply) (ans : Answered inp.ibuf w.heap r) where
    answer-Rest : Rest r.heap w.objects object r.obuf
    answer-Rest =
        elim object
            as (λ (x : Option ℕ). Sole w x → Read w x inp → Rest r.heap w.objects x r.obuf) [
              | none ↦ λ s e.
                  Answered-Rest w.heap w.objects inp.ibuf r owned ans none
                    (λ j _ own p. own.1 (p ∙ e.0))
              | some i ↦ λ s e.
                  Answered-Rest w.heap w.objects inp.ibuf r owned ans (some i)
                    (λ j it own p. s j it own (p ∙ e.0))
            ]
          sole read

    answer-Holds : Holds inp.ibuf inp.itype (after a r w) object
    answer-Holds =
        elim object as (λ (x : Option ℕ). Read w x inp → Holds inp.ibuf inp.itype (after a r w) x) [
          | none ↦ λ e. tt
          | some i ↦ λ e. (
            sym e.0,
            λ on.
                let some_ptr : (w.objects i).c_ptr ≢ 0 =
                  λ z. let n = owned.null in let p = e.1 in let q = e.0 in cc (n, p, q, z) in
                let (t, found, c) = owned.live i (on, some_ptr) in
                let same : t ≡ inp.itype = cc (found, e.0, e.1) in rw (← same) c,
          )
        ]
          read

    pub answer-Owned : OwnedWorld (answer_object a object inp r w).1
    answer-Owned =
        result_prep-Owned memory failed inp.ibuf inp.ilen r.obuf r.olen inp.itype (after a r w)
          ans.live object answer-Rest answer-Holds

    call_failed-Owned :
        r.success ≡ false → is_event r.err ≡ false → OwnedWorld (call_failed a object inp r w)
    unfolding call_failed atmi_throw
    call_failed-Owned fails no_event = elim (Bool-cases (is_svcfail r.err)) [
      | inl svc ↦ rw svc answer-Owned
      | inr other ↦
          rw other
            (Stays-Owned w.heap w.objects inp.ibuf r owned ans (ans.stays fails other no_event))
    ]

  -- If each owner has an allocated buffer of its class, no two owners have the same, and no other object
  -- owns the buffer of the call, then whatever a service answers within its contract this holds behind
  -- tpcall.
  pub tpcall-Owned :
      (s : Service) (object : Option ℕ) (w : World)
      → IsService s
      → NoEvent s
      → OwnedWorld w
      → Sole w object
      → OwnedWorld (tpcall a s object w).1
  unfolding tpcall unset_ctx
  tpcall-Owned s object w service no_event owned sole =
      let (inp, w1) = read_input a true (codes "NULL") object w in
      let (owned1, sole1, read) = read_input_kept (codes "NULL") object w owned sole in
      let r = s inp.ibuf inp.ilen w1.heap in
      let ans = service inp.ibuf inp.ilen w1.heap owned1.null in
      elim (Bool-cases inp.ok) [
        | inr stop ↦ rw stop owned1
        | inl ok ↦ elim (Bool-cases r.success) [
          | inl success ↦ rw (ok, success) (answer-Owned w1 owned1 object sole1 inp (read ok) r ans)
          | inr fails ↦
              rw (ok, fails)
                (call_failed-Owned w1 owned1 object sole1 inp (read ok) r ans fails
                  (no_event inp.ibuf inp.ilen w1.heap))
        ]
      ]

  result_new-Owned :
      (odata : Option ℕ) (r : Reply) (w : World)
      → OwnedWorld w
      → OwnedWorld (result_new a odata r w).1
  unfolding result_new
  result_new-Owned odata r w owned = elim (Bool-cases result_memory) [
    | inl made ↦ rw made owned
    | inr fails ↦ rw fails owned
  ]

  -- The same for tpgetrply, if a reply for the descriptor 0 leaves the buffer.
  pub tpgetrply-Owned :
      (s : Service) (object : Option ℕ) (w : World)
      → IsService s
      → NoEvent s
      → NoData s
      → OwnedWorld w
      → Sole w object
      → OwnedWorld (tpgetrply a s object w).1
  unfolding tpgetrply unset_ctx
  tpgetrply-Owned s object w service no_event no_data owned sole =
      let (inp, w1) = read_input a true [] object w in
      let (owned1, sole1, read) = read_input_kept [] object w owned sole in
      let r = s inp.ibuf inp.ilen w1.heap in
      let ans = service inp.ibuf inp.ilen w1.heap owned1.null in
      elim (Bool-cases inp.ok) [
        | inr stop ↦ rw stop owned1
        | inl ok ↦ elim (Bool-cases r.success) [
          | inr fails ↦
              rw (ok, fails)
                (call_failed-Owned w1 owned1 object sole1 inp (read ok) r ans fails
                  (no_event inp.ibuf inp.ilen w1.heap))
          | inl success ↦ elim (Bool-cases (r.cd == 0)) [
            | inl empty ↦
                rw (ok, success, empty)
                  (result_new-Owned object r (after a r w1) (
                    Stays-Owned w1.heap w1.objects inp.ibuf r owned1 ans
                      (no_data inp.ibuf inp.ilen w1.heap success (ground arith))))
            | inr full ↦
                rw (ok, success, full)
                  (result_new-Owned _ r _ (answer-Owned w1 owned1 object sole1 inp (read ok) r ans))
          ]
        ]
      ]

  -- The same for tprecv, which fails with no service failure but reports an event.
  pub tprecv-Owned :
      (s : Service) (object : Option ℕ) (w : World)
      → IsService s
      → NoSvcfail s
      → OwnedWorld w
      → Sole w object
      → OwnedWorld (tprecv a s object w).1
  unfolding tprecv unset_ctx atmi_throw
  tprecv-Owned s object w service no_svcfail owned sole =
      let (inp, w1) = read_input a true [] object w in
      let (owned1, sole1, read) = read_input_kept [] object w owned sole in
      let r = s inp.ibuf inp.ilen w1.heap in
      let ans = service inp.ibuf inp.ilen w1.heap owned1.null in
      let answered = λ (ok : inp.ok ≡ true).
        result_new-Owned _ r _ (answer-Owned w1 owned1 object sole1 inp (read ok) r ans) in
      elim (Bool-cases inp.ok) [
        | inr stop ↦ rw stop owned1
        | inl ok ↦ elim (Bool-cases r.success) [
          | inl success ↦ rw (ok, success) (answered ok)
          | inr fails ↦ elim (Bool-cases (is_event r.err)) [
            | inl event ↦ rw (ok, fails, event) (answered ok)
            | inr other ↦
                rw (ok, fails, other)
                  (Stays-Owned w1.heap w1.objects inp.ibuf r owned1 ans
                    (ans.stays fails (no_svcfail inp.ibuf inp.ilen w1.heap) other))
          ]
        ]
      ]
