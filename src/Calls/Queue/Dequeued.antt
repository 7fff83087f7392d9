-- ===== src/Calls/Queue/Dequeued.antt =====
-- A message that is taken from a queue keeps each buffer with one owner.
use endurox_java.Base.{ℕ, ◌≡◌, refl, true, false, Bool-cases, inl, inr, Option, none, some, ◌&&◌}
use endurox_java.Base.Bytes.{codes}
use endurox_java.Buffers.{World, atmi_exception, tpeinval, atmi_throw, unset_ctx, get_ctx}
use endurox_java.Buffers.Prepared.{OwnedWorld}
use endurox_java.Calls.{Service, Answers, read_buffer}
use endurox_java.Calls.Contract.{IsService, NoEvent, NoSvcfail, Sole, Stays-Owned}
use endurox_java.Calls.Kept.{read_buffer_kept, answer-Owned}
use endurox_java.Calls.Queue.{QueueCall, complete, names_ok, leave, tpdequeue, tpenqueue}

module _ (a : Answers) (q : QueueCall) where
  -- Whatever a service answers within its contract, behind tpdequeue each owner has an allocated buffer
  -- of its class and no two owners have the same, if no other object owned the buffer of the call.
  pub tpdequeue-Owned :
      (s : Service) (object : Option ℕ) (w : World)
      → IsService s
      → NoEvent s
      → NoSvcfail s
      → OwnedWorld w
      → Sole w object
      → OwnedWorld (tpdequeue a q s object w).1
  unfolding tpdequeue unset_ctx atmi_throw leave get_ctx
  tpdequeue-Owned s object w service no_event no_svcfail owned sole = elim (Bool-cases a.known) [
    | inr unknown ↦ rw (tpdequeue, unknown) owned
    | inl known ↦
        let w0 : World = record w { ctx_set = true } in
        let (inp, w1) = read_buffer a true (codes "NULL") object w0 in
        let (owned1, sole1, read) = read_buffer_kept a (codes "NULL") object w0 owned sole in
        let r = s inp.ibuf inp.ilen w1.heap in
        let ans = service inp.ibuf inp.ilen w1.heap owned1.null in
        elim (Bool-cases (complete q)) [
          | inr missing ↦ rw (tpdequeue, known, missing) owned
          | inl there ↦ elim (Bool-cases (names_ok q && q.qctl_ok)) [
            | inr bad ↦ rw (tpdequeue, known, there, bad) owned
            | inl good ↦ elim (Bool-cases inp.ok) [
              | inr stop ↦ rw (tpdequeue, known, there, good, stop) owned1
              | inl ok ↦ elim (Bool-cases r.success) [
                | inr fails ↦
                    rw (tpdequeue, known, there, good, ok, fails)
                      (Stays-Owned w1.heap w1.objects inp.ibuf r owned1 ans (
                        ans.stays fails (no_svcfail inp.ibuf inp.ilen w1.heap)
                          (no_event inp.ibuf inp.ilen w1.heap)))
                | inl success ↦
                    let kept = answer-Owned a w1 owned1 object sole1 inp (read ok) r ans in
                    elim (Bool-cases q.back_ok) [
                      | inl back ↦ rw (tpdequeue, known, there, good, ok, success, back) kept
                      | inr fails ↦ rw (tpdequeue, known, there, good, ok, success, fails) kept
                    ]
              ]
            ]
          ]
        ]
  ]

  -- Without a queue, a control or, where no server is named, a queue space, both methods throw TPEINVAL
  -- with the buffer object in it and touch neither buffers nor objects.
  pub incomplete_lem :
      (s : Service) (object : Option ℕ) (w : World)
      → a.known ≡ true
      → complete q ≡ false
      → let thrown : World = record w {
        pending = some (atmi_exception tpeinval object false);
        ctx_set = false;
      } in
        (tpdequeue a q s object w ≡ (none, thrown)) × (tpenqueue a q s object w ≡ thrown)
  unfolding tpdequeue tpenqueue unset_ctx atmi_throw get_ctx
  incomplete_lem s object w known missing = rw (tpdequeue, tpenqueue, known, missing) (refl, refl)
