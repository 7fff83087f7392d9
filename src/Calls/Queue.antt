-- ===== src/Calls/Queue.antt =====
-- libsrc/c/tpenqueue.c and tpdequeue.c: messages to and from a queue. What the conversions of the
-- names and of the queue control answer is an argument.
pub mod Dequeued
use endurox_java.Base.{ℕ, Bool, true, false, not, ◌&&◌, Option, none, some, if◌then◌else◌}
use endurox_java.Base.Bytes.{codes}
use endurox_java.Buffers.{World, Exception, tpeinval, atmi_throw, unset_ctx, get_ctx}
use endurox_java.Calls.{Reply, Service, Answers, Input, read_buffer, after, answer_object}

-- The arguments that are there, whether `nodeid` and `srvid` are both -1, which conversions succeed,
-- and the exception that a failing one leaves.
pub record QueueCall : Type 0 where
  pub no_server : Bool
  pub qspace : Bool
  pub qname : Bool
  pub qctl : Bool
  pub qspace_ok : Bool
  pub qname_ok : Bool
  pub qctl_ok : Bool
  pub back_ok : Bool
  pub left : Exception

-- The tests of the arguments.
abbrev pub complete : QueueCall → Bool
complete q = not (q.no_server && not q.qspace) && q.qname && q.qctl

-- The conversions of the names.
abbrev pub names_ok : QueueCall → Bool
names_ok q = not (q.qspace && not q.qspace_ok) && q.qname_ok

unfoldable pub leave : QueueCall → World → World
leave q w = record w { pending = some q.left }

module _ (a : Answers) (q : QueueCall) where
  -- `tpdequeue_int`, the function behind tpdequeue and tpdequeueex.
  unfoldable pub tpdequeue : Service → Option ℕ → World → Option ℕ × World
  unfolding get_ctx read_buffer unset_ctx atmi_throw leave
  tpdequeue service object w =
      let (got, w1) = get_ctx a.known true w in
      let (input, w2) = read_buffer a true (codes "NULL") object w1 in
      let r = service input.ibuf input.ilen w2.heap in
      let (answer, w3) = answer_object a object input r w2 in
      if not got
      then (none, unset_ctx w1)
      else if not (complete q)
      then (none, unset_ctx (atmi_throw object false tpeinval w1))
      else if not (names_ok q && q.qctl_ok)
      then (none, unset_ctx (leave q w1))
      else if not input.ok
      then (none, unset_ctx w2)
      else if not r.success
      then (none, unset_ctx (atmi_throw object true r.err (after a r w2)))
      else (answer, unset_ctx (if q.back_ok then w3 else leave q w3))

  -- `tpenqueue_int`, the function behind tpenqueue and tpenqueueex.
  unfoldable pub tpenqueue : Service → Option ℕ → World → World
  unfolding get_ctx read_buffer unset_ctx atmi_throw leave
  tpenqueue service object w =
      let (got, w1) = get_ctx a.known true w in
      let (input, w2) = read_buffer a false (codes "NULL") object w1 in
      let r = service input.ibuf input.ilen w2.heap in
      let w3 = after a r w2 in
      let w4 = if r.success then w3 else atmi_throw object true r.err w3 in
      unset_ctx (
        if not got
        then w1
        else if not (complete q)
        then atmi_throw object false tpeinval w1
        else if not (names_ok q)
        then leave q w1
        else if not input.ok
        then w2
        else if not q.qctl_ok
        then leave q w2
        else if q.back_ok
        then w4
        else leave q w4)
