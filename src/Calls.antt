-- ===== src/Calls.antt =====
-- libsrc/c/tpcallj.c and conversations.c: the native methods that hand a buffer of a Java object to
-- the Enduro/X library and take the answer back. What the library and the JVM answer is an argument.
pub mod Alloc
pub mod Context
pub mod Contract
pub mod History
pub mod Kept
pub mod Queue
pub mod Result
pub mod Return
pub mod Sent
pub mod Settings
pub mod Transaction
use endurox_java.Base.{
  ℕ, Bool, true, false, not, ◌&&◌, ◌||◌, Option, none, some, [], ◌==◌, if◌then◌else◌,
}
use endurox_java.Base.Bytes.{CString, codes}
use endurox_java.Buffers.{
  Code, tpeinval, tpesvcfail, tpeevent, tpediagnostic, other_code, World, out_of_memory, atmi_throw,
  unset_ctx, get_ctx, Got, get_buffer, result_prep,
}

-- What the library answers to a call that may replace the buffer: `obuf` and `olen` behind it, the
-- descriptor, the event, and the buffers that are allocated then.
pub record Reply : Type 0 where
  pub success : Bool
  pub err : Code
  pub obuf : ℕ
  pub olen : ℕ
  pub cd : ℕ
  pub revent : ℕ
  pub heap : ℕ → Option CString

-- A call gets the buffer and its length.
abbrev pub Service : Type 0
Service = (ibuf ilen : ℕ) → (heap : ℕ → Option CString) → Reply

-- The answers of the JVM and of tptypes: whether the context is there, whether a buffer object and a
-- result object are made, and the code of a tptypes that fails.
pub record Answers : Type 0 where
  pub known : Bool
  pub memory : Bool
  pub result_memory : Bool
  pub failed : Code

abbrev pub is_svcfail : Code → Bool
is_svcfail tpesvcfail = true
is_svcfail tpeinval = false
is_svcfail tpeevent = false
is_svcfail tpediagnostic = false
is_svcfail (other_code n) = false

abbrev pub is_event : Code → Bool
is_event tpeevent = true
is_event tpeinval = false
is_event tpesvcfail = false
is_event tpediagnostic = false
is_event (other_code n) = false

-- The variables `ibuf`, `ilen` and `itype` behind the first part of a method.
pub record Input : Type 0 where
  pub ok : Bool
  pub ibuf : ℕ
  pub ilen : ℕ
  pub itype : CString

abbrev pub input_of : Got → (ok : Bool) → (itype : CString) → Input
input_of got ok itype = record { ok = ok; ibuf = got.buf; ilen = got.len; itype = itype }

module _ (a : Answers) where
  open a use {known, memory, result_memory, failed}

  -- The part that reads the buffer of an object and, with `types`, its type name.
  unfoldable pub read_buffer : (types : Bool) → CString → Option ℕ → World → Input × World
  unfolding get_buffer atmi_throw
  read_buffer types itype none w = (record { ok = true; ibuf = 0; ilen = 0; itype = itype }, w)
  read_buffer types itype (some i) w =
      let (got, w1) = get_buffer (some i) 0 false false false w in
      if not (got.ok && types)
      then (input_of got got.ok itype, w1)
      else (elim (w1.heap got.buf) as (λ t. Input × World) [
        | none ↦ (input_of got false itype, atmi_throw none false failed w1)
        | some t ↦ (input_of got true t, w1)
      ])

  -- The first part of a method: the context, and the buffer.
  unfoldable pub read_input : (types : Bool) → CString → Option ℕ → World → Input × World
  unfolding get_ctx read_buffer
  read_input types itype object w =
      let (got, w1) = get_ctx known true w in
      if got
      then read_buffer types itype object w1
      else (record { ok = false; ibuf = 0; ilen = 0; itype = itype }, w1)

  abbrev pub after : Reply → World → World
  after r w = record w { heap = r.heap }

  abbrev pub answer_object : Option ℕ → Input → Reply → World → Option ℕ × World
  answer_object object input r w =
      result_prep memory failed object input.ibuf input.ilen r.obuf r.olen input.itype (after r w)

  -- The exception of a call that failed: a service failure carries the answer, any other the input.
  unfoldable pub call_failed : Option ℕ → Input → Reply → World → World
  unfolding result_prep atmi_throw
  call_failed object input r w =
      let (answer, w') = answer_object object input r w in
      if is_svcfail r.err
      then atmi_throw answer false r.err w'
      else atmi_throw object false r.err (after r w)

  -- `ndrxj_Java_org_endurox_AtmiCtx_tpcall`
  unfoldable pub tpcall : Service → Option ℕ → World → Option ℕ × World
  unfolding read_input call_failed unset_ctx
  tpcall service object w =
      let (input, w1) = read_input true (codes "NULL") object w in
      let r = service input.ibuf input.ilen w1.heap in
      let (answer, w2) = answer_object object input r w1 in
      if not input.ok
      then (none, unset_ctx w1)
      else if r.success
      then (answer, unset_ctx w2)
      else (none, unset_ctx (call_failed object input r w1))

  -- A result object of tpgetrply or tprecv, made behind the buffer object; none is NULL.
  unfoldable pub result_new : Option ℕ → Reply → World → Option (ℕ × Option ℕ × ℕ) × World
  result_new odata r w =
      if result_memory
      then (some (r.cd, odata, r.revent), w)
      else (none, record w { pending = some out_of_memory })

  -- `ndrxj_Java_org_endurox_AtmiCtx_tpgetrply`
  unfoldable pub tpgetrply : Service → Option ℕ → World → Option (ℕ × Option ℕ × ℕ) × World
  unfolding read_input call_failed result_new unset_ctx
  tpgetrply service object w =
      let (input, w1) = read_input true [] object w in
      let r = service input.ibuf input.ilen w1.heap in
      let (answer, w2) = answer_object object input r w1 in
      let (odata, w3) = if r.cd == 0 then (object, after r w1) else (answer, w2) in
      let (result, w4) = result_new odata r w3 in
      if not input.ok
      then (none, unset_ctx w1)
      else if r.success
      then (result, unset_ctx w4)
      else (none, unset_ctx (call_failed object input r w1))

  -- `ndrxj_Java_org_endurox_AtmiCtx_tprecv`; an event comes with a buffer.
  unfoldable pub tprecv : Service → Option ℕ → World → Option (ℕ × Option ℕ × ℕ) × World
  unfolding read_input result_new unset_ctx atmi_throw
  tprecv service object w =
      let (input, w1) = read_input true [] object w in
      let r = service input.ibuf input.ilen w1.heap in
      let (answer, w2) = answer_object object input r w1 in
      let (result, w3) = result_new answer r w2 in
      if not input.ok
      then (none, unset_ctx w1)
      else if not r.success && not (is_event r.err)
      then (none, unset_ctx (atmi_throw object false r.err (after r w1)))
      else (result, unset_ctx w3)

  -- `ndrxj_Java_org_endurox_AtmiCtx_tpacall` and `tpconnect`: the descriptor, or none for -1.
  unfoldable pub tpacall : Service → Option ℕ → World → Option ℕ × World
  unfolding read_input unset_ctx atmi_throw
  tpacall service object w =
      let (input, w1) = read_input false [] object w in
      let r = service input.ibuf input.ilen w1.heap in
      if not input.ok
      then (none, unset_ctx w1)
      else if r.success
      then (some r.cd, unset_ctx (after r w1))
      else (none, unset_ctx (atmi_throw object false r.err (after r w1)))

  -- `ndrxj_Java_org_endurox_AtmiCtx_tpsend`: the event, 0 when there is none.
  unfoldable pub tpsend : Service → Option ℕ → World → ℕ × World
  unfolding read_input unset_ctx atmi_throw
  tpsend service object w =
      let (input, w1) = read_input false [] object w in
      let r = service input.ibuf input.ilen w1.heap in
      if not input.ok
      then (0, unset_ctx w1)
      else if not r.success && not (is_event r.err)
      then (r.revent, unset_ctx (atmi_throw object false r.err (after r w1)))
      else (r.revent, unset_ctx (after r w1))

  -- `ndrxj_Java_org_endurox_AtmiCtx_tpdiscon`, whose variable `err` is never set.
  unfoldable pub tpdiscon : (success : Bool) → (unset_err : Code) → World → World
  unfolding get_ctx unset_ctx atmi_throw
  tpdiscon success unset_err w =
      let (got, w1) = get_ctx known true w in
      unset_ctx (
        if not got || success
        then w1
        else record (atmi_throw none false unset_err w1) { undefined = true })
