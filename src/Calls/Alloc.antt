-- ===== src/Calls/Alloc.antt =====
-- libsrc/c/AtmiCtx.c, `tpalloc`, and libsrc/c/TypedBuffer.c, `tprealloc`: buffers that Java asks for.
pub mod Made
use endurox_java.Base.{ℕ, Bool, true, false, not, Option, none, some, ◌==◌, if◌then◌else◌}
use endurox_java.Base.Bytes.{CString, codes, str_eq}
use endurox_java.Buffers.{
  Code, World, tpeinval, atmi_throw, unset_ctx, get_ctx, get_buffer, set_buffer, translate_type,
}
use endurox_java.Calls.{Reply, Service, Answers, after}

-- What the library answers to tpalloc: an address, or 0 and a code.
pub record Allocation : Type 0 where
  pub address : ℕ
  pub err : Code
  pub heap : ℕ → Option CString

module _ (a : Answers) where
  -- `ndrxj_Java_org_endurox_AtmiCtx_tpalloc`
  unfoldable pub tpalloc :
      (alloc : CString → (ℕ → Option CString) → Allocation)
      → (btype : Option CString) → (size : ℕ) → World
      → Option ℕ × World
  unfolding atmi_throw unset_ctx get_ctx
  tpalloc alloc none size w = (none, unset_ctx (atmi_throw none false tpeinval w))
  tpalloc alloc (some btype) size w =
      let (got, w1) = get_ctx a.known true w in
      let r = alloc btype w1.heap in
      let w2 = record w1 { heap = r.heap } in
      let (object, w3) = translate_type a.memory btype r.address size true w2 in
      if str_eq btype (codes "NULL")
      then (none, unset_ctx w)
      else if not got
      then (none, unset_ctx w1)
      else if r.address == 0
      then (none, unset_ctx (atmi_throw none false r.err w2))
      else (object, unset_ctx w3)

  -- `ndrxj_Java_org_endurox_TypedBuffer_tprealloc` of an object.
  unfoldable pub tprealloc : Service → ℕ → World → World
  unfolding atmi_throw unset_ctx get_ctx set_buffer
  tprealloc service i w =
      let (got, w1) = get_ctx a.known true w in
      let (input, w2) = get_buffer (some i) 0 false false false w1 in
      let r = service input.buf input.len w2.heap in
      if not got
      then w1
      else unset_ctx (
          if not input.ok
          then w2
          else if r.obuf == 0
          then atmi_throw none false r.err (after a r w2)
          else set_buffer i r.obuf input.len (after a r w2))
