-- ===== src/Calls/Transaction.antt =====
-- libsrc/c/AtmiCtx.c, the native methods on transactions and the XA connection. The ids of suspended
-- transactions go through Convert/Tranid.
use endurox_java.Base.{
  ℕ, ◌≡◌, refl, Bool, true, false, not, ◌&&◌, Option, none, some, if◌then◌else◌, length,
}
use endurox_java.Buffers.{is_pending, World, Code, Exception, atmi_throw, unset_ctx, get_ctx}
use endurox_java.Calls.{Answers}
use endurox_java.Convert.{CObject, JObject}
use endurox_java.Convert.Tranid.{
  Returned, tranid_fieldmap, tranid_translate2c, tranid_translate2java, tranid_lem, created,
}
use endurox_java.Linker.Settings.{BufferLib}

-- What a failed conversion leaves, by the exception that it throws.
abbrev pub left : Exception → Bool → World → World
left e true w = record w { pending = some e }
left e false w = w

module _ (a : Answers) where
  -- tpopen, tpclose, tpbegin, tpcommit and tpabort: the call has succeeded, or `err` is its tperrno.
  unfoldable pub checked_call : (success : Bool) → (err : Code) → World → World
  unfolding get_ctx atmi_throw unset_ctx
  checked_call success err w =
      let (got, w1) = get_ctx a.known true w in
      if not got then w1 else unset_ctx (if success then w1 else atmi_throw none false err w1)

  -- `ndrxj_Java_org_endurox_AtmiCtx_tpgetlev`; none is -1.
  unfoldable pub tpgetlev : (level : ℕ) → World → Option ℕ × World
  unfolding get_ctx unset_ctx
  tpgetlev level w =
      let (got, w1) = get_ctx a.known true w in
      if not got then (none, w1) else (some level, unset_ctx w1)

  module _ (B : BufferLib) (size : ℕ) (failure : Exception) where
    -- `ndrxj_Java_org_endurox_AtmiCtx_tpsuspend`: the library gives the id or fails.
    unfoldable pub tpsuspend :
        (object_made : Bool)
        → (suspended : Option (CObject (tranid_fieldmap size))) → Code
        → World
        → Option (Returned × JObject (tranid_fieldmap size)) × World
    unfolding atmi_throw unset_ctx
    tpsuspend object_made suspended err w =
        let (got, w1) = get_ctx a.known true w in
        let (jtid, w2) =
          elim suspended as (λ s. Option (Returned × JObject (tranid_fieldmap size)) × World) [
            | none ↦ (none, atmi_throw none false err w1)
            | some tid ↦
                elim (tranid_translate2java B a.memory size object_made (is_pending w1) none tid)
                  as (λ t. Option (Returned × JObject (tranid_fieldmap size)) × World) [
                    | none ↦ (none, left failure true w1)
                    | some (ret, jtid, thrown) ↦
                        (some (ret, jtid), left failure (thrown && not (is_pending w1)) w1)
                  ]
          ] in
        if not got then (none, w1) else (jtid, unset_ctx w2)

    -- `ndrxj_Java_org_endurox_AtmiCtx_tpresume`: the id that the library is called with, if it is
    -- called, and what it answers.
    unfoldable pub tpresume :
        JObject (tranid_fieldmap size)
        → (old : CObject (tranid_fieldmap size))
        → (resumed : CObject (tranid_fieldmap size) → Option Code) → World
        → Option (CObject (tranid_fieldmap size)) × World
    unfolding atmi_throw unset_ctx
    tpresume jtid old resumed w =
        let (got, w1) = get_ctx a.known true w in
        let (ok, tid, thrown) = tranid_translate2c B a.memory size (is_pending w1) jtid old in
        let w2 = left failure (thrown && not (is_pending w1)) w1 in
        let w3 = elim (resumed tid) as (λ e. World) [
          | none ↦ w1
          | some err ↦ atmi_throw none false err w1
        ] in
        if not got
        then (none, w1)
        else if not ok
        then (none, unset_ctx w2)
        else (some tid, unset_ctx w3)

-- A suspended transaction whose id has the right length is resumed with the same id, if there is a
-- context and memory and no exception is pending: tpsuspend gives Java a new object without an
-- exception, and tpresume of it calls the library with the id.
pub suspend_resume :
    (a : Answers) (B : BufferLib) (size : ℕ) (failure : Exception)
    (tid old : CObject (tranid_fieldmap size)) (err : Code)
    (resumed : CObject (tranid_fieldmap size) → Option Code) (w : World)
    → length tid.0 ≡ size
    → resumed tid ≡ none
    → let given : Answers = record a { known = true; memory = true } in
      let quiet : World = record w { pending = none; ctx_set = false } in
      (jtid : JObject (tranid_fieldmap size)) × (tpsuspend given B size failure true
          (some tid)
          err
          quiet
        ≡ (some (created, jtid), quiet))
      × (tpresume given B size failure jtid old resumed quiet ≡ (some tid, quiet))
unfolding tpsuspend tpresume get_ctx unset_ctx
suspend_resume a B size failure tid old err resumed w fits ok =
    let ((jtid, there, back), _) = tranid_lem B size tid old none fits in
    (jtid, rw (tpsuspend, there) refl, rw (tpresume, back, ok) refl)
