-- ===== src/Ubf/Names.antt =====
-- libsrc/c/AtmiCtx_Util.c: the types, the names and the ids of fields.
use endurox_java.Base.{ℕ, Bool, true, Option, none, some, if◌then◌else◌, ◌⊎◌, inl, inr}
use endurox_java.Base.Bytes.{CString}
use endurox_java.Buffers.{UbfCode, beinval, get_ctx, ubf_throw, unset_ctx}
use endurox_java.Ubf.{JvmAnswers, UbfState, on_world, take_elements, release_elements}
use endurox_java.Ubf.Values.{made_object}

module _ {B : Type 0} where
  -- A method of AtmiCtx up to the switch back behind `out:`.
  unfoldable pub in_atmi_context :
      {R : Type 0}
      → (known : Bool) → (failed : R) → (UbfState B → R × UbfState B)
      → UbfState B
      → R × UbfState B
  in_atmi_context known failed body s =
      let (got, w) = get_ctx known true s.world in
      let t = record s { world = w } in
      let (r, u) = body t in
      if got then (r, on_world unset_ctx u) else (failed, on_world unset_ctx t)

  -- `Btype` and `Bfname`: the string of the library, or its Berror.
  unfoldable pub named : JvmAnswers → UbfCode ⊎ CString → UbfState B → Option CString × UbfState B
  named a (inl err) s = (none, on_world (ubf_throw err) s)
  named a (inr name) s = made_object a (some name, s)

  unfoldable pub btype :
      (ℕ → UbfCode ⊎ CString) → JvmAnswers → (bfldid : ℕ) → UbfState B → Option CString × UbfState B
  btype types a bfldid = in_atmi_context a.known none (named a (types bfldid))

  unfoldable pub bfname :
      (ℕ → UbfCode ⊎ CString) → JvmAnswers → (bfldid : ℕ) → UbfState B → Option CString × UbfState B
  bfname names a bfldid = in_atmi_context a.known none (named a (names bfldid))

  -- `Bfldid`; `none` is BBADFLDID, which the library gives for an unknown name.
  unfoldable pub bfldid_of :
      (CString → Option ℕ)
      → JvmAnswers
      → (fldnm : Option CString) → UbfState B
      → Option ℕ × UbfState B
  bfldid_of ids a none s = (none, on_world unset_ctx (on_world (ubf_throw beinval) s))
  bfldid_of ids a (some fldnm) s =
      let (r, t) = in_atmi_context a.known none (λ u. (ids fldnm, u)) (take_elements a s) in
      (r, release_elements a t)
