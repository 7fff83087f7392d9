-- ===== src/Ubf.antt =====
-- libsrc/c/TypedUbf_*.c, the methods of TypedUbf. The UBF library of Enduro/X enters as `UbfLib`, over
-- a type `B` of what it keeps of a buffer, its place in an iteration included.

pub mod Calls
pub mod Context
pub mod Expressions
pub mod Fields
pub mod Info
pub mod Json
pub mod Leaves
pub mod Names
pub mod Pairs
pub mod Project
pub mod Runs
pub mod Stream
pub mod Values
use endurox_java.Base.{
  ℕ, ◌+◌, ◌-◌, ◌⊎◌, Bool, true, false, not, Option, none, some, List, if◌then◌else◌, set_at,
}
use endurox_java.Base.Bytes.{CString}
use endurox_java.Buffers.{
  World, Code, UbfCode, ubf_throw, typed_buffer_get_ctx, get_buffer, unset_ctx,
}

-- BFLD_SHORT to BFLD_CARRAY.
pub data FieldType : Type 0 where
  bfld_short bfld_long bfld_char bfld_float bfld_double bfld_string bfld_carray : FieldType

-- What a `char *value` points to, a carray with its length. The numbers are the bits.
abbrev pub Value : FieldType → Type 0
Value bfld_short = ℕ
Value bfld_long = ℕ
Value bfld_char = ℕ
Value bfld_float = ℕ
Value bfld_double = ℕ
Value bfld_string = CString
Value bfld_carray = List ℕ

-- A number of C that is -1 or not negative.
pub data Jint : Type 0 where
  exfail : Jint
  at : ℕ → Jint

-- EXSUCCEED as `none`, or EXFAIL with the Berror behind it.
abbrev pub Status : Type 0
Status = Option UbfCode

-- `Bfld_loc_info_t`, as BFldLocInfo keeps it.
pub record Location : Type 0 where
  pub last_checked : ℕ
  pub last_baddfast : ℕ

-- What Bnext finds: an error, the end, or a field with its occurrence and its length.
pub data Next : Type 0 where
  next_error : UbfCode → Next
  next_end : Next
  next_field : (bfldid occ len : ℕ) → Next

-- The functions of the library, each with the buffer as it leaves it where it changes one, and with
-- Berror where the code reads it.
pub record UbfLib (B : Type 0) : Type 0 where
  pub bproj : List ℕ → B → Status × B
  pub bdelete : List ℕ → B → Status × B
  pub bprojcpy : List ℕ → (dst src : B) → Status × B
  pub bconcat : (dst src : B) → Status × B
  pub bcpy : (dst src : B) → Status × B
  pub bupdate : (dst src : B) → Status × B
  pub bjoin : (dst src : B) → Status × B
  pub bojoin : (dst src : B) → Status × B
  pub bcmp : B → B → Jint × UbfCode
  pub bsubset : B → B → Jint × UbfCode
  pub bdel : (bfldid occ : ℕ) → B → Status × B
  pub bdelall : (bfldid : ℕ) → B → Status × B
  pub cbadd : (bfldid : ℕ) → (t : FieldType) → Value t → B → Status × B
  pub cbchg : (bfldid occ : ℕ) → (t : FieldType) → Value t → B → Status × B
  pub cbfind : (bfldid occ : ℕ) → (t : FieldType) → B → UbfCode ⊎ Value t
  pub bfldtype : ℕ → FieldType
  pub bpres : (bfldid occ : ℕ) → B → Bool
  pub bisubf : B → Bool
  pub blen : (bfldid occ : ℕ) → B → Jint × UbfCode
  pub bnext : (bfldid : ℕ) → B → Next × B
  pub boccur : (bfldid : ℕ) → B → Jint
  pub bsizeof : B → Jint × UbfCode
  pub bunused : B → Jint
  pub bused : B → Jint
  pub bnum : B → Jint
  pub binit : Jint → B → Status × B
  pub bprint : B → Status
  pub tpjsontoubf : CString → B → Option Code × B
  pub tpubftojson : (bufsz : ℕ) → B → Code ⊎ CString
  pub baddfast : (bfldid : ℕ) → (t : FieldType) → Value t → Location → B → Status × Location × B

-- The answers of the JVM and of malloc. `copy` is what a Get...Elements writes to its isCopy,
-- `made` says whether the JVM makes the object it is asked for.
pub record JvmAnswers : Type 0 where
  pub holder : Bool
  pub known : Bool
  pub copy : Bool
  pub memory : Bool
  pub made : Bool

-- `copies` and `blocks` count the copies that the JVM made of strings and arrays, and what malloc
-- gave, as far as they have not been given back; `trees` the compiled expressions. `cb_ubf` is
-- `M_cb_ubf` of the thread.
pub record UbfState (B : Type 0) : Type 0 where
  pub world : World
  pub content : ℕ → B
  pub copies : ℕ
  pub blocks : ℕ
  pub cb_ubf : Option ℕ
  pub trees : ℕ

module _ {B : Type 0} where
  abbrev pub on_world : (World → World) → UbfState B → UbfState B
  on_world f s = record s { world = f s.world }

  -- What C or JNI leaves open.
  abbrev pub left_open : UbfState B → UbfState B
  left_open s = on_world (λ w. record w { undefined = true }) s

  -- A Get...Elements or GetStringUTFChars, and the release under `if (copy)`.
  unfoldable pub take_elements : JvmAnswers → UbfState B → UbfState B
  take_elements a s = record s { copies = if a.copy then s.copies + 1 else s.copies }

  unfoldable pub release_elements : JvmAnswers → UbfState B → UbfState B
  release_elements a s = record s { copies = if a.copy then s.copies - 1 else s.copies }

  -- From ndrxj_TypedBuffer_get_ctx to the switch back behind `out:`.
  unfoldable pub in_context :
      {R : Type 0}
      → JvmAnswers
      → (failed : R) → (UbfState B → R × UbfState B)
      → UbfState B
      → R × UbfState B
  unfolding typed_buffer_get_ctx unset_ctx
  in_context a failed body s =
      let (got, w) = typed_buffer_get_ctx a.holder a.known true s.world in
      let (r, s') = body (record s { world = w }) in
      if got then (r, on_world unset_ctx s') else (failed, record s { world = w })

  -- ndrxj_atmi_TypedBuffer_get_buffer and what follows it up to `out:`.
  unfoldable pub with_buffer :
      {R : Type 0}
      → Option ℕ
      → (failed : R) → (ℕ → UbfState B → R × UbfState B)
      → UbfState B
      → R × UbfState B
  unfolding get_buffer
  with_buffer object failed call s =
      let (g, w) = get_buffer object 0 false false false s.world in
      let s' = record s { world = w } in if g.ok then call g.buf s' else (failed, s')

  -- A call of the library that changes the buffer at `p`, and the throw when it fails.
  unfoldable pub apply : ℕ → Status × B → UbfState B → UbfState B
  unfolding ubf_throw
  apply p (none, b) s = record s { content = set_at s.content p b }
  apply p (some err, b) s = on_world (ubf_throw err) (record s { content = set_at s.content p b })
