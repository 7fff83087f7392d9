-- ===== src/Ubf/Values.antt =====
-- Single fields: libsrc/c/TypedUbf_Badd.c, TypedUbf_Bchg.c, TypedUbf_Bget.c, TypedUbf_Baddfast.c, and
-- `Bdel` and `Bdelall` of TypedUbf_Del.c. A null array is outside the model, JNI forbids it.
pub mod Returned
use endurox_java.Base.{
  ℕ, Bool, true, false, not, Option, none, some, ◌⊎◌, inl, inr, ◌==◌, if◌then◌else◌, set_at, List,
}
use endurox_java.Base.Bytes.{CString}
use endurox_java.Buffers.{is_pending, World, UbfCode, beinval, out_of_memory, ubf_throw}
use endurox_java.Ubf.{
  Status, UbfLib, FieldType, bfld_short, bfld_long, bfld_char, bfld_float, bfld_double, bfld_string,
  bfld_carray, Value, Location, JvmAnswers, UbfState, on_world, left_open, take_elements,
  release_elements, in_context, with_buffer, apply,
}

-- The argument of a method, by its type: a string may be null.
pub data JavaValue : Type 0 where
  jshort jlong jbyte jfloat jdouble : ℕ → JavaValue
  jstring : Option CString → JavaValue
  jbyte_array : List ℕ → JavaValue

abbrev pub field_code : FieldType → ℕ
field_code bfld_short = 0
field_code bfld_long = 1
field_code bfld_char = 2
field_code bfld_float = 3
field_code bfld_double = 4
field_code bfld_string = 5
field_code bfld_carray = 6

module _ {B : Type 0} where
  -- A change of the buffer of one object, between the context and `out:`.
  unfoldable pub change : (B → Status × B) → JvmAnswers → (object : ℕ) → UbfState B → UbfState B
  change function a object s =
      (in_context a tt
        (λ s1. with_buffer (some object) tt (λ p s2. (tt, apply p (function (s2.content p)) s2)) s1)
        s).1

  unfoldable pub bdel : UbfLib B → JvmAnswers → (object bfldid occ : ℕ) → UbfState B → UbfState B
  bdel L a object bfldid occ = change (L.bdel bfldid occ) a object

  unfoldable pub bdelall : UbfLib B → JvmAnswers → (object bfldid : ℕ) → UbfState B → UbfState B
  bdelall L a object bfldid = change (L.bdelall bfldid) a object

  unfoldable pub ubf_cbadd :
      UbfLib B
      → JvmAnswers
      → (object bfldid : ℕ) → (usrtype : FieldType) → Value usrtype
      → UbfState B
      → UbfState B
  ubf_cbadd L a object bfldid usrtype value = change (L.cbadd bfldid usrtype value) a object

  unfoldable pub ubf_cbchg :
      UbfLib B
      → JvmAnswers
      → (object bfldid occ : ℕ) → (usrtype : FieldType) → Value usrtype
      → UbfState B
      → UbfState B
  ubf_cbchg L a object bfldid occ usrtype value = change (L.cbchg bfldid occ usrtype value) a object

  -- What each method does around the common routine. The elements of a string or of an array are
  -- taken first and released behind it; `null` is what is done for a string that is null.
  unfoldable pub with_value :
      {R : Type 0}
      → JvmAnswers
      → (null : UbfState B → R × UbfState B) → JavaValue
      → ((t : FieldType) → Value t → UbfState B → R × UbfState B)
      → UbfState B
      → R × UbfState B
  with_value a null (jshort v) call s = call bfld_short v s
  with_value a null (jlong v) call s = call bfld_long v s
  with_value a null (jbyte v) call s = call bfld_char v s
  with_value a null (jfloat v) call s = call bfld_float v s
  with_value a null (jdouble v) call s = call bfld_double v s
  with_value a null (jstring none) call s = null s
  with_value a null (jstring (some v)) call s =
      let (r, s1) = call bfld_string v (take_elements a s) in (r, release_elements a s1)
  with_value a null (jbyte_array v) call s =
      let (r, s1) = call bfld_carray v (take_elements a s) in (r, release_elements a s1)

  unfoldable pub badd :
      UbfLib B → JvmAnswers → (object bfldid : ℕ) → JavaValue → UbfState B → UbfState B
  badd L a object bfldid value s =
      (with_value a (λ s1. (tt, on_world (ubf_throw beinval) s1)) value
        (λ t v s1. (tt, ubf_cbadd L a object bfldid t v s1)) s).1

  unfoldable pub bchg :
      UbfLib B → JvmAnswers → (object bfldid occ : ℕ) → JavaValue → UbfState B → UbfState B
  bchg L a object bfldid occ value s =
      (with_value a (λ s1. (tt, on_world (ubf_throw beinval) s1)) value
        (λ t v s1. (tt, ubf_cbchg L a object bfldid occ t v s1)) s).1

  -- Behind Baddfast: the new location is stored when it succeeded.
  unfoldable pub added_fast :
      ℕ → (loc : Location) → Status × Location × B → UbfState B → Location × UbfState B
  added_fast p loc (none, loc', b) s = (loc', record s { content = set_at s.content p b })
  added_fast p loc (some err, loc', b) s =
      (loc, on_world (ubf_throw err) (record s { content = set_at s.content p b }))

  -- The fields of the location object are read and written where the class and its fields are found.
  unfoldable pub ubf_baddfast :
      UbfLib B
      → JvmAnswers
      → (object bfldid : ℕ) → Location
      → (usrtype : FieldType) → Value usrtype
      → UbfState B
      → Location × UbfState B
  ubf_baddfast L a object bfldid loc usrtype value = in_context a loc (λ s1.
      let added =
        with_buffer (some object) loc
          (λ p s2. added_fast p loc (L.baddfast bfldid usrtype value loc (s2.content p)) s2) s1 in
      if not (field_code (L.bfldtype bfldid) == field_code usrtype)
      then (loc, on_world (ubf_throw beinval) s1)
      else if is_pending s1.world
      then (loc, s1)
      else added)

  -- JNI leaves open what is done for a string that is null.
  unfoldable pub baddfast :
      UbfLib B
      → JvmAnswers
      → (object bfldid : ℕ) → JavaValue
      → Location
      → UbfState B
      → Location × UbfState B
  baddfast L a object bfldid value loc =
      with_value a (λ s1. (loc, left_open s1)) value (ubf_baddfast L a object bfldid loc)

  -- The value that was found, or the throw; `none` for EXFAIL.
  unfoldable pub found_value : {A : Type 0} → UbfCode ⊎ A → UbfState B → Option A × UbfState B
  found_value (inl err) s = (none, on_world (ubf_throw err) s)
  found_value (inr value) s = (some value, s)

  unfoldable pub ubf_cbfind :
      UbfLib B
      → JvmAnswers
      → (object bfldid occ : ℕ) → (usrtype : FieldType) → UbfState B
      → Option (Value usrtype) × UbfState B
  ubf_cbfind L a object bfldid occ usrtype = in_context a none (λ s1.
      with_buffer (some object) none
        (λ p s2. found_value (L.cbfind bfldid occ usrtype (s2.content p)) s2) s1)

  -- NewStringUTF, or NewByteArray with its bytes, of what was found; `none` is NULL.
  unfoldable pub made_object :
      {A : Type 0} → JvmAnswers → Option A × UbfState B → Option A × UbfState B
  made_object a (none, s) = (none, s)
  made_object a (some value, s) =
      if a.made
      then (some value, s)
      else (none, on_world (λ w. record w { pending = some out_of_memory }) s)

  -- BgetShort to BgetDouble: `none` for the number EXFAIL, next to the exception.
  unfoldable pub bget :
      UbfLib B
      → JvmAnswers
      → (object bfldid occ : ℕ) → (usrtype : FieldType) → UbfState B
      → Option (Value usrtype) × UbfState B
  bget = ubf_cbfind

  -- BgetString and BgetByteArr, which make an object of Java; `none` is NULL.
  unfoldable pub bget_object :
      UbfLib B
      → JvmAnswers
      → (object bfldid occ : ℕ) → (usrtype : FieldType) → UbfState B
      → Option (Value usrtype) × UbfState B
  bget_object L a object bfldid occ usrtype s =
      made_object a (ubf_cbfind L a object bfldid occ usrtype s)
