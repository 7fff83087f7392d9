-- ===== src/Convert/Tranid.antt =====
-- libsrc/c/TPTRANID.c: the id of a suspended transaction, between Java and C.
use endurox_java.Base.{
  ℕ, ◌≡◌, refl, Bool, true, false, not, ◌&&◌, Option, none, some, List, [], ◌∷◌, length,
  if◌then◌else◌, arith,
}
use endurox_java.Linker.Settings.{BufferLib}
use endurox_java.Convert.{
  Field, bytes_field, CObject, JObject, to_c_field, cvt_to_c, to_java_field, cvt_to_java,
}

-- `M_fieldmap`; the Enduro/X headers fix the size of the id.
abbrev pub tranid_fieldmap : (size : ℕ) → List Field
tranid_fieldmap size = bytes_field size ∷ []

-- What a returned reference stands for: the object that was passed, a new one, or a new one whose
-- reference was deleted before the return.
pub data Returned : Type 0 where
  passed created deleted : Returned

module _ (B : BufferLib) (memory : Bool) (size : ℕ) where
  -- `pending` says whether an exception is pending behind the conversion. The result has the status,
  -- the C object, and whether an exception is pending at the return.
  unfoldable pub tranid_translate2c :
      (pending : Bool)
      → JObject (tranid_fieldmap size)
      → CObject (tranid_fieldmap size)
      → Bool × CObject (tranid_fieldmap size) × Bool
  tranid_translate2c pending tid_java tid_c =
      let (ok, tid_c') = cvt_to_c B memory (tranid_fieldmap size) tid_java tid_c in
      (ok, tid_c', if not ok && not pending then true else pending)

  -- The part behind the choice of the object; `own` says that it was made here. No row of the table is a
  -- string.
  unfoldable pub tranid_fill :
      (own pending : Bool)
      → CObject (tranid_fieldmap size)
      → JObject (tranid_fieldmap size)
      → Returned × JObject (tranid_fieldmap size) × Bool
  tranid_fill own pending tid_c ret_obj =
      let (ok, ret_obj') = cvt_to_java (λ s. s) memory (tranid_fieldmap size) tid_c ret_obj in
      (
        if not own then passed else if ok then created else deleted,
        ret_obj',
        if not ok && not pending then true else pending,
      )

  -- None: NewObject gave NULL, and the fields of NULL are set.
  unfoldable pub tranid_translate2java :
      (given pending : Bool)
      → Option (JObject (tranid_fieldmap size))
      → CObject (tranid_fieldmap size)
      → Option (Returned × JObject (tranid_fieldmap size) × Bool)
  tranid_translate2java given pending none tid_c =
      if given then some (tranid_fill true pending tid_c (none, tt)) else none
  tranid_translate2java given pending (some tid_java) tid_c =
      some (tranid_fill false pending tid_c tid_java)

back_to_c :
    (B : BufferLib) (size : ℕ) (tid old : CObject (tranid_fieldmap size))
    → length tid.0 ≡ size
    → tranid_translate2c B true size false (some tid.0, tt) old ≡ (true, tid, false)
unfolding tranid_translate2c cvt_to_c to_c_field
back_to_c B size tid old fits =
    let e : to_c_field B true (bytes_field size) (some tid.0) ≡ some tid.0 = ground arith in
    rw (cvt_to_c, e) refl

-- An id of the right length that is given to Java, in a new object or one that is passed, and taken
-- back, is the same id, without an exception. Without memory for the array an exception is pending,
-- and a new object is returned although its reference was deleted.
pub tranid_lem :
    (B : BufferLib) (size : ℕ) (tid old : CObject (tranid_fieldmap size))
    (tid_java : Option (JObject (tranid_fieldmap size)))
    → length tid.0 ≡ size
    → let made = elim tid_java as (λ (o : Option (JObject (tranid_fieldmap size))). Bool) [
      | none ↦ true
      | some j ↦ false
    ] in
      ((j : JObject (tranid_fieldmap size)) × (tranid_translate2java B true size true false tid_java
            tid
          ≡ some (if made then created else passed, j, false))
        × (tranid_translate2c B true size false j old ≡ (true, tid, false)))
      × ((j : JObject (tranid_fieldmap size)) × (tranid_translate2java B false size true false
              tid_java tid
            ≡ some (if made then deleted else passed, j, true)))
unfolding tranid_translate2java tranid_fill tranid_translate2c cvt_to_java cvt_to_c to_c_field
    to_java_field
tranid_lem B size (t, u) old none fits =
    (((some t, tt), refl, back_to_c B size (t, u) old fits), ((none, tt), refl))
tranid_lem B size (t, u) old (some j) fits =
    (((some t, tt), refl, back_to_c B size (t, u) old fits), (j, refl))
