-- ===== src/Convert.antt =====
-- libsrc/c/util.c, `ndrxj_cvt_to_c` and `ndrxj_cvt_to_java`: objects between Java and C by a table of
-- their fields, and the table of TPQCTL (libsrc/c/TPQCTL.c). The offsets of a table are those of
-- distinct members, so that an object is a tuple with a component for each row.
pub mod Fields
pub mod Tranid
use endurox_java.Base.{
  ℕ, zero, suc, ◌+◌, Bool, true, false, ◌&&◌, Option, none, some, List, [], ◌∷◌, ◌==◌,
  if◌then◌else◌, length, replicate,
}
use endurox_java.Base.Bytes.{CString}
use endurox_java.Linker.Settings.{BufferLib}

-- A row of a table, by its `ftype`: "J", a string whose buffer has `room + 1` bytes, "[B" of a size.
pub data Field : Type 0 where
  long_field : Field
  string_field : (room : ℕ) → Field
  bytes_field : (size : ℕ) → Field

-- A long is its bit pattern.
abbrev pub CField : Field → Type 0
CField long_field = ℕ
CField (string_field room) = CString
CField (bytes_field size) = List ℕ

-- Strings and arrays may be null. A string of Java is the bytes that GetStringUTFChars gives of it.
abbrev pub JField : Field → Type 0
JField long_field = ℕ
JField (string_field room) = Option CString
JField (bytes_field size) = Option (List ℕ)

abbrev pub CObject : List Field → Type 0
CObject [] = Unit
CObject (f ∷ tab) = CField f × CObject tab

abbrev pub JObject : List Field → Type 0
JObject [] = Unit
JObject (f ∷ tab) = JField f × JObject tab

-- The table `M_fieldmap` of TPQCTL, with the sizes of the members, which the Enduro/X headers fix.
abbrev pub qctl_fieldmap : (diagmsg msgid corrid replyqueue failurequeue : ℕ) → List Field
qctl_fieldmap diagmsg msgid corrid replyqueue failurequeue =
    long_field
    ∷ long_field
    ∷ long_field
    ∷ string_field diagmsg
    ∷ bytes_field msgid
    ∷ bytes_field corrid
    ∷ string_field replyqueue
    ∷ string_field failurequeue
    ∷ long_field
    ∷ long_field
    ∷ long_field
    ∷ long_field
    ∷ long_field
    ∷ []

-- `memory` says whether the JVM gives the characters and arrays that it is asked for.
module _ (B : BufferLib) (memory : Bool) where
  open B use {strcpy_safe}

  -- A round of the loop of `ndrxj_cvt_to_c`: the new value of the member, or none for EXFAIL_OUT.
  unfoldable pub to_c_field : (f : Field) → JField f → Option (CField f)
  to_c_field long_field j = some j
  to_c_field (string_field room) none = some (strcpy_safe (room + 1) [])
  to_c_field (string_field room) (some n_str) =
      if memory then some (strcpy_safe (room + 1) n_str) else none
  to_c_field (bytes_field size) none = some (replicate size 0)
  to_c_field (bytes_field size) (some n_carray) =
      if memory && length n_carray == size then some n_carray else none

  -- `ndrxj_cvt_to_c` on an object that is there; a failure leaves the members behind it as they were.
  unfoldable pub cvt_to_c : (tab : List Field) → JObject tab → CObject tab → Bool × CObject tab
  cvt_to_c [] j c = (true, tt)
  cvt_to_c (f ∷ tab) (j, js) (c, cs) =
      let (ok, cs') = cvt_to_c tab js cs in
      elim (to_c_field f j) [ none ↦ (false, (c, cs)) | some v ↦ (ok, (v, cs')) ]

-- `new_string_utf` is NewStringUTF, which JNI defines on modified UTF-8.
module _ (new_string_utf : CString → CString) (memory : Bool) where
  -- A round of the loop of `ndrxj_cvt_to_java`: NewStringUTF that fails stores null.
  unfoldable pub to_java_field : (f : Field) → CField f → Option (JField f)
  to_java_field long_field c = some c
  to_java_field (string_field room) c = some (if memory then some (new_string_utf c) else none)
  to_java_field (bytes_field size) c = if memory then some (some c) else none

  -- `ndrxj_cvt_to_java` into an object that is there.
  unfoldable pub cvt_to_java : (tab : List Field) → CObject tab → JObject tab → Bool × JObject tab
  cvt_to_java [] c j = (true, tt)
  cvt_to_java (f ∷ tab) (c, cs) (j, js) =
      let (ok, js') = cvt_to_java tab cs js in
      elim (to_java_field f c) [ none ↦ (false, (j, js)) | some v ↦ (ok, (v, js')) ]
