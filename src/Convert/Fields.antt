-- ===== src/Convert/Fields.antt =====
-- What fits in a C object, and the way to Java and back.
use endurox_java.Base.{
  ltb, ◌&&◌, ℕ, zero, suc, ◌+◌, ◌<◌, ◌≡◌, refl, ap, ◌∙◌, Bool, Bool-cases, inl, inr, true,
  Option-cases, none, some, List, [], ◌∷◌, arith, length, length-take_le, take, replicate,
}
use endurox_java.Base.Bytes.{CString}
use endurox_java.Linker.Settings.{BufferLib}
use endurox_java.Convert.{
  Field, long_field, string_field, bytes_field, CField, JField, CObject, JObject, to_c_field,
  cvt_to_c, to_java_field, cvt_to_java,
}

-- A string fits with its NUL, an array has its size.
abbrev pub FieldFits : (f : Field) → CField f → Type 0
FieldFits long_field c = Unit
FieldFits (string_field room) c = length c < room + 1
FieldFits (bytes_field size) c = length c ≡ size

abbrev pub Fits : (tab : List Field) → CObject tab → Type 0
Fits [] c = Unit
Fits (f ∷ tab) (c, cs) = FieldFits f c × Fits tab cs

-- Bytes of ASCII without the NUL, which are the same in modified UTF-8.
abbrev pub is_ascii : CString → Bool
is_ascii [] = true
is_ascii (b ∷ s) = ltb 0 b && ltb b 128 && is_ascii s

-- Each string of the object is ASCII.
abbrev pub IsAscii : (tab : List Field) → CObject tab → Type 0
IsAscii [] c = Unit
IsAscii (long_field ∷ tab) (c, cs) = IsAscii tab cs
IsAscii (string_field room ∷ tab) (c, cs) = (is_ascii c ≡ true) × IsAscii tab cs
IsAscii (bytes_field size ∷ tab) (c, cs) = IsAscii tab cs

length-replicate : (n : ℕ) → length {A = ℕ} (replicate n 0) ≡ n
length-replicate zero = refl
length-replicate (suc n) = ap suc (length-replicate n)

take_short : (n : ℕ) (s : CString) → length s < n + 1 → take n s ≡ s
take_short zero [] h = refl
take_short zero (x ∷ s) h = absurd (omega arith)
take_short (suc n) [] h = refl
take_short (suc n) (x ∷ s) h = ap (λ r. x ∷ r) (take_short n s (omega arith))

module _ (B : BufferLib) (memory : Bool) where
  copied : (room : ℕ) (s : CString) → length (B.strcpy_safe (room + 1) s) < room + 1
  copied room s = rw (B.strcpy_safe_fits room s) (length-take_le room s)

  to_c_field-FieldFits :
      (f : Field) (j : JField f) (c : CField f) → to_c_field B memory f j ≡ some c → FieldFits f c
  unfolding to_c_field
  to_c_field-FieldFits long_field j c e = tt
  to_c_field-FieldFits (string_field room) none c e =
      let same : B.strcpy_safe (room + 1) [] ≡ c = cc in rw (← same) (copied room [])
  to_c_field-FieldFits (string_field room) (some s) c e = elim (Bool-cases memory) [
    | inl holds ↦
        let same : B.strcpy_safe (room + 1) s ≡ c = ground arith in rw (← same) (copied room s)
    | inr fails ↦ ground arith
  ]
  to_c_field-FieldFits (bytes_field size) none c e =
      let same : replicate size 0 ≡ c = cc in rw (← same) (length-replicate size)
  to_c_field-FieldFits (bytes_field size) (some b) c e = ground arith

  -- Whatever the Java object holds, a conversion that succeeds gives a C object in which each string
  -- has room for its NUL and each array has its size.
  pub cvt_to_c-Fits :
      (tab : List Field) (j : JObject tab) (c : CObject tab)
      → (cvt_to_c B memory tab j c).0 ≡ true
      → Fits tab (cvt_to_c B memory tab j c).1
  unfolding cvt_to_c
  cvt_to_c-Fits [] j c ok = tt
  cvt_to_c-Fits (f ∷ tab) (j, js) (c, cs) ok = elim (Option-cases (to_c_field B memory f j)) [
    | inl fails ↦ cc (rw (cvt_to_c, fails) at ok)
    | inr (v, e) ↦
        rw (cvt_to_c, e)
          (to_c_field-FieldFits f j v e, cvt_to_c-Fits tab js cs (rw (cvt_to_c, e) at ok))
  ]

module _ (B : BufferLib) (new_string_utf : CString → CString)
    (keeps_ascii : (s : CString) → is_ascii s ≡ true → new_string_utf s ≡ s) where
  -- A C object that fits and whose strings are ASCII goes to Java and comes back as it was, whatever the
  -- two objects that are written held before, if NewStringUTF keeps ASCII.
  pub cvt_round_trip :
      (tab : List Field) (c old : CObject tab) (j : JObject tab)
      → Fits tab c
      → IsAscii tab c
      → (j' : JObject tab) × (cvt_to_java new_string_utf true tab c j ≡ (true, j'))
        × (cvt_to_c B true tab j' old ≡ (true, c))
  unfolding cvt_to_java cvt_to_c to_java_field to_c_field
  cvt_round_trip [] c old j fits ascii = (tt, refl, refl)
  cvt_round_trip (long_field ∷ tab) (c, cs) (old, olds) (j, js) (fit, fits) ascii =
      let (js', r, r') = cvt_round_trip tab cs olds js fits ascii in
      ((c, js'), rw (cvt_to_java, r) refl, rw (cvt_to_c, r') refl)
  cvt_round_trip (string_field room ∷ tab) (c, cs) (old, olds) (j, js) (fit, fits) (plain, ascii) =
      let (js', r, r') = cvt_round_trip tab cs olds js fits ascii in
      let back : B.strcpy_safe (room + 1) c ≡ c =
        B.strcpy_safe_fits room c ∙ take_short room c fit in
      ((some c, js'), rw (cvt_to_java, r, keeps_ascii c plain) refl, rw (cvt_to_c, r', back) refl)
  cvt_round_trip (bytes_field size ∷ tab) (c, cs) (old, olds) (j, js) (fit, fits) ascii =
      let (js', r, r') = cvt_round_trip tab cs olds js fits ascii in
      let e : to_c_field B true (bytes_field size) (some c) ≡ some c = ground arith in
      ((some c, js'), rw (cvt_to_java, r) refl, rw (cvt_to_c, e, r') refl)
