-- ===== src/Buffers/Prepared.antt =====
-- What `ndrxj_atmi_TypedBuffer_result_prep` does to the owners.
use endurox_java.Base.{
  ℕ, ◌≡◌, ◌≢◌, ◌⊎◌, refl, ◌∙◌, Bool, true, false, Bool-cases, Option, none, some, inl, inr, ◌==◌,
  arith, if◌then◌else◌, set_at,
}
use endurox_java.Base.Bytes.{CString, codes, str_eq}
use endurox_java.Base.Bytes.Order.{str_eq_iff}
use endurox_java.Buffers.{
  BufferClass, TypedBuffer, World, Code, Choice, null_buffer, not_supported, of_class, choose,
  new_object, translate_type, keep_object, replace_object, result_prep, atmi_throw,
}
use endurox_java.Buffers.Owned.{Owned, Rest, Rest-Owned, Rest-given_up, Rest-taken}

abbrev pub OwnedWorld : World → Type 0
OwnedWorld w = Owned w.heap w.objects

pub Choice-cases :
    (c : Choice)
    → (c ≡ null_buffer) ⊎ ((c ≡ not_supported) ⊎ ((k : BufferClass) × (c ≡ of_class k)))
Choice-cases null_buffer = inl refl
Choice-cases not_supported = inr (inl refl)
Choice-cases (of_class k) = inr (inr (k, refl))

-- A new object takes a buffer that no object has, if the class for the type is the one for the buffer.
pub translate_type-Owned :
    (memory : Bool) (type : CString) (q len : ℕ) (finalize : Bool) (w : World)
    → Rest w.heap w.objects none q
    → (t : CString) × (w.heap q ≡ some t) × (choose t ≡ choose type)
    → OwnedWorld (translate_type memory type q len finalize w).1
unfolding translate_type new_object atmi_throw
translate_type-Owned memory type q len finalize w r (t, e, like) =
    elim (Choice-cases (choose type)) [
      | inl c ↦ rw (translate_type, c) (Rest-Owned w.heap w.objects q r)
      | inr (inl c) ↦ rw (translate_type, c) (Rest-Owned w.heap w.objects q r)
      | inr (inr (k, c)) ↦ elim (Bool-cases memory) [
        | inr fails ↦ rw (translate_type, c, fails) (Rest-Owned w.heap w.objects q r)
        | inl made ↦
            rw (translate_type, c, made)
              (Rest-taken w.heap w.objects q none w.next
                (record { clazz = k; do_finalize = finalize; c_ptr = q; len = len }) r
                (λ j it. absurd it) refl (λ own. (t, e, like ∙ c)))
      ]
    ]

-- The object of the call holds the buffer that was handed over, of the type that was read.
abbrev pub Holds : (idata : ℕ) → (itype : CString) → World → Option ℕ → Type 0
Holds idata itype w none = Unit
Holds idata itype w (some i) =
    ((w.objects i).c_ptr ≡ idata)
    × ((w.objects i).do_finalize ≡ true → choose itype ≡ of_class (w.objects i).clazz)

module _ (memory : Bool) (failed : Code) (idata ilen odata olen : ℕ) (itype : CString) (w : World)
    (there : odata ≢ 0 → (t : CString) × (w.heap odata ≡ some t)) where
  keep_object-Owned :
      (i : ℕ)
      → Rest w.heap w.objects (some i) odata
      → (w.objects i).c_ptr ≡ idata
      → ((w.objects i).do_finalize ≡ true → choose itype ≡ of_class (w.objects i).clazz)
      → (odata ≢ 0 → w.heap odata ≡ some itype)
      → OwnedWorld (keep_object (some i) idata ilen odata olen w).1
  unfolding keep_object
  keep_object-Owned i r at typed same =
      let b = w.objects i in
      let b' : TypedBuffer = record b {
        len = if ilen == olen then b.len else olen;
        c_ptr = if idata == odata then b.c_ptr else odata;
      } in
      let at' : b'.c_ptr ≡ odata = ground arith in
      Rest-taken w.heap w.objects odata (some i) i b' r (λ j it. it) at'
        (λ own. (itype, rw at' (same (rw at' at own.1)), typed own.0))

  replace_object-Owned :
      (object : Option ℕ) (otype : CString)
      → Rest w.heap w.objects object odata
      → (odata ≢ 0 → w.heap odata ≡ some otype)
      → OwnedWorld (replace_object memory object odata olen otype w).1
  unfolding replace_object
  replace_object-Owned none otype r at = elim (Bool-cases (odata == 0)) [
    | inl null ↦ rw null (Rest-Owned w.heap w.objects odata r)
    | inr other ↦
        rw other
          (translate_type-Owned memory otype odata olen true w r (otype, at (ground arith), refl))
  ]
  replace_object-Owned (some i) otype r at =
      let b = w.objects i in
      let b' : TypedBuffer = record b { do_finalize = false } in
      let r' = Rest-given_up w.heap w.objects odata i b' r refl in
      elim (Bool-cases (odata == 0)) [
        | inl null ↦ rw null (Rest-Owned w.heap (set_at w.objects i b') odata r')
        | inr other ↦ rw other (
            translate_type-Owned memory otype odata olen b.do_finalize
              (record w { objects = set_at w.objects i b' }) r' (otype, at (ground arith), refl))
      ]

  kept-Owned :
      (object : Option ℕ)
      → Rest w.heap w.objects object odata
      → Holds idata itype w object
      → (odata ≢ 0 → w.heap odata ≡ some itype)
      → OwnedWorld (keep_object object idata ilen odata olen w).1
  unfolding keep_object
  kept-Owned none r holds at = elim (Bool-cases (ilen == olen)) [
    | inl same ↦ rw same (Rest-Owned w.heap w.objects odata r)
    | inr other ↦ rw other (Rest-Owned w.heap w.objects odata r)
  ]
  kept-Owned (some i) r holds at = keep_object-Owned i r holds.0 holds.1 at

  by_type-Owned :
      (object : Option ℕ) (otype : CString)
      → Rest w.heap w.objects object odata
      → Holds idata itype w object
      → (odata ≢ 0 → w.heap odata ≡ some otype)
      → OwnedWorld
          (if str_eq otype itype
            then keep_object object idata ilen odata olen w
            else replace_object memory object odata olen otype w).1
  by_type-Owned object otype r holds at = elim (Bool-cases (str_eq otype itype)) [
    | inr other ↦ rw other (replace_object-Owned object otype r at)
    | inl same ↦ rw same (kept-Owned object r holds (rw ((str_eq_iff otype itype).0 same) at at))
  ]

  -- The answer of a call is prepared so that each owner has a buffer of its class and no two have
  -- the same.
  pub result_prep-Owned :
      (object : Option ℕ)
      → Rest w.heap w.objects object odata
      → Holds idata itype w object
      → OwnedWorld (result_prep memory failed object idata ilen odata olen itype w).1
  unfolding result_prep
  result_prep-Owned object r holds = elim (Bool-cases (odata == 0)) [
    | inl null ↦
        rw (result_prep, null)
          (by_type-Owned object (codes "NULL") r holds (λ ne. absurd (ne (ground arith))))
    | inr other ↦
        let (t, e) = there (ground arith) in
        rw (result_prep, other, e) (by_type-Owned object t r holds (λ ne. e))
  ]
