-- ===== src/Calls/Result.antt =====
-- The object that a call returns.
use endurox_java.Base.{
  ℕ, ◌≡◌, ◌≢◌, ◌⊎◌, refl, sym, ◌∙◌, Bool, true, false, Bool-cases, Option, Option-cases, none, some,
  inl, inr, ◌==◌, arith, if◌then◌else◌, set_at, set_at_self, set_at_other,
}
use endurox_java.Base.Bytes.{CString, codes, str_eq}
use endurox_java.Buffers.{
  TypedBuffer, World, Code, choose, new_object, translate_type, keep_object, replace_object,
  result_prep, atmi_throw, unset_ctx,
}
use endurox_java.Buffers.Prepared.{Choice-cases}
use endurox_java.Calls.{Reply, Service, Answers, Input, read_input, after, answer_object, tpcall}
use endurox_java.Calls.Kept.{Read, read_input-Read}

-- The object that is returned, if any, has the pointer and the length.
abbrev Carries : Option ℕ × World → (q len : ℕ) → Type 0
Carries (object, w) q len =
    (j : ℕ) → object ≡ some j → ((w.objects j).c_ptr ≡ q) × ((w.objects j).len ≡ len)

at_new : (o : ℕ → TypedBuffer) (i j : ℕ) (b : TypedBuffer) → some i ≡ some j → set_at o i b j ≡ b
at_new o i j b e = let same : i ≡ j = cc in rw same (set_at_self o j b)

translate_type-Carries :
    (memory : Bool) (type : CString) (q len : ℕ) (finalize : Bool) (w : World)
    → Carries (translate_type memory type q len finalize w) q len
unfolding translate_type new_object atmi_throw
translate_type-Carries memory type q len finalize w j e = elim (Choice-cases (choose type)) [
  | inl c ↦ cc (rw (translate_type, c) at e)
  | inr (inl c) ↦ cc (rw (translate_type, c) at e)
  | inr (inr (k, c)) ↦ elim (Bool-cases memory) [
    | inr fails ↦ cc (rw (translate_type, c, fails) at e)
    | inl made ↦
        let b : TypedBuffer = record { clazz = k; do_finalize = finalize; c_ptr = q; len = len } in
        let v = at_new w.objects w.next j b (rw (translate_type, c, made) at e) in
        rw (translate_type, c, made, v) (refl, refl)
  ]
]

abbrev pub Has : (idata ilen : ℕ) → World → Option ℕ → Type 0
Has idata ilen w none = Unit
Has idata ilen w (some i) = ((w.objects i).c_ptr ≡ idata) × ((w.objects i).len ≡ ilen)

module _ (memory : Bool) (failed : Code) (idata ilen odata olen : ℕ) (itype : CString)
    (w : World) where
  keep_object-Carries :
      (object : Option ℕ)
      → Has idata ilen w object
      → Carries (keep_object object idata ilen odata olen w) odata olen
  unfolding keep_object
  keep_object-Carries none has j e = cc
  keep_object-Carries (some i) has j e =
      let b = w.objects i in
      let b' : TypedBuffer = record b {
        len = if ilen == olen then b.len else olen;
        c_ptr = if idata == odata then b.c_ptr else odata;
      } in
      let v = at_new w.objects i j b' e in rw v (ground arith, ground arith)

  replace_object-Carries :
      (object : Option ℕ) (otype : CString)
      → Carries (replace_object memory object odata olen otype w) odata olen
  unfolding replace_object
  replace_object-Carries none otype j e = elim (Bool-cases (odata == 0)) [
    | inl null ↦ cc (rw (replace_object, null) at e)
    | inr other ↦
        rw (replace_object, other)
          (translate_type-Carries memory otype odata olen true w j
            (rw (replace_object, other) at e))
  ]
  replace_object-Carries (some i) otype j e =
      let b = w.objects i in
      let w' : World = record w {
        objects = set_at w.objects i (record b { do_finalize = false });
      } in
      elim (Bool-cases (odata == 0)) [
        | inl null ↦ cc (rw (replace_object, null) at e)
        | inr other ↦
            rw (replace_object, other)
              (translate_type-Carries memory otype odata olen b.do_finalize w' j
                (rw (replace_object, other) at e))
      ]

  by_type_cases :
      (object : Option ℕ) (otype : CString)
      → let r =
          (if str_eq otype itype
            then keep_object object idata ilen odata olen w
            else replace_object memory object odata olen otype w) in
        (r ≡ keep_object object idata ilen odata olen w)
        ⊎ ((t : CString) × (r ≡ replace_object memory object odata olen t w))
  by_type_cases object otype = elim (Bool-cases (str_eq otype itype)) [
    | inl same ↦ inl (rw same refl)
    | inr other ↦ inr (otype, rw other refl)
  ]

  result_prep_cases :
      (object : Option ℕ)
      → let r = result_prep memory failed object idata ilen odata olen itype w in
        (r ≡ (none, atmi_throw none false failed w))
        ⊎ ((r ≡ keep_object object idata ilen odata olen w)
            ⊎ ((t : CString) × (r ≡ replace_object memory object odata olen t w)))
  unfolding result_prep
  result_prep_cases object = elim (Bool-cases (odata == 0)) [
    | inl null ↦ rw (result_prep, null) (inr (by_type_cases object (codes "NULL")))
    | inr other ↦ elim (Option-cases (w.heap odata)) [
      | inl gone ↦ rw (result_prep, other, gone) (inl refl)
      | inr (t, e) ↦ rw (result_prep, other, e) (inr (by_type_cases object t))
    ]
  ]

  pub result_prep-Carries :
      (object : Option ℕ)
      → Has idata ilen w object
      → Carries (result_prep memory failed object idata ilen odata olen itype w) odata olen
  result_prep-Carries object has j e = elim (result_prep_cases object) [
    | inl p ↦ cc (rw p at e)
    | inr (inl p) ↦ rw p (keep_object-Carries object has j (rw p at e))
    | inr (inr (t, p)) ↦ rw p (replace_object-Carries object t j (rw p at e))
  ]

abbrev ptr_of : World → Option ℕ → ℕ
ptr_of w none = 0
ptr_of w (some i) = (w.objects i).c_ptr

abbrev len_of : World → Option ℕ → ℕ
len_of w none = 0
len_of w (some i) = (w.objects i).len

-- The reply of the service to the buffer of the object.
abbrev pub reply_to : Service → Option ℕ → World → Reply
reply_to s object w = s (ptr_of w object) (len_of w object) w.heap

Read-ptr_of :
    (object : Option ℕ) (w : World) (inp : Input)
    → Read w object inp
    → (inp.ibuf ≡ ptr_of w object) × (inp.ilen ≡ len_of w object)
Read-ptr_of none w inp read = read
Read-ptr_of (some i) w inp read = (read.0, read.2)

Read-Has :
    (object : Option ℕ) (w w1 : World) (inp : Input) (r : Reply)
    → w1.objects ≡ w.objects
    → Read w object inp
    → Has inp.ibuf inp.ilen (record w1 { heap = r.heap }) object
Read-Has none w w1 inp r same read = tt
Read-Has (some i) w w1 inp r same read = rw same (sym read.0, sym read.2)

-- An object that tpcall returns holds the buffer and the length of the reply to the buffer that was
-- handed over, and the service has succeeded.
pub tpcall-Carries :
    (a : Answers) (s : Service) (object : Option ℕ) (w : World) (j : ℕ)
    → (tpcall a s object w).0 ≡ some j
    → let r = reply_to s object w in
      let b = (tpcall a s object w).1.objects j in
      (r.success ≡ true) × (b.c_ptr ≡ r.obuf) × (b.len ≡ r.olen)
unfolding tpcall unset_ctx
tpcall-Carries a s object w j e =
    let (inp, w1) = read_input a true (codes "NULL") object w in
    let (same_heap, same_objects, read) = read_input-Read a (codes "NULL") object w in
    let r = s inp.ibuf inp.ilen w1.heap in
    elim (Bool-cases inp.ok) [
      | inr stop ↦ cc (rw (tpcall, stop) at e)
      | inl ok ↦ elim (Bool-cases r.success) [
        | inr fails ↦ cc (rw (tpcall, ok, fails) at e)
        | inl success ↦
            let (at, size) = Read-ptr_of object w inp (read ok) in
            let same : reply_to s object w ≡ r = rw (at, size, same_heap) refl in
            let answer = answer_object a object inp r w1 in
            let out : tpcall a s object w ≡ (answer.0, unset_ctx answer.1) =
              rw (tpcall, ok, success) refl in
            let (p, l) =
              result_prep-Carries a.memory a.failed inp.ibuf inp.ilen r.obuf r.olen inp.itype
                (after a r w1) object (Read-Has object w w1 inp r same_objects (read ok)) j
                (rw out at e) in
            rw same (success, rw out p, rw out l)
      ]
    ]

-- Where the answer has another type, the object of the call no longer frees a buffer, but keeps its
-- pointer, also when the library has freed what it points to.
pub result_prep_stale :
    (memory : Bool) (failed : Code) (idata ilen odata olen : ℕ) (itype otype : CString) (i : ℕ)
    (w : World)
    → odata ≢ 0
    → w.heap odata ≡ some otype
    → str_eq otype itype ≡ false
    → i ≢ w.next
    → (result_prep memory failed (some i) idata ilen odata olen itype w).1.objects i
      ≡ record (w.objects i) { do_finalize = false }
unfolding result_prep replace_object translate_type new_object atmi_throw
result_prep_stale memory failed idata ilen odata olen itype otype i w some_data found differ old =
    let there : (odata == 0) ≡ false = ground arith in
    let off : TypedBuffer = record (w.objects i) { do_finalize = false } in
    let kept = set_at_self w.objects i off in
    let ne : w.next ≢ i = λ e. old (sym e) in
    elim (Choice-cases (choose otype)) [
      | inl c ↦
          rw (result_prep, there, found, differ, replace_object, there, translate_type, c) kept
      | inr (inl c) ↦
          rw (result_prep, there, found, differ, replace_object, there, translate_type, c) kept
      | inr (inr (k, c)) ↦ elim (Bool-cases memory) [
        | inr fails ↦
            rw
              (
                result_prep, there, found, differ, replace_object, there, translate_type, c,
                new_object, fails,
              )
              kept
        | inl made ↦
            rw
              (
                result_prep, there, found, differ, replace_object, there, translate_type, c,
                new_object, made,
              )
              (set_at_other (set_at w.objects i off) w.next i _ ne ∙ kept)
      ]
    ]
