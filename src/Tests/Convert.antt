-- ===== src/Tests/Convert.antt =====
-- The theorems on converted objects, applied to a table with a row of each type and to a small table
-- of TPQCTL.
use endurox_java.Buffers.{World, out_of_memory, tpeinval}
use endurox_java.Calls.Transaction.{tpsuspend, tpresume, suspend_resume}
use endurox_java.Tests.Calls.{answers, start}
use endurox_java.Base.{
  if◌then◌else◌, ltb, ◌&&◌, ◌≡◌, refl, true, false, none, some, List, [], ◌∷◌, arith,
}
use endurox_java.Base.Bytes.{CString, codes}
use endurox_java.Convert.{
  Field, long_field, string_field, bytes_field, CObject, JObject, qctl_fieldmap, to_c_field,
  cvt_to_c, cvt_to_java,
}
use endurox_java.Convert.Fields.{Fits, is_ascii, cvt_to_c-Fits, cvt_round_trip}
use endurox_java.Convert.Tranid.{tranid_fieldmap, created}
use endurox_java.Tests.Codegen.{buffers}

abbrev rows : List Field
rows = long_field ∷ string_field 3 ∷ bytes_field 2 ∷ []

-- A string that is too long is cut; a null array is zeros.
abbrev given : JObject rows
given = (5, (some (codes "abcde"), (none, tt)))

abbrev written : CObject rows
written = (5, (codes "abc", (0 ∷ 0 ∷ [], tt)))

abbrev blank : CObject rows
blank = (0, ([], (9 ∷ 9 ∷ [], tt)))

cuts : cvt_to_c buffers true rows given blank ≡ (true, written)
unfolding cvt_to_c to_c_field
cuts = refl

-- An array of another length fails, behind the members that were written before it.
length_fails :
    cvt_to_c buffers true rows (5, (some (codes "a"), (some (1 ∷ []), tt))) blank
    ≡ (false, (5, (codes "a", (9 ∷ 9 ∷ [], tt))))
unfolding cvt_to_c to_c_field
length_fails = refl

cvt_to_c-Fits_example : Fits rows (cvt_to_c buffers true rows given blank).1
cvt_to_c-Fits_example = cvt_to_c-Fits buffers true rows given blank (rw cuts refl)

abbrev queue : List Field
queue = qctl_fieldmap 4 2 2 4 4

abbrev control : CObject queue
control = (
  1,
  (
    2,
    (
      3,
      (codes "none", (7 ∷ 8 ∷ [], (0 ∷ 0 ∷ [], (codes "RPLY", ([], (4, (5, (6, (7, (8, tt)))))))))),
    ),
  ),
)

abbrev old_control : CObject queue
old_control = (0, (0, (0, ([], ([], ([], ([], (codes "FAIL", (0, (0, (0, (0, (0, tt)))))))))))))

abbrev fresh : JObject queue
fresh = (0, (0, (0, (none, (none, (none, (none, (none, (0, (0, (0, (0, (0, tt)))))))))))))

-- A NewStringUTF that cuts a string in front of a byte that is not ASCII.
abbrev new_string : CString → CString
new_string [] = []
new_string (b ∷ s) = let rest = new_string s in if ltb 0 b && ltb b 128 then b ∷ rest else []

new_string-is_ascii : (s : CString) → is_ascii s ≡ true → new_string s ≡ s
new_string-is_ascii [] plain = refl
new_string-is_ascii (b ∷ s) plain =
    let rest = new_string-is_ascii s (ground arith) in
    let first : (ltb 0 b && ltb b 128) ≡ true = ground arith in rw (first, rest) refl

cvt_round_trip_example :
    (j : JObject queue) × (cvt_to_java new_string true queue control fresh ≡ (true, j))
    × (cvt_to_c buffers true queue j old_control ≡ (true, control))
cvt_round_trip_example =
    cvt_round_trip buffers new_string new_string-is_ascii queue control old_control fresh
      (
        tt,
        (
          tt,
          (
            tt,
            (
              omega arith,
              (refl, (refl, (omega arith, (omega arith, (tt, (tt, (tt, (tt, (tt, tt))))))))),
            ),
          ),
        ),
      )
      (refl, (refl, (refl, tt)))

abbrev suspended : CObject (tranid_fieldmap 2)
suspended = (7 ∷ 8 ∷ [], tt)

suspend_resume_example :
    let quiet : World = record start { pending = none; ctx_set = false } in
    (jtid : JObject (tranid_fieldmap 2)) × (tpsuspend answers buffers 2 out_of_memory true
        (some suspended)
        tpeinval
        quiet
      ≡ (some (created, jtid), quiet))
    × (tpresume answers buffers 2 out_of_memory jtid ([], tt) (λ tid. none) quiet
        ≡ (some suspended, quiet))
suspend_resume_example =
    suspend_resume answers buffers 2 out_of_memory suspended ([], tt) tpeinval (λ tid. none) start
      refl refl
