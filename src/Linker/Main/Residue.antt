-- ===== src/Linker/Main/Residue.antt =====
-- What is left of a list of deeds, and of the three parts of the clean-up.
use endurox_java.Base.{
  ◌≡◌, ◌⊎◌, inl, inr, refl, Bool, true, false, not, ◌&&◌, Option, none, some, List, [], ◌∷◌, ◌++◌,
  if◌then◌else◌,
}
use endurox_java.Base.Bytes.{CString, str_eq}
use endurox_java.Base.Bytes.Order.{str_eq_iff}
use endurox_java.Linker.Codegen.{is_empty}
use endurox_java.Linker.Main.{
  Deed, pool_started, pool_stopped, dir_made, entered, left, removed, extracted, built,
}

-- What is left of the deeds: whether threads run, whether the process is in the work directory, and
-- the work directory that exists.
pub record Residue : Type 0 where
  pub threads : Bool
  pub inside : Bool
  pub dir : Option CString

abbrev pub residue_step : Deed → Residue → Residue
residue_step pool_started r = record r { threads = true }
residue_step pool_stopped r = record r { threads = false }
residue_step (dir_made d) r = record r { dir = some d }
residue_step (entered d) r = record r { inside = true }
residue_step (left d) r = record r { inside = false }
residue_step (removed d) r = record r {
  dir = elim r.dir as (λ (o : Option CString). Option CString) [
    | none ↦ none
    | some e ↦ if str_eq e d then none else some e
  ];
}
residue_step (extracted p) r = r
residue_step (built actions) r = r

abbrev pub residue : List Deed → Residue → Residue
residue [] r = r
residue (d ∷ ds) r = residue ds (residue_step d r)

abbrev pub nothing : Residue
nothing = record { threads = false; inside = false; dir = none }

pub residue-append :
    (xs ys : List Deed) (r : Residue) → residue (xs ++ ys) r ≡ residue ys (residue xs r)
residue-append [] ys r = refl
residue-append (x ∷ xs) ys r = residue-append xs ys (residue_step x r)

abbrev pub is_some : Option CString → Bool
is_some none = false
is_some (some d) = true

-- The three parts of the clean-up.
abbrev pub stop_deeds : Bool → List Deed
stop_deeds on = if on then pool_stopped ∷ [] else []

abbrev pub leave_deeds : CString → List Deed
leave_deeds owd = if is_empty owd then [] else left owd ∷ []

abbrev pub remove_deeds : (keep_temp : Bool) → CString → List Deed
remove_deeds keep_temp wd = if not keep_temp && not (is_empty wd) then removed wd ∷ [] else []

stop_lem :
    (on b : Bool) (dir : Option CString)
    → residue (stop_deeds on) (record { threads = on; inside = b; dir = dir })
      ≡ record { threads = false; inside = b; dir = dir }
stop_lem true b dir = refl
stop_lem false b dir = refl

leave_lem :
    (b : Bool) (dir : Option CString) (owd : CString)
    → (b ≡ false) ⊎ (is_empty owd ≡ false)
    → residue (leave_deeds owd) (record { threads = false; inside = b; dir = dir })
      ≡ record { threads = false; inside = false; dir = dir }
leave_lem b dir [] (inl out) = rw out refl
leave_lem b dir [] (inr known) = cc
leave_lem b dir (c ∷ owd) back = refl

remove_lem :
    (dir : Option CString) (wd : CString) (keep_temp : Bool)
    → (dir ≡ none) ⊎ ((dir ≡ some wd) × (is_empty wd ≡ false))
    → let r =
        residue
          (remove_deeds keep_temp wd)
          (record { threads = false; inside = false; dir = dir }) in
      (r.threads ≡ false) × (r.inside ≡ false) × ((is_some r.dir && not keep_temp) ≡ false)
remove_lem none wd true there = (refl, refl, refl)
remove_lem (some d) wd true there = (refl, refl, refl)
remove_lem none [] false there = (refl, refl, refl)
remove_lem none (c ∷ wd) false there = (refl, refl, refl)
remove_lem (some d) [] false (inl nowhere) = cc
remove_lem (some d) [] false (inr (same, named)) = cc
remove_lem (some d) (c ∷ wd) false (inl nowhere) = cc
remove_lem (some d) (c ∷ wd) false (inr (same, named)) =
    let own : str_eq d (c ∷ wd) ≡ true = (str_eq_iff d (c ∷ wd)).1 (cc) in rw own (refl, refl, refl)

pub closing_lem :
    (on b : Bool) (dir : Option CString) (owd wd : CString) (keep_temp : Bool)
    → (b ≡ false) ⊎ (is_empty owd ≡ false)
    → (dir ≡ none) ⊎ ((dir ≡ some wd) × (is_empty wd ≡ false))
    → let r = residue (remove_deeds keep_temp wd) (
        residue
          (leave_deeds owd)
          (residue (stop_deeds on) (record { threads = on; inside = b; dir = dir }))) in
      (r.threads ≡ false) × (r.inside ≡ false) × ((is_some r.dir && not keep_temp) ≡ false)
closing_lem on b dir owd wd keep_temp back there =
    rw (stop_lem on b dir, leave_lem b dir owd back) (remove_lem dir wd keep_temp there)
