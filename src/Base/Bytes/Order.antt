-- ===== src/Base/Bytes/Order.antt =====
-- `strcmp` is a strict total order on byte strings.
use mathlib.Core.List.{[], ◌∷◌}
use mathlib.Core.Path.{◌≡◌, refl}
use mathlib.Core.Bool.{true}
use mathlib.Core.Logic.{◌↔◌, ◌≢◌}
use native.Mathlib.Omega.{arith}
use Prim.Native.Nat.{Ordering}
use endurox_java.Base.Bytes.{CString, strcmp, str_eq}

pub strcmp_refl : (s : CString) → strcmp s s ≡ Ordering.eq
unfolding strcmp
strcmp_refl [] = refl
strcmp_refl (x ∷ s) = ground (arith, strcmp_refl s)

pub eq_of_strcmp : (s t : CString) → strcmp s t ≡ Ordering.eq → s ≡ t
unfolding strcmp
eq_of_strcmp [] [] h = refl
eq_of_strcmp [] (y ∷ t) h = cc
eq_of_strcmp (x ∷ s) [] h = cc
eq_of_strcmp (x ∷ s) (y ∷ t) h = ground (arith, eq_of_strcmp s t)

pub strcmp_flip : (s t : CString) → strcmp s t ≡ Ordering.gt → strcmp t s ≡ Ordering.lt
unfolding strcmp
strcmp_flip [] [] h = cc
strcmp_flip [] (y ∷ t) h = cc
strcmp_flip (x ∷ s) [] h = refl
strcmp_flip (x ∷ s) (y ∷ t) h = ground (arith, strcmp_flip s t)

pub strcmp_flip_lt : (s t : CString) → strcmp s t ≡ Ordering.lt → strcmp t s ≡ Ordering.gt
unfolding strcmp
strcmp_flip_lt [] [] h = cc
strcmp_flip_lt [] (y ∷ t) h = refl
strcmp_flip_lt (x ∷ s) [] h = cc
strcmp_flip_lt (x ∷ s) (y ∷ t) h = ground (arith, strcmp_flip_lt s t)

pub strcmp_trans :
    (s t u : CString)
    → strcmp s t ≡ Ordering.lt
    → strcmp t u ≡ Ordering.lt
    → strcmp s u ≡ Ordering.lt
unfolding strcmp
strcmp_trans [] [] u h k = cc
strcmp_trans [] (y ∷ t) [] h k = cc
strcmp_trans [] (y ∷ t) (z ∷ u) h k = refl
strcmp_trans (x ∷ s) [] u h k = cc
strcmp_trans (x ∷ s) (y ∷ t) [] h k = cc
strcmp_trans (x ∷ s) (y ∷ t) (z ∷ u) h k = ground (arith, strcmp_trans s t u)

-- A test by `str_eq` decides equality.
pub str_eq_iff : (s t : CString) → (str_eq s t ≡ true) ↔ (s ≡ t)
unfolding str_eq
str_eq_iff s t = (λ h. eq_of_strcmp s t (ground arith), λ e. rw e (ground (arith, strcmp_refl t)))

pub strcmp_not_gt_trans :
    (s t u : CString)
    → strcmp s t ≢ Ordering.gt
    → strcmp t u ≢ Ordering.gt
    → strcmp s u ≢ Ordering.gt
unfolding strcmp
strcmp_not_gt_trans [] [] u h k = k
strcmp_not_gt_trans [] (y ∷ t) [] h k = ground arith
strcmp_not_gt_trans [] (y ∷ t) (z ∷ u) h k = ground arith
strcmp_not_gt_trans (x ∷ s) [] u h k = absurd (h refl)
strcmp_not_gt_trans (x ∷ s) (y ∷ t) [] h k = absurd (k refl)
strcmp_not_gt_trans (x ∷ s) (y ∷ t) (z ∷ u) h k = ground (arith, strcmp_not_gt_trans s t u)
