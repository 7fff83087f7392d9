-- ===== src/Base/Maps.antt =====
-- Functions on native numbers with one value changed.
use Prim.Native.Nat.{ℕ}
use mathlib.Core.Path.{◌≡◌, ap, ◌∙◌, fun_ext}
use mathlib.Core.Logic.{◌≢◌, ◌⊎◌, inl, inr}
use native.Mathlib.Omega.{arith}
use endurox_java.Base.Tests.{◌==◌, Bool-cases, if◌then◌else◌}

module _ {ℓ} {A : Type ℓ} where
  abbrev pub set_at : (ℕ → A) → ℕ → A → ℕ → A
  set_at f i a j = if i == j then a else f j

  pub set_at_self : (f : ℕ → A) (i : ℕ) (a : A) → set_at f i a i ≡ a
  set_at_self f i a = ground arith

  pub set_at_other : (f : ℕ → A) (i j : ℕ) (a : A) → i ≢ j → set_at f i a j ≡ f j
  set_at_other f i j a ne = ground arith

  pub set_at-cases :
      (f : ℕ → A) (i : ℕ) (a : A) (j : ℕ)
      → ((i ≡ j) × (set_at f i a j ≡ a)) ⊎ ((i ≢ j) × (set_at f i a j ≡ f j))
  set_at-cases f i a j = elim (Bool-cases (i == j)) [
    | inl same ↦ inl (ground arith, ground arith)
    | inr other ↦ inr (ground arith, ground arith)
  ]

  pub set_at_same : (f : ℕ → A) (i : ℕ) → set_at f i (f i) ≡ f
  set_at_same f i =
      fun_ext λ j. elim (set_at-cases f i (f i) j) [ inl (e, v) ↦ v ∙ ap f e | inr (ne, v) ↦ v ]
