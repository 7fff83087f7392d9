-- ===== src/Boot/ClassPath/Tags.antt =====
-- Which options are taken for a class path.
use mathlib.Core.Path.{subst₂}
use endurox_java.Base.{
  sym, ℕ, ◌+◌, ◌<◌, ◌≡◌, ◌⊎◌, inl, inr, refl, Bool, true, false, Option, none, some, List, [], ◌∷◌,
  ◌++◌, length, length-append, arith,
}
use endurox_java.Base.Bytes.{CString, codes, strcmp, str_eq}
use endurox_java.Boot.ClassPath.{max_taglen, is_blank, skip_blanks, read_tag, cp_proc}

-- The word that is copied fits into `buf` with its NUL, whatever the option is.
pub read_tag_fits :
    (p tag : CString) → length tag < max_taglen + 1 → length (read_tag p tag) + 1 < 100
unfolding read_tag
read_tag_fits [] tag h = omega arith
read_tag_fits (c ∷ p) tag h =
    let l = length-append tag (c ∷ []) in let ih = read_tag_fits p (tag ++ c ∷ []) in ground arith

blank_cases : (c : ℕ) → is_blank c ≡ true → (c ≡ 32) ⊎ (c ≡ 9)
blank_cases c h = ground arith

module _ (split_add : List CString → CString → Option (List CString)) where
  -- What is behind `tag` is added to the list.
  abbrev Added : List CString → (tag : CString) → ℕ → CString → Type 0
  Added list tag c rest =
      cp_proc split_add list (tag ++ c ∷ rest)
      ≡ elim (split_add list (c ∷ rest)) as (λ (o : Option (List CString)). Bool × List CString) [
        | some list' ↦ (true, list')
        | none ↦ (false, list)
      ]

  Added-tag :
      (list : List CString) (rest : CString)
      → Added list (codes "-cp") 32 rest
        × Added list (codes "-cp") 9 rest
        × Added list (codes "-classpath") 32 rest
        × Added list (codes "-classpath") 9 rest
  unfolding cp_proc skip_blanks read_tag str_eq strcmp
  Added-tag list rest = (refl, refl, refl, refl)

  -- An option that starts with -cp or -classpath and a blank adds what follows to the list, and
  -- fails, with the list as it was, just when that cannot be added.
  pub cp_proc_added :
      (list : List CString) (tag : CString) (c : ℕ) (rest : CString)
      → (tag ≡ codes "-cp") ⊎ (tag ≡ codes "-classpath")
      → is_blank c ≡ true
      → cp_proc split_add list (tag ++ c ∷ rest)
        ≡ elim (split_add list (c ∷ rest)) as (λ (o : Option (List CString)). Bool × List CString) [
          | some list' ↦ (true, list')
          | none ↦ (false, list)
        ]
  cp_proc_added list tag c rest known blank =
      let (a, b, d, e) = Added-tag list rest in
      elim known [
        | inl short ↦ elim (blank_cases c blank) [
          | inl space ↦ subst₂ (λ t k. Added list t k rest) (sym short) (sym space) a
          | inr tab ↦ subst₂ (λ t k. Added list t k rest) (sym short) (sym tab) b
        ]
        | inr long ↦ elim (blank_cases c blank) [
          | inl space ↦ subst₂ (λ t k. Added list t k rest) (sym long) (sym space) d
          | inr tab ↦ subst₂ (λ t k. Added list t k rest) (sym long) (sym tab) e
        ]
      ]
