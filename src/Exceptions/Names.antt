-- ===== src/Exceptions/Names.antt =====
-- The names of the classes of exceptions tell the codes and the kinds apart.
use endurox_java.Base.{
  ℕ, zero, suc, ◌+◌, ◌<◌, ◌≡◌, ◌≢◌, refl, sym, ap, ◌∙◌, List, [], ◌∷◌, ◌++◌, some, arith, length,
  take, drop, get_elem?, length-append, take-append, drop-append,
}
use endurox_java.Base.Bytes.{CString, codes, fit}
use endurox_java.Buffers.{Code, tpediagnostic}
use endurox_java.Exceptions.{class_of}

module _ {ℓ} {A : Type ℓ} where
  take_all : (n : ℕ) (xs : List A) → length xs < n + 1 → take n xs ≡ xs
  take_all zero [] h = refl
  take_all zero (x ∷ xs) h = let no : ⊥ = omega arith in absurd no
  take_all (suc n) [] h = refl
  take_all (suc n) (x ∷ xs) h = ap (λ ys. x ∷ ys) (take_all n xs (omega arith))

  append_cancel_left : (xs ys zs : List A) → xs ++ ys ≡ xs ++ zs → ys ≡ zs
  append_cancel_left xs ys zs e =
      sym (drop-append xs ys) ∙ ap (drop (length xs)) e ∙ drop-append xs zs

  append_cancel_right : (xs ys zs : List A) → ys ++ xs ≡ zs ++ xs → ys ≡ zs
  append_cancel_right xs ys zs e =
      let same : length ys ≡ length zs =
        omega (arith, ap length e, length-append ys xs, length-append zs xs) in
      sym (take-append ys xs)
      ∙ ap (take (length ys)) e
      ∙ ap (λ n. take n (zs ++ xs)) same
      ∙ take-append zs xs

  take-take : (n : ℕ) (xs : List A) → take n (take n xs) ≡ take n xs
  take-take zero xs = refl
  take-take (suc n) [] = refl
  take-take (suc n) (x ∷ xs) = ap (λ ys. x ∷ ys) (take-take n xs)

-- What is used of tpecodestr: its texts fit, and the one of TPEDIAGNOSTIC is no other code's.
pub record Texts (text : Code → CString) : Type 0 where
  pub short : (c : Code) → length (text c) < 200
  pub diagnostic : (c : Code) → text c ≡ text tpediagnostic → c ≡ tpediagnostic

pub class_of_diagnostic :
    (text : Code → CString) (err : Code)
    → Texts text
    → class_of (codes "Atmi") (text err) ≡ class_of (codes "Atmi") (text tpediagnostic)
    → err ≡ tpediagnostic
unfolding class_of fit
class_of_diagnostic text err texts e =
    let whole : (c : Code)
        → class_of (codes "Atmi") (text c)
          ≡ codes "org/endurox/exceptions/" ++ codes "Atmi" ++ text c ++ codes "Exception" =
      λ c.
        take_all 255
          (codes "org/endurox/exceptions/" ++ codes "Atmi" ++ text c ++ codes "Exception")
          (omega (arith, texts.short c, length-append (text c) (codes "Exception"))) in
    let same = sym (whole err) ∙ e ∙ whole tpediagnostic in
    texts.diagnostic err (
      append_cancel_right (codes "Exception") (text err) (text tpediagnostic)
        (append_cancel_left (codes "org/endurox/exceptions/Atmi") _ _ same))

some_differ : (m n : ℕ) → m ≢ n → some m ≢ some n
some_differ m n ne e = ne cc

pub class_of_nstd : (s t : CString) → class_of (codes "Nstd") s ≢ class_of (codes "Atmi") t
unfolding class_of fit
class_of_nstd s t e = some_differ 78 65 (λ p. omega (arith, p)) (ap (λ x. get_elem? x 23) e)

pub class_of_ubf : (s t : CString) → class_of (codes "Ubf") s ≢ class_of (codes "Atmi") t
unfolding class_of fit
class_of_ubf s t e = some_differ 85 65 (λ p. omega (arith, p)) (ap (λ x. get_elem? x 23) e)

pub class_of_fits : (kind text : CString) → fit 256 (class_of kind text) ≡ class_of kind text
unfolding class_of fit
class_of_fits kind text =
    take-take 255 (codes "org/endurox/exceptions/" ++ kind ++ text ++ codes "Exception")
