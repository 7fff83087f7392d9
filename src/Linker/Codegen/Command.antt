-- ===== src/Linker/Codegen/Command.antt =====
-- The build command of `ndrxj_codegen`, and what is run of it.
use mathlib.Core.List.{append_assoc, append-nil}
use endurox_java.Base.{
  ℕ, ◌+◌, ◌≡◌, ◌⊎◌, inl, inr, refl, ap, sym, ◌∙◌, Bool, Bool-cases, replicate, true, false, ◌&&◌,
  ◌||◌, not, List, [], ◌∷◌, ◌++◌, map, take, length-take_le, take-take_append, led, join,
  if◌then◌else◌,
}
use endurox_java.Base.Bytes.{CString, codes}
use endurox_java.Linker.Resources.{Resource}
use endurox_java.Linker.Settings.{path_max, BufferLib, Settings}
use endurox_java.Linker.Codegen.{
  flag_loop, build_command, Answers, Action, opened, closed, wrote, ran, codegen, jmain,
}

module _ (B : BufferLib) where
  open B use {strcat_s, strcat_s_fits}

  -- An append to a buffer that holds the beginning of `x`.
  strcat_s-take : (n : ℕ) (x s : CString) → strcat_s (n + 1) (take n x) s ≡ take n (x ++ s)
  strcat_s-take n x s = strcat_s_fits n (take n x) s (length-take_le n x) ∙ take-take_append n x s

  module _ (flag : CString) (value : CString → CString) where
    flagged : CString → CString
    flagged q = flag ++ value q

    flag_loop_later :
        (qs : List CString) (x : CString)
        → flag_loop B flag value false qs (take path_max x)
          ≡ take path_max (x ++ led (codes " ") (map (λ q. flag ++ value q) qs))
    unfolding flag_loop
    flag_loop_later [] x = ap (take path_max) (sym (append-nil x))
    flag_loop_later (q ∷ qs) x =
        rw
          (
            strcat_s-take path_max x (codes " "),
            strcat_s-take path_max (x ++ codes " ") flag,
            strcat_s-take path_max ((x ++ codes " ") ++ flag) (value q),
          )
          (flag_loop_later qs (((x ++ codes " ") ++ flag) ++ value q)
            ∙ ap (take path_max) (simp append_assoc))

    -- The flags are those of the list in order, each with its value, with a blank in between, and
    -- the buffer holds as much of them as fits.
    pub flag_loop_lem :
        (qs : List CString)
        → flag_loop B flag value true qs []
          ≡ take path_max (join (codes " ") (map (λ q. flag ++ value q) qs))
    unfolding flag_loop
    flag_loop_lem [] = refl
    flag_loop_lem (q ∷ qs) =
        rw (strcat_s-take path_max [] flag, strcat_s-take path_max flag (value q))
          (flag_loop_later qs (flag ++ value q) ∙ refl)

-- The commands among the actions, in order.
abbrev pub commands : List Action → List CString
commands [] = []
commands (opened ∷ rest) = commands rest
commands (closed ∷ rest) = commands rest
commands (wrote t ∷ rest) = commands rest
commands (ran c ∷ rest) = c ∷ commands rest

-- Whether the file is opened once, written, and closed before the first command.
abbrev pub IsOrderly : CString → List Action → Type 0
IsOrderly text actions =
    (actions ≡ [])
    ⊎ ((later : List Action) × (actions ≡ opened ∷ wrote text ∷ closed ∷ later)
        × (commands actions ≡ commands later))

module _ (B : BufferLib) (number : ℕ → CString) where
  -- jmain.c is written and closed before anything is run; only the build command is ever run, twice
  -- in the test mode; and the code generation succeeds just when the file can be opened and each
  -- run that was due succeeds.
  pub codegen_lem :
      (s : Settings) (class_els emb_els : List Resource) (a : Answers) (test_mode : Bool)
      → let (ok, actions) = codegen B number s class_els emb_els a test_mode in
        IsOrderly (jmain number s.main_class test_mode class_els emb_els) actions
        × (commands actions
            ≡ replicate
                (if a.can_open then (if test_mode && a.first_run then 2 else 1) else 0)
                (build_command B s))
        × (ok ≡ (a.can_open && (a.first_run && (not test_mode || a.second_run))))
  unfolding codegen
  codegen_lem s class_els emb_els a test_mode = elim (Bool-cases a.can_open) [
    | inr shut ↦ rw shut (inl refl, refl, refl)
    | inl open_ ↦ elim (Bool-cases a.first_run) [
      | inr broken ↦ rw (open_, broken) (inr (_, refl, refl), by_mode test_mode, refl)
      | inl built ↦ elim (Bool-cases test_mode) [
        | inl test ↦ rw (open_, built, test) (inr (_, refl, refl), refl, refl)
        | inr final ↦ rw (open_, built, final) (inr (_, refl, refl), refl, refl)
      ]
    ]
  ]
    where
      by_mode :
          (t : Bool)
          → build_command B s ∷ [] ≡ replicate (if t && false then 2 else 1) (build_command B s)
      by_mode true = refl
      by_mode false = refl
