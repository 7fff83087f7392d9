-- ===== src/Linker/Main/CleanUp.antt =====
-- What `main` leaves behind at any exit.
use mathlib.Core.List.{append-nil}
use mathlib.Core.Path.{subst}
use endurox_java.Base.{
  ℕ, either, ◌≡◌, ◌⊎◌, inl, inr, refl, ap, sym, ◌∙◌, Bool, Bool-cases, true, false, not, ◌&&◌,
  Option, Option-cases, none, some, List, [], ◌∷◌, ◌++◌,
}
use endurox_java.Base.Bytes.{CString}
use endurox_java.Linker.Resources.{Resource, resname_of, HashLib}
use endurox_java.Linker.Settings.{BufferLib}
use endurox_java.Linker.Options.{Opt}
use endurox_java.Linker.Codegen.{Answers, is_empty}
use endurox_java.Linker.Main.{
  System, Linker, Phase, and_then, read_args, choose_libs, start_pool, make_dir, save_cwd,
  enter_dir, extract_jar_th, extract_all, extract_jars, class_build_hash, sort_hashes, generate,
  test_binary, clean_up, linker_start, main_body, main,
}
use endurox_java.Linker.Main.Residue.{
  Residue, residue, nothing, residue-append, is_some, stop_deeds, leave_deeds, remove_deeds,
  closing_lem,
}

module _ (B : BufferLib) (list_add : List CString → CString → Option (List CString))
    (H : HashLib Resource resname_of) (number : ℕ → CString) (sys : System)
    (made_named : (d : CString) → sys.made ≡ some d → is_empty d ≡ false)
    (cwd_named : (d : CString) → sys.cwd ≡ some d → is_empty d ≡ false) where
  abbrev State : Type 0
  State = Linker B list_add H number sys

  abbrev left_of : State → Residue
  left_of l = residue l.deeds nothing

  -- Before the work directory is made.
  abbrev Before : State → Type 0
  Before l = left_of l ≡ record { threads = l.pool_on; inside = false; dir = none }

  -- The directory is there, and the process is where it was started.
  abbrev Made : State → Type 0
  Made l =
      (left_of l ≡ record { threads = l.pool_on; inside = false; dir = some l.args.settings.wd })
      × (is_empty l.args.settings.wd ≡ false)

  -- The directory is there, and the way back is known.
  abbrev Within : State → Type 0
  Within l =
      (b : Bool) × (left_of l
        ≡ record { threads = l.pool_on; inside = b; dir = some l.args.settings.wd })
      × (is_empty l.args.settings.wd ≡ false)
      × (is_empty l.args.settings.owd ≡ false)

  abbrev Any : State → Type 0
  Any l = Before l ⊎ (Made l ⊎ Within l)

  stage :
      {Q : State → Type 0} (f g : Phase B list_add H number sys) (l : State)
      → ((f l).0 ≡ false → Any (f l).1)
      → ((f l).0 ≡ true → Q (f l).1)
      → ((l' : State) → Q l' → Any (g l').1)
      → Any (and_then B list_add H number sys f g l).1
  unfolding and_then
  stage f g l fails passes next = elim (Bool-cases (f l).0) [
    | inl ok ↦ rw ok (next (f l).1 (passes ok))
    | inr stop ↦ rw stop (fails stop)
  ]

  -- A phase that stays within.
  inside :
      (f g : Phase B list_add H number sys) (l : State)
      → Within (f l).1
      → ((l' : State) → Within l' → Any (g l').1)
      → Any (and_then B list_add H number sys f g l).1
  inside f g l h next = stage {Q = Within} f g l (λ e. inr (inr h)) (λ e. h) next

  read_args-Before :
      (opts : List Opt) (l : State) → Before l → Before (read_args B list_add H number sys opts l).1
  unfolding read_args
  read_args-Before opts l h = h

  choose_libs-Before : (l : State) → Before l → Before (choose_libs B list_add H number sys l).1
  unfolding choose_libs
  choose_libs-Before l h = h

  start_pool-Before : (l : State) → Before l → Before (start_pool B list_add H number sys l).1
  unfolding start_pool
  start_pool-Before l h = elim (Bool-cases sys.pool_ok) [
    | inl ok ↦ rw (ok, residue-append, h) refl
    | inr fails ↦ rw fails h
  ]

  make_dir-Made :
      (l : State)
      → Before l
      → ((make_dir B list_add H number sys l).0 ≡ false
          → Before (make_dir B list_add H number sys l).1)
        × ((make_dir B list_add H number sys l).0 ≡ true
            → Made (make_dir B list_add H number sys l).1)
  unfolding make_dir
  make_dir-Made l h = elim (Option-cases sys.made) [
    | inl none_made ↦ rw (none_made, append-nil) (λ e. h, λ e. cc)
    | inr (d, e) ↦ rw (e, residue-append, h) (λ f. cc, λ f. (refl, made_named d e))
  ]

  save_cwd-Within :
      (l : State)
      → Made l
      → ((save_cwd B list_add H number sys l).0 ≡ false
          → Made (save_cwd B list_add H number sys l).1)
        × ((save_cwd B list_add H number sys l).0 ≡ true
            → Within (save_cwd B list_add H number sys l).1)
  unfolding save_cwd
  save_cwd-Within l (h, named) = elim (Option-cases sys.cwd) [
    | inl none_got ↦ rw (none_got, append-nil) (λ e. (h, named), λ e. cc)
    | inr (d, e) ↦ rw (e, append-nil) (λ f. cc, λ f. (false, h, named, cwd_named d e))
  ]

  enter_dir-Within : (l : State) → Within l → Within (enter_dir B list_add H number sys l).1
  unfolding enter_dir
  enter_dir-Within l (b, h, named, known) = elim (Bool-cases sys.can_enter) [
    | inl ok ↦ rw (ok, residue-append, h) (true, refl, named, known)
    | inr stop ↦ rw stop (b, h, named, known)
  ]

  extract_all-Within :
      (jars : List CString) (l : State)
      → Within l
      → Within (extract_all B list_add H number sys jars l)
  unfolding extract_all extract_jar_th
  extract_all-Within [] l h = h
  extract_all-Within (j ∷ js) l (b, h, named, known) =
      extract_all-Within js (extract_jar_th B list_add H number sys j l)
        (b, residue-append l.deeds _ nothing ∙ h, named, known)

  extract_jars-Within :
      (jars : List CString) (l : State)
      → Within l
      → Within (extract_jars B list_add H number sys jars l).1
  unfolding extract_jars
  extract_jars-Within jars l h =
      extract_all-Within jars (record l { pool = record (l.pool) { thpool_error = false } }) h

  class_build_hash-Within :
      (l : State) → Within l → Within (class_build_hash B list_add H number sys l).1
  unfolding class_build_hash
  class_build_hash-Within l h = h

  sort_hashes-Within :
      (jars : List CString) (l : State)
      → Within l
      → Within (sort_hashes B list_add H number sys jars l).1
  unfolding sort_hashes
  sort_hashes-Within [] l h = h
  sort_hashes-Within (j ∷ js) l h = h

  generate-Within :
      (a : Answers) (t : Bool) (l : State)
      → Within l
      → Within (generate B list_add H number sys a t l).1
  unfolding generate
  generate-Within a t l (b, h, named, known) =
      (b, residue-append l.deeds _ nothing ∙ h, named, known)

  test_binary-Within : (l : State) → Within l → Within (test_binary B list_add H number sys l).1
  unfolding test_binary
  test_binary-Within l h =
      either (λ (r : Bool × State). Within r.1) l.args.settings.do_test
        (generate-Within sys.test_build true l h) h

  -- What is left once the clean-up is done.
  abbrev Clean : State → Type 0
  Clean l =
      ((left_of l).threads ≡ false)
      × ((left_of l).inside ≡ false)
      × ((is_some (left_of l).dir && not l.args.settings.keep_temp) ≡ false)

  closed :
      (l : State) (b : Bool) (dir : Option CString)
      → (b ≡ false) ⊎ (is_empty l.args.settings.owd ≡ false)
      → left_of l ≡ record { threads = l.pool_on; inside = b; dir = dir }
      → (dir ≡ none) ⊎ ((dir ≡ some l.args.settings.wd) × (is_empty l.args.settings.wd ≡ false))
      → Clean (clean_up B list_add H number sys l)
  unfolding clean_up
  closed l b dir back h there =
      let s = l.args.settings in
      let w1 = stop_deeds l.pool_on in
      let w2 = leave_deeds s.owd in
      let w3 = remove_deeds s.keep_temp s.wd in
      let e : left_of (clean_up B list_add H number sys l)
          ≡ residue w3
              (residue w2 (residue w1 (record { threads = l.pool_on; inside = b; dir = dir }))) =
        residue-append (l.deeds ++ w1 ++ w2) w3 nothing
        ∙ ap (residue w3) (
            residue-append (l.deeds ++ w1) w2 nothing
            ∙ ap (residue w2) (residue-append l.deeds w1 nothing ∙ ap (residue w1) h)) in
      subst
        (λ (r : Residue).
          (r.threads ≡ false) × (r.inside ≡ false) × ((is_some r.dir && not s.keep_temp) ≡ false))
        (sym e) (closing_lem l.pool_on b dir s.owd s.wd s.keep_temp back there)

  clean_up-Clean : (l : State) → Any l → Clean (clean_up B list_add H number sys l)
  unfolding clean_up
  clean_up-Clean l (inl h) = closed l false none (inl refl) h (inl refl)
  clean_up-Clean l (inr (inl (h, named))) =
      closed l false (some l.args.settings.wd) (inl refl) h (inr (refl, named))
  clean_up-Clean l (inr (inr (b, h, named, known))) =
      closed l b (some l.args.settings.wd) (inr known) h (inr (refl, named))

  -- At every exit of `main` no thread of the pool runs, the process is back where it was started,
  -- and the work directory is gone unless -k was given. This takes that a change back and the
  -- removal succeed, and that mkdtemp and getcwd give names that are not empty.
  pub main_cleans :
      (opts : List Opt) (jars : List CString)
      → let l = (main B list_add H number sys opts jars).1 in
        ((residue l.deeds nothing).threads ≡ false)
        × ((residue l.deeds nothing).inside ≡ false)
        × ((is_some (residue l.deeds nothing).dir && not l.args.settings.keep_temp) ≡ false)
  unfolding main main_body
  main_cleans opts jars =
      let l0 = linker_start B list_add H number sys in
      clean_up-Clean _ (
        stage {Q = Before} (read_args B list_add H number sys opts) _ l0
          (λ e. inl (read_args-Before opts l0 refl)) (λ e. read_args-Before opts l0 refl)
          λ l1 h1.
            stage {Q = Before} (choose_libs B list_add H number sys) _ l1
              (λ e. inl (choose_libs-Before l1 h1)) (λ e. choose_libs-Before l1 h1)
              λ l2 h2.
                stage {Q = Before} (start_pool B list_add H number sys) _ l2
                  (λ e. inl (start_pool-Before l2 h2)) (λ e. start_pool-Before l2 h2)
                  λ l3 h3.
                    stage {Q = Made} (make_dir B list_add H number sys) _ l3
                      (λ e. inl ((make_dir-Made l3 h3).0 e)) (make_dir-Made l3 h3).1
                      λ l4 h4.
                        stage {Q = Within} (save_cwd B list_add H number sys) _ l4
                          (λ e. inr (inl ((save_cwd-Within l4 h4).0 e))) (save_cwd-Within l4 h4).1
                          λ l5 h5.
                            inside (enter_dir B list_add H number sys) _ l5 (enter_dir-Within l5 h5)
                              λ l6 h6.
                                inside (extract_jars B list_add H number sys jars) _ l6
                                  (extract_jars-Within jars l6 h6)
                                  λ l7 h7.
                                    inside (class_build_hash B list_add H number sys) _ l7
                                      (class_build_hash-Within l7 h7)
                                      λ l8 h8.
                                        inside (sort_hashes B list_add H number sys jars) _ l8
                                          (sort_hashes-Within jars l8 h8)
                                          λ l9 h9.
                                            inside (test_binary B list_add H number sys) _ l9
                                              (test_binary-Within l9 h9)
                                              λ l10 h10. inr (
                                                inr
                                                  (generate-Within sys.final_build false l10 h10)))
