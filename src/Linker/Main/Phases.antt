-- ===== src/Linker/Main/Phases.antt =====
-- What each phase of `main` has done when it succeeds.
use endurox_java.Base.{
  ℕ, ◌≡◌, refl, ap, ◌∙◌, Bool, Bool-cases, inl, inr, true, false, ◌||◌, not, Option, List, [], ◌∷◌,
  ◌++◌, map, arith, if◌then◌else◌,
}
use endurox_java.Base.Bytes.{CString, codes, fit}
use endurox_java.Linker.Entry.{Found, Walk, is_class_file, process_entry, walk, walk_start}
use endurox_java.Linker.Resources.{Resource, resname_of, HashLib, Pool, res_sort_by_resname}
use endurox_java.Linker.Resources.Threads.{run_threads}
use endurox_java.Linker.Resources.Race.Waited.{run_threads_none}
use endurox_java.Linker.Settings.{path_max, BufferLib}
use endurox_java.Linker.Options.{Opt, options}
use endurox_java.Linker.Codegen.{Answers, is_empty, is_relative, codegen}
use endurox_java.Linker.Main.{
  built, System, Linker, Phase, and_then, read_args, choose_libs, start_pool, make_dir, save_cwd,
  enter_dir, extract_jar_th, extract_all, extract_jars, class_build_hash, sort_hashes, generate,
  test_binary,
}

-- Once a plain file was met, `M_was_file` stays set.
walk-was_file_kept :
    (fs : List Found) (w : Walk) → w.was_file ≡ true → (walk fs w).1.was_file ≡ true
unfolding walk process_entry
walk-was_file_kept [] w h = h
walk-was_file_kept (f ∷ fs) w h = elim (Bool-cases f.is_file) [
  | inr other ↦ rw other (walk-was_file_kept fs w h)
  | inl file ↦ elim (Bool-cases f.memory) [
    | inl enough ↦
        rw (file, enough) (walk-was_file_kept fs (process_entry true true f.path w).1 refl)
    | inr short ↦ elim (Bool-cases (is_class_file f.path)) [
      | inl class ↦ rw (file, short, class) h
      | inr plain ↦ rw (file, short, plain) h
    ]
  ]
]

-- A walk that has met no plain file has made no job.
walk-was_file :
    (fs : List Found) (w : Walk) → (walk fs w).1.was_file ≡ false → (walk fs w).1.jobs ≡ w.jobs
unfolding walk process_entry
walk-was_file [] w h = refl
walk-was_file (f ∷ fs) w h = elim (Bool-cases f.is_file) [
  | inr other ↦ rw other (walk-was_file fs w (rw other at h))
  | inl file ↦ elim (Bool-cases f.memory) [
    | inl enough ↦
        let kept = walk-was_file_kept fs (process_entry true true f.path w).1 refl in
        cc (rw (file, enough, kept) at h)
    | inr short ↦ elim (Bool-cases (is_class_file f.path)) [
      | inl class ↦ rw (file, short, class) refl
      | inr plain ↦ rw (file, short, plain) refl
    ]
  ]
]

module _ (B : BufferLib) (list_add : List CString → CString → Option (List CString))
    (H : HashLib Resource resname_of) (number : ℕ → CString) (sys : System) where
  abbrev State : Type 0
  State = Linker B list_add H number sys

  pub and_then-true :
      (f g : Phase B list_add H number sys) (l : State)
      → (and_then B list_add H number sys f g l).0 ≡ true
      → ((f l).0 ≡ true) × (and_then B list_add H number sys f g l ≡ g (f l).1)
  unfolding and_then
  and_then-true f g l h = ground arith

  pub front :
      (opts : List Opt) (l : State)
      → ((read_args B list_add H number sys opts l).1.pool ≡ l.pool)
        × ((choose_libs B list_add H number sys l).1.pool ≡ l.pool)
        × ((start_pool B list_add H number sys l).1.pool ≡ l.pool)
        × ((make_dir B list_add H number sys l).1.pool ≡ l.pool)
        × ((save_cwd B list_add H number sys l).1.pool ≡ l.pool)
        × ((enter_dir B list_add H number sys l).1.pool ≡ l.pool)
  unfolding read_args choose_libs start_pool make_dir save_cwd enter_dir
  front opts l = (refl, refl, ground arith, ground arith, ground arith, ground arith)

  -- An error of an extraction stays.
  extract_all-thpool_error :
      (jars : List CString) (l : State)
      → (extract_all B list_add H number sys jars l).pool.thpool_error ≡ false
      → (extract_all B list_add H number sys jars l).pool ≡ l.pool
  unfolding extract_all extract_jar_th
  extract_all-thpool_error [] l h = refl
  extract_all-thpool_error (j ∷ js) l h =
      let ih = extract_all-thpool_error js (extract_jar_th B list_add H number sys j l) h in
      let tmp =
        if is_relative j
        then fit path_max (l.args.settings.owd ++ codes "/" ++ j)
        else fit path_max j in
      elim (Bool-cases (sys.jar_ok tmp)) [
        | inl fine ↦ ih ∙ rw fine refl
        | inr broken ↦
            let bad : (extract_jar_th B list_add H number sys j l).pool.thpool_error ≡ true =
              rw broken refl in
            let same = ap (λ (p : Pool H). p.thpool_error) ih in cc
      ]

  pub extract_jars-true :
      (jars : List CString) (l : State)
      → (extract_jars B list_add H number sys jars l).0 ≡ true
      → (extract_jars B list_add H number sys jars l).1.pool
        ≡ record (l.pool) { thpool_error = false }
  unfolding extract_jars extract_all
  extract_jars-true [] l ok = refl
  extract_jars-true (j ∷ js) l ok =
      extract_all-thpool_error (j ∷ js)
        (record l { pool = record (l.pool) { thpool_error = false } }) (ground arith)

  pub class_build_hash-true :
      (l : State)
      → l.pool.thpool_error ≡ false
      → (class_build_hash B list_add H number sys l).0 ≡ true
      → ((walk sys.found walk_start).0 ≡ true)
        × ((class_build_hash B list_add H number sys l).1.pool
            ≡ run_threads H number
                (map (λ j. (j, sys.outcome j)) (walk sys.found walk_start).1.jobs)
                sys.schedule
                l.pool)
        × ((run_threads H number
              (map (λ j. (j, sys.outcome j)) (walk sys.found walk_start).1.jobs)
              sys.schedule
              l.pool).thpool_error
            ≡ false)
  unfolding class_build_hash
  class_build_hash-true l clear ok = (
    ground arith,
    refl,
    elim (Bool-cases (walk sys.found walk_start).1.was_file) [
      | inl met ↦ ground arith
      | inr none_met ↦
          rw
            (
              walk-was_file sys.found walk_start none_met,
              run_threads_none H number sys.schedule l.pool,
            )
            clear
    ],
  )

  pub sort_hashes-true :
      (jars : List CString) (l : State)
      → (sort_hashes B list_add H number sys jars l).0 ≡ true
      → (is_empty jars ≡ false)
        × ((sort_hashes B list_add H number sys jars l).1.pool ≡ record (l.pool) {
          classes_hash = res_sort_by_resname H l.pool.classes_hash;
          emb_res_hash = res_sort_by_resname H l.pool.emb_res_hash;
        })
  unfolding sort_hashes
  sort_hashes-true jars l ok = (ground arith, ground arith)

  pub generate-true :
      (a : Answers) (test_mode : Bool) (l : State)
      → let r = generate B list_add H number sys a test_mode l in
        let c =
          codegen B number l.args.settings
            (H.items l.pool.classes_hash)
            (H.items l.pool.emb_res_hash)
            a
            test_mode in
        (r.0 ≡ c.0)
        × (r.1.pool ≡ l.pool)
        × (r.1.args ≡ l.args)
        × (r.1.deeds ≡ l.deeds ++ built c.1 ∷ [])
  unfolding generate
  generate-true a test_mode l = (refl, refl, refl, refl)

  pub test_binary-true :
      (l : State)
      → let r = test_binary B list_add H number sys l in
        (r.1.pool ≡ l.pool)
        × (r.1.args ≡ l.args)
        × (r.0 ≡ (
            not l.args.settings.do_test
            || (generate B list_add H number sys sys.test_build true l).0))
  unfolding test_binary generate
  test_binary-true l = elim (Bool-cases l.args.settings.do_test) [
    | inl test ↦ rw (test) (refl, refl, refl)
    | inr plain ↦ rw (plain) (refl, refl, refl)
  ]

  pub read_args-true :
      (opts : List Opt) (l : State)
      → (read_args B list_add H number sys opts l).0 ≡ true
      → ((options B list_add opts l.args).0 ≡ true)
        × (is_empty (options B list_add opts l.args).1.settings.main_class ≡ false)
  unfolding read_args
  read_args-true opts l ok = (ground arith, ground arith)
