-- ===== src/Linker/Main.antt =====
-- exjld/exjld.c: the extraction of the JAR files, and the main function of the linker,
-- with the clean-up that every exit passes.
pub mod Done
pub mod Outcome
pub mod CleanUp
pub mod Phases
pub mod Residue
use endurox_java.Base.{
  ℕ, zero, suc, ◌+◌, ◌-◌, ◌*◌, Bool, true, false, ◌&&◌, ◌||◌, not, Option, none, some, List, [],
  ◌∷◌, ◌++◌, map, ltb, leb, ◌==◌, if◌then◌else◌,
}
use endurox_java.Base.Bytes.{CString, codes, fit}
use endurox_java.Linker.Entry.{Hash, classes, embedded, Job, Found, Walk, walk, walk_start}
use endurox_java.Linker.Resources.{
  Resource, resname_of, HashLib, Attempt, Pool, pool_start, head_of, res_sort_by_resname,
}
use endurox_java.Linker.Resources.Threads.{run_threads}
use endurox_java.Linker.Settings.{path_max, BufferLib, Settings, settings_start}
use endurox_java.Linker.Options.{Opt, Args, args_start, tempdir_mask, options, default_libs}
use endurox_java.Linker.Codegen.{is_relative, Answers, Action, codegen, is_empty}

-- What the process does outside its memory.
pub data Deed : Type 0 where
  pool_started pool_stopped : Deed
  dir_made entered left removed extracted : CString → Deed
  built : List Action → Deed

-- What the system answers.
pub record System : Type 0 where
  pub pool_ok : Bool
  -- the name that mkdtemp makes of the template
  pub made : Option CString
  pub cwd : Option CString
  pub can_enter : Bool
  -- whether zip_extract returns 0
  pub jar_ok : CString → Bool
  -- the entries of the work directory, and the outcome of each job
  pub found : List Found
  pub outcome : Job → Attempt
  -- the turns that the threads of the pool take, by the numbers of the jobs
  pub schedule : List ℕ
  pub test_build : Answers
  pub final_build : Answers

module _ (B : BufferLib) (list_add : List CString → CString → Option (List CString))
    (H : HashLib Resource resname_of) (number : ℕ → CString) (sys : System) where
  pub record Linker : Type 0 where
    pub args : Args
    pub pool_on : Bool
    pub pool : Pool H
    pub deeds : List Deed

  abbrev pub Phase : Type 0
  Phase = Linker → Bool × Linker

  -- EXFAIL_OUT skips what follows.
  unfoldable pub and_then : Phase → Phase → Phase
  and_then f g l = let (ok, l') = f l in let rest = g l' in if ok then rest else (false, l')

  abbrev pub with_settings : Settings → List Deed → Linker → Linker
  with_settings s ds l = record l { args = record (l.args) { settings = s }; deeds = l.deeds ++ ds }

  unfoldable pub read_args : List Opt → Phase
  read_args opts l =
      let (ok, a) = options B list_add opts l.args in
      (ok && not (is_empty a.settings.main_class), record l { args = a })

  unfoldable pub choose_libs : Phase
  choose_libs l = let (ok, a) = default_libs B list_add l.args in (ok, record l { args = a })

  unfoldable pub start_pool : Phase
  start_pool l =
      if sys.pool_ok
      then (true, record l { pool_on = true; deeds = l.deeds ++ pool_started ∷ [] })
      else (false, l)

  unfoldable pub make_dir : Phase
  make_dir l =
      let s = l.args.settings in
      let wd = if is_empty s.wd then fit (path_max + 1) (codes "./" ++ tempdir_mask) else s.wd in
      elim sys.made [
        | none ↦ (false, with_settings (record s { wd = wd }) [] l)
        | some d ↦ (true, with_settings (record s { wd = d }) (dir_made d ∷ []) l)
      ]

  -- `getcwd` and the name of the output.
  unfoldable pub save_cwd : Phase
  save_cwd l =
      let s = l.args.settings in
      elim sys.cwd [
        | none ↦ (false, with_settings (record s { owd = [] }) [] l)
        | some d ↦ (
          true,
          with_settings
              (record s {
                owd = d;
                out_bin =
                    if is_empty l.args.tmp_outbin
                    then B.strcpy_safe (path_max + 1) l.args.tmp_outbin
                    else fit (path_max + 1) (d ++ codes "/" ++ l.args.tmp_outbin);
              })
              [] l,
        )
      ]

  unfoldable pub enter_dir : Phase
  enter_dir l =
      if sys.can_enter
      then (true, record l { deeds = l.deeds ++ entered l.args.settings.wd ∷ [] })
      else (false, l)

  -- `extract_jar_th`
  unfoldable pub extract_jar_th : CString → Linker → Linker
  unfolding is_relative
  extract_jar_th path l =
      let tmp =
        if is_relative path
        then fit path_max (l.args.settings.owd ++ codes "/" ++ path)
        else fit path_max path in
      record l {
        pool = record (l.pool) {
          thpool_error = if sys.jar_ok tmp then l.pool.thpool_error else true;
        };
        deeds = l.deeds ++ extracted tmp ∷ [];
      }

  unfoldable pub extract_all : List CString → Linker → Linker
  extract_all [] l = l
  extract_all (j ∷ js) l = extract_all js (extract_jar_th j l)

  unfoldable pub extract_jars : List CString → Phase
  extract_jars jars l =
      let l' = extract_all jars (record l { pool = record (l.pool) { thpool_error = false } }) in
      (is_empty jars || not l'.pool.thpool_error, l')

  -- `exjld_class_build_hash`; the jobs are done by the threads of the pool.
  unfoldable pub class_build_hash : Phase
  class_build_hash l =
      let (ok, w) = walk sys.found walk_start in
      let p = run_threads H number (map (λ j. (j, sys.outcome j)) w.jobs) sys.schedule l.pool in
      (ok && (not w.was_file || not p.thpool_error), record l { pool = p })

  unfoldable pub sort_hashes : (jars : List CString) → Phase
  sort_hashes jars l = if is_empty jars then (false, l) else (
    true,
    record l {
      pool = record (l.pool) {
        classes_hash = res_sort_by_resname H l.pool.classes_hash;
        emb_res_hash = res_sort_by_resname H l.pool.emb_res_hash;
      };
    },
  )

  unfoldable pub generate : Answers → (test_mode : Bool) → Phase
  generate a test_mode l =
      let (ok, actions) =
        codegen B number l.args.settings (H.items l.pool.classes_hash) (H.items l.pool.emb_res_hash)
          a test_mode in
      (ok, record l { deeds = l.deeds ++ built actions ∷ [] })

  unfoldable pub test_binary : Phase
  test_binary l = if l.args.settings.do_test then generate sys.test_build true l else (true, l)

  -- Behind `out:`.
  unfoldable pub clean_up : Linker → Linker
  clean_up l =
      let s = l.args.settings in
      record l {
        pool_on = false;
        deeds =
            l.deeds
            ++ (if l.pool_on then pool_stopped ∷ [] else [])
            ++ (if is_empty s.owd then [] else left s.owd ∷ [])
            ++ (if not s.keep_temp && not (is_empty s.wd) then removed s.wd ∷ [] else []);
      }

  abbrev pub linker_start : Linker
  linker_start = record { args = args_start; pool_on = false; pool = pool_start H; deeds = [] }

  -- The steps of `main` in front of `out:`.
  unfoldable pub main_body : List Opt → (jars : List CString) → Phase
  main_body opts jars = and_then (read_args opts) (
      and_then choose_libs (
        and_then start_pool (
          and_then make_dir (
            and_then save_cwd (
              and_then enter_dir (
                and_then (extract_jars jars) (
                  and_then class_build_hash (
                    and_then (sort_hashes jars)
                      (and_then test_binary (generate sys.final_build false))))))))))

  -- `main`; true is the exit status EXSUCCEED.
  unfoldable pub main : List Opt → (jars : List CString) → Bool × Linker
  main opts jars = let (ok, l) = main_body opts jars linker_start in (ok, clean_up l)
