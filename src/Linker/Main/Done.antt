-- ===== src/Linker/Main/Done.antt =====
-- What the last phases of the linker do: the program is generated from the sorted hashes and built.
use mathlib.Core.List.{append_assoc}
use endurox_java.Base.{
  ℕ, ◌≡◌, ap, sym, ◌∙◌, Bool, true, false, ◌||◌, not, Option, List, [], ◌∷◌, ◌++◌, map,
}
use endurox_java.Base.Bytes.{CString}
use endurox_java.Linker.Entry.{Job, walk, walk_start}
use endurox_java.Linker.Resources.{
  Resource, resname_of, HashLib, Attempt, Pool, pool_start, res_sort_by_resname,
}
use endurox_java.Linker.Resources.Threads.{run_threads}
use endurox_java.Linker.Settings.{BufferLib, Settings}
use endurox_java.Linker.Options.{Args}
use endurox_java.Linker.Codegen.{Answers, Action, codegen}
use endurox_java.Linker.Main.{Deed, built, System, Linker, generate, test_binary}
use endurox_java.Linker.Main.Phases.{generate-true, test_binary-true}

module _ (B : BufferLib) (list_add : List CString → CString → Option (List CString))
    (H : HashLib Resource resname_of) (number : ℕ → CString) (sys : System) where
  abbrev State : Type 0
  State = Linker B list_add H number sys

  -- The jobs that the walk makes, each with its outcome.
  abbrev pub work : List (Job × Attempt)
  work = map (λ j. (j, sys.outcome j)) (walk sys.found walk_start).1.jobs

  -- What the hashes hold once they are sorted.
  abbrev pub sorted_pool : Pool H
  sorted_pool =
      let p = run_threads H number work sys.schedule (pool_start H) in
      record p {
        classes_hash = res_sort_by_resname H p.classes_hash;
        emb_res_hash = res_sort_by_resname H p.emb_res_hash;
      }

  -- The linker has generated the program from the sorted hashes, and built it after its test.
  pub record Done (deeds : List Deed) : Type 0 where
    pub settings : Settings
    pub earlier : List Deed
    pub later : List Deed
    pub walked : (walk sys.found walk_start).0 ≡ true
    pub no_error : (run_threads H number work sys.schedule (pool_start H)).thpool_error ≡ false
    pub tested :
        (not settings.do_test
          || (codegen B number settings
              (H.items sorted_pool.classes_hash)
              (H.items sorted_pool.emb_res_hash)
              sys.test_build
              true).0)
        ≡ true
    pub build_ok :
        (codegen B number settings
          (H.items sorted_pool.classes_hash)
          (H.items sorted_pool.emb_res_hash)
          sys.final_build
          false).0
        ≡ true
    pub last_build :
        deeds
        ≡ earlier
          ++ built
              (codegen B number settings
                (H.items sorted_pool.classes_hash)
                (H.items sorted_pool.emb_res_hash)
                sys.final_build
                false).1
            ∷ later

  -- The two generations, on the sorted hashes.
  abbrev generated : Pool H → Settings → Answers → Bool → Bool × List Action
  generated p s a test_mode =
      codegen B number s (H.items p.classes_hash) (H.items p.emb_res_hash) a test_mode

  pub finish :
      (l : State)
      → l.pool ≡ sorted_pool
      → (walk sys.found walk_start).0 ≡ true
      → (run_threads H number work sys.schedule (pool_start H)).thpool_error ≡ false
      → (test_binary B list_add H number sys l).0 ≡ true
      → let last =
          generate B list_add H number sys sys.final_build false
            (test_binary B list_add H number sys l).1 in
        last.0 ≡ true → Done last.1.deeds
  finish l ready walked no_error ok ok' =
      let (pool_kept, args_kept, by_test) = test_binary-true B list_add H number sys l in
      let l' = (test_binary B list_add H number sys l).1 in
      let (res, pool_kept', args_kept', wrote_) =
        generate-true B list_add H number sys sys.final_build false l' in
      let (res_test, pool_test, args_test, deeds_test) =
        generate-true B list_add H number sys sys.test_build true l in
      let now : l'.pool ≡ sorted_pool = pool_kept ∙ ready in
      record {
        settings = l'.args.settings;
        earlier = l'.deeds;
        later = [];
        walked = walked;
        no_error = no_error;
        tested =
            ap
              (λ p.
                not l'.args.settings.do_test
                || (generated p l'.args.settings sys.test_build true).0)
              (sym ready)
            ∙ ap
                (λ (a : Args).
                  not a.settings.do_test || (generated l.pool a.settings sys.test_build true).0)
                args_kept
            ∙ ap (λ b. not l.args.settings.do_test || b) (sym res_test)
            ∙ sym by_test
            ∙ ok;
        build_ok =
            ap (λ p. (generated p l'.args.settings sys.final_build false).0) (sym now)
            ∙ sym res
            ∙ ok';
        last_build =
            wrote_
            ∙ ap
                (λ p. l'.deeds ++ built (generated p l'.args.settings sys.final_build false).1 ∷ [])
                now;
      }

  pub Done-later : (deeds more : List Deed) → Done deeds → Done (deeds ++ more)
  Done-later deeds more d = record {
    settings = d.settings;
    earlier = d.earlier;
    later = d.later ++ more;
    walked = d.walked;
    no_error = d.no_error;
    tested = d.tested;
    build_ok = d.build_ok;
    last_build = ap (λ ds. ds ++ more) d.last_build ∙ append_assoc d.earlier _ more;
  }
