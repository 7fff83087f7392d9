-- ===== src/Linker/Main/Outcome.antt =====
-- What a successful run of the linker has done.
use mathlib.Core.Path.{subst}
use endurox_java.Base.{ℕ, ◌≡◌, refl, ap, sym, ◌∙◌, Bool, true, false, Option, List}
use endurox_java.Base.Bytes.{CString}
use endurox_java.Linker.Resources.{
  Resource, resname_of, HashLib, Pool, pool_start, res_sort_by_resname,
}
use endurox_java.Linker.Resources.Threads.{run_threads}
use endurox_java.Linker.Settings.{BufferLib}
use endurox_java.Linker.Options.{Opt, args_start, options}
use endurox_java.Linker.Codegen.{is_empty}
use endurox_java.Linker.Main.{
  System, Linker, Phase, and_then, read_args, choose_libs, start_pool, make_dir, save_cwd,
  enter_dir, extract_jars, class_build_hash, sort_hashes, generate, test_binary, clean_up,
  linker_start, main_body, main,
}
use endurox_java.Linker.Main.Phases.{
  and_then-true, front, extract_jars-true, class_build_hash-true, sort_hashes-true, read_args-true,
  generate-true, test_binary-true,
}
use endurox_java.Linker.Main.Done.{Done, Done-later, finish, sorted_pool, work}

module _ (B : BufferLib) (list_add : List CString → CString → Option (List CString))
    (H : HashLib Resource resname_of) (number : ℕ → CString) (sys : System) where
  abbrev State : Type 0
  State = Linker B list_add H number sys

  -- The part of `main` from the extraction on.
  back :
      (jars : List CString) (l : State)
      → l.pool ≡ pool_start H
      → let rest =
          and_then B list_add H number sys
            (extract_jars B list_add H number sys jars)
            (and_then B list_add H number sys (class_build_hash B list_add H number sys) (
              and_then B list_add H number sys (sort_hashes B list_add H number sys jars) (
                and_then B list_add H number sys
                  (test_binary B list_add H number sys)
                  (generate B list_add H number sys sys.final_build false))))
            l in
        rest.0 ≡ true
        → (is_empty jars ≡ false)
          × (rest.1.pool ≡ sorted_pool B list_add H number sys)
          × Done B list_add H number sys rest.1.deeds
  back jars l fresh ok =
      let (ok1, e1) =
        and_then-true B list_add H number sys (extract_jars B list_add H number sys jars) _ l ok in
      let l1 = (extract_jars B list_add H number sys jars l).1 in
      let p1 : l1.pool ≡ pool_start H =
        extract_jars-true B list_add H number sys jars l ok1
        ∙ ap (λ (p : Pool H). record p { thpool_error = false }) fresh in
      let (ok2, e2) =
        and_then-true B list_add H number sys (class_build_hash B list_add H number sys) _ l1
          (ap (λ r. r.0) (sym e1) ∙ ok) in
      let (walked, p2, no_error) =
        class_build_hash-true B list_add H number sys l1 (ap (λ (p : Pool H). p.thpool_error) p1)
          ok2 in
      let l2 = (class_build_hash B list_add H number sys l1).1 in
      let (ok3, e3) =
        and_then-true B list_add H number sys (sort_hashes B list_add H number sys jars) _ l2
          (ap (λ r. r.0) (sym (e1 ∙ e2)) ∙ ok) in
      let (some_jar, p3) = sort_hashes-true B list_add H number sys jars l2 ok3 in
      let l3 = (sort_hashes B list_add H number sys jars l2).1 in
      let (ok4, e4) =
        and_then-true B list_add H number sys (test_binary B list_add H number sys) _ l3
          (ap (λ r. r.0) (sym (e1 ∙ e2 ∙ e3)) ∙ ok) in
      let e = e1 ∙ e2 ∙ e3 ∙ e4 in
      let jobs_done =
        p2 ∙ ap (run_threads H number (work B list_add H number sys) sys.schedule) p1 in
      let ready : l3.pool ≡ sorted_pool B list_add H number sys =
        p3
        ∙ ap
            (λ (p : Pool H). record p {
              classes_hash = res_sort_by_resname H p.classes_hash;
              emb_res_hash = res_sort_by_resname H p.emb_res_hash;
            })
            jobs_done in
      (
        some_jar,
        ap (λ (r : Bool × State). r.1.pool) e
            ∙ (generate-true B list_add H number sys sys.final_build false
                (test_binary B list_add H number sys l3).1).1
            ∙ (test_binary-true B list_add H number sys l3).0
            ∙ ready,
        subst (λ (r : Bool × State). Done B list_add H number sys r.1.deeds) (sym e)
            (finish B list_add H number sys l3 ready walked
              (ap
                  (λ p.
                    (run_threads H number (work B list_add H number sys) sys.schedule
                      p).thpool_error)
                  (sym p1)
                ∙ no_error)
              ok4 (ap (λ r. r.0) (sym e) ∙ ok)),
      )

  -- `and_then` with a phase in front that leaves the pool alone.
  through :
      (f g : Phase B list_add H number sys) (l : State)
      → ((f l).1.pool ≡ l.pool)
      → l.pool ≡ pool_start H
      → (and_then B list_add H number sys f g l).0 ≡ true
      → ((f l).1.pool ≡ pool_start H)
        × ((g (f l).1).0 ≡ true)
        × (and_then B list_add H number sys f g l ≡ g (f l).1)
  through f g l kept fresh ok =
      let (ok_f, e) = and_then-true B list_add H number sys f g l ok in
      (kept ∙ fresh, ap (λ r. r.0) (sym e) ∙ ok, e)

  body_success :
      (opts : List Opt) (jars : List CString)
      → (main_body B list_add H number sys opts jars (linker_start B list_add H number sys)).0
        ≡ true
      → (is_empty jars ≡ false)
        × ((options B list_add opts args_start).0 ≡ true)
        × (is_empty (options B list_add opts args_start).1.settings.main_class ≡ false)
        × ((main_body B list_add H number sys opts jars
              (linker_start B list_add H number sys)).1.pool
            ≡ sorted_pool B list_add H number sys)
        × Done B list_add H number sys
            (main_body B list_add H number sys opts jars
              (linker_start B list_add H number sys)).1.deeds
  unfolding main_body
  body_success opts jars ok =
      let l0 = linker_start B list_add H number sys in
      let (ok_args, e_args) =
        and_then-true B list_add H number sys (read_args B list_add H number sys opts) _ l0 ok in
      let (given, named) = read_args-true B list_add H number sys opts l0 ok_args in
      let (p1, ok1, e1) =
        through (read_args B list_add H number sys opts) _ l0
          (front B list_add H number sys opts l0).0 refl ok in
      let l1 = (read_args B list_add H number sys opts l0).1 in
      let (p2, ok2, e2) =
        through (choose_libs B list_add H number sys) _ l1 (front B list_add H number sys opts l1).1
          p1 ok1 in
      let l2 = (choose_libs B list_add H number sys l1).1 in
      let (p3, ok3, e3) =
        through (start_pool B list_add H number sys) _ l2 (front B list_add H number sys opts l2).2
          p2 ok2 in
      let l3 = (start_pool B list_add H number sys l2).1 in
      let (p4, ok4, e4) =
        through (make_dir B list_add H number sys) _ l3 (front B list_add H number sys opts l3).3 p3
          ok3 in
      let l4 = (make_dir B list_add H number sys l3).1 in
      let (p5, ok5, e5) =
        through (save_cwd B list_add H number sys) _ l4 (front B list_add H number sys opts l4).4 p4
          ok4 in
      let l5 = (save_cwd B list_add H number sys l4).1 in
      let (p6, ok6, e6) =
        through (enter_dir B list_add H number sys) _ l5 (front B list_add H number sys opts l5).5
          p5 ok5 in
      let l6 = (enter_dir B list_add H number sys l5).1 in
      let (some_jar, pool, done) = back jars l6 p6 ok6 in
      (
        some_jar,
        given,
        named,
        ap (λ (r : Bool × State). r.1.pool) (e1 ∙ e2 ∙ e3 ∙ e4 ∙ e5 ∙ e6) ∙ pool,
        subst (λ (r : Bool × State). Done B list_add H number sys r.1.deeds)
            (sym (e1 ∙ e2 ∙ e3 ∙ e4 ∙ e5 ∙ e6)) done,
      )

  -- When the linker exits with success, a JAR file was named, the options were accepted and name a
  -- main class; the walk ended without a failure and no job failed; and the
  -- last program that was generated was made of the sorted hashes of those jobs and was built, after
  -- the test build had run twice unless -n was given.
  pub main_success :
      (opts : List Opt) (jars : List CString)
      → (main B list_add H number sys opts jars).0 ≡ true
      → (is_empty jars ≡ false)
        × ((options B list_add opts args_start).0 ≡ true)
        × (is_empty (options B list_add opts args_start).1.settings.main_class ≡ false)
        × Done B list_add H number sys (main B list_add H number sys opts jars).1.deeds
  unfolding main clean_up
  main_success opts jars ok =
      let (some_jar, given, named, pool, done) = body_success opts jars ok in
      (
        some_jar,
        given,
        named,
        Done-later B list_add H number sys _ _
            (Done-later B list_add H number sys _ _ (Done-later B list_add H number sys _ _ done)),
      )

  -- Then the hashes are those that the jobs have left, sorted.
  pub main_pool :
      (opts : List Opt) (jars : List CString)
      → (main B list_add H number sys opts jars).0 ≡ true
      → (main B list_add H number sys opts jars).1.pool ≡ sorted_pool B list_add H number sys
  unfolding main clean_up
  main_pool opts jars ok = (body_success opts jars ok).3
