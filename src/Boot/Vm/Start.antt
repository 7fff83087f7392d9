-- ===== src/Boot/Vm/Start.antt =====
-- The options that the JVM gets, and what a start of the Java main leaves.
use mathlib.Core.List.{append_assoc, append-nil}
use endurox_java.Base.{
  ℕ, ◌+◌, ◌-◌, ◌≤◌, ◌≡◌, refl, sym, ◌∙◌, Bool, Bool-cases, inl, inr, true, false, not, ◌&&◌, Option,
  List, [], ◌∷◌, ◌++◌, length, length-append, arith, if◌then◌else◌,
}
use endurox_java.Base.Bytes.{CString}
use endurox_java.Boot.Index.{Tables}
use endurox_java.Boot.ClassPath.{cp_proc}
use endurox_java.Boot.Jni.{Jni, Jvm, cur_thread}
use endurox_java.Boot.Handler.Exits.{run_ldr_main_ok}
use endurox_java.Boot.Vm.{
  KeyVal, is_opts, Setup, Vm, opts_loop, read_config, read_env, create, free_all, getvm, run_main,
}

-- The values of the keys that start with "opts", in order.
abbrev pub opts_values : List KeyVal → List CString
opts_values [] = []
opts_values (kv ∷ kvs) = if is_opts kv then kv.val ∷ opts_values kvs else opts_values kvs

module _ (split_add : List CString → CString → Option (List CString)) where
  -- The array that is allocated for the section is never written past its end, whether the loop
  -- ends or stops at a class path that cannot be added.
  pub opts_loop_fits :
      (kvs : List KeyVal) (v : Vm)
      → length (opts_loop split_add kvs v).1.options ≤ length v.options + length kvs
  unfolding opts_loop
  opts_loop_fits [] v = omega arith
  opts_loop_fits (kv ∷ kvs) v =
      let r = cp_proc split_add v.classpath_url kv.val in
      let ih =
        opts_loop_fits kvs (record v { options = v.options ++ kv.val ∷ []; classpath_url = r.1 }) in
      let ih' = opts_loop_fits kvs v in
      let l = length-append v.options (kv.val ∷ []) in
      elim (Bool-cases (is_opts kv)) [
        | inr other ↦ rw other (omega (arith, ih'))
        | inl opts ↦ elim (Bool-cases r.0) [
          | inl ok ↦ rw (opts, ok) (omega (arith, ih, l))
          | inr bad ↦ rw (opts, bad) (omega (arith, l))
        ]
      ]

  -- When the loop ends, the options are the values of all keys that start with "opts", in order.
  pub opts_loop_lem :
      (kvs : List KeyVal) (v : Vm)
      → (opts_loop split_add kvs v).0 ≡ true
      → (opts_loop split_add kvs v).1.options ≡ v.options ++ opts_values kvs
  unfolding opts_loop
  opts_loop_lem [] v ok = sym (append-nil v.options)
  opts_loop_lem (kv ∷ kvs) v ok =
      let r = cp_proc split_add v.classpath_url kv.val in
      elim (Bool-cases (is_opts kv)) [
        | inr other ↦ rw other (opts_loop_lem kvs v (rw other at ok))
        | inl opts ↦ elim (Bool-cases r.0) [
          | inl fine ↦
              rw (opts, fine)
                (opts_loop_lem kvs
                    (record v { options = v.options ++ kv.val ∷ []; classpath_url = r.1 })
                    (rw (opts, fine) at ok)
                  ∙ append_assoc v.options (kv.val ∷ []) (opts_values kvs))
          | inr bad ↦ cc (rw (opts, bad) at ok)
        ]
      ]

  module _ (argc : ℕ) (tables : Tables) (test_mode : Bool) (s : Setup) (jni : Jni) (v : Vm)
      (j : Jvm) where
    abbrev first : Bool × Vm
    first = read_config split_add s (record v { tables = tables; options = [] })

    abbrev second : Bool × Vm
    second = read_env split_add s first.1

    getvm-created :
        (getvm split_add tables s v).0 ≡ true
        → (s.jvm_created && (s.loader_ok && not s.exception)) ≡ true
    unfolding getvm create
    getvm-created got = ground arith

    -- When the start succeeds, the JVM was created with its loader, it is destroyed again, and its
    -- Java main ran once, or not at all in the test mode.
    pub run_main_ok :
        (run_main split_add argc tables test_mode s jni v j).0 ≡ true
        → let (ok, v', j') = run_main split_add argc tables test_mode s jni v j in
          ((s.jvm_created && (s.loader_ok && not s.exception)) ≡ true)
          × (v'.running ≡ false)
          × (j'.mains ≡ (if test_mode then j.mains else j.mains + 1))
          × (j'.live ≡ cur_thread ∷ j.live)
    unfolding run_main
    run_main_ok ok = elim (Bool-cases (getvm split_add tables s v).0) [
      | inr none_got ↦ cc (rw none_got at ok)
      | inl got ↦
          let (live, quiet, mains) = run_ldr_main_ok jni (argc - 1) test_mode j (rw got at ok) in
          rw got (getvm-created got, refl, mains, live)
    ]

    -- A JVM that was created but got no loader, or has an exception pending, is left running: the
    -- result is a failure and no code destroys it.
    pub run_main_leaves :
        (getvm split_add tables s v).0 ≡ false
        → first.0 ≡ true
        → second.0 ≡ true
        → s.jvm_created ≡ true
        → let (ok, v', j') = run_main split_add argc tables test_mode s jni v j in
          (ok ≡ false) × (v'.running ≡ true) × (j'.mains ≡ j.mains)
    unfolding run_main getvm create free_all
    run_main_leaves got a b c = ground arith
