-- ===== src/Boot/Handler/Exits.antt =====
-- What the exits of the two functions leave behind: references, and the use of an unset variable.
use endurox_java.Base.{
  ℕ, zero, suc, ◌+◌, ◌≡◌, refl, ap, ◌∙◌, Bool, Bool-cases, inl, inr, true, false, not, ◌&&◌, ◌||◌,
  List, [], ◌∷◌, ◌++◌, arith, if◌then◌else◌,
}
use endurox_java.Boot.Jni.{
  Ref, label, str_class, args, main_class, thread_class, cur_thread, arg_string, load_class,
  run_method, current_thread, set_context, set_element, Jni, Jvm, remove, acquire, release,
  release_if,
}
use endurox_java.Boot.Handler.{handler_out, get_static_handler, fill_args, main_out, run_ldr_main}

module _ (jni : Jni) (j : Jvm) where
  open jni use {gives, has, throws}

  -- The class and its method were found, so that the code reaches the variable `thread_class`.
  abbrev pub method_found : Bool
  method_found = has load_class && (gives main_class && has run_method)

  abbrev pub thread_found : Bool
  thread_found = gives thread_class && (has current_thread && gives cur_thread)

  -- The look-up succeeds just when every step does; it leaves the reference to the class, which the
  -- caller gets, and one to the thread, which nobody has; and it reads the variable `thread_class`
  -- unset just when the class or its method is not found.
  pub get_static_handler_lem :
      let (ok, given, j') = get_static_handler jni j in
      (ok ≡ (method_found && (thread_found && (has set_context && not (throws set_context)))))
      × (given ≡ (has load_class && gives main_class))
      × (j'.live
          ≡ (if method_found && thread_found then cur_thread ∷ [] else [])
            ++ (if has load_class && gives main_class then main_class ∷ [] else [])
            ++ j.live)
      × (j'.undefined ≡ (not method_found || j.undefined))
      × (j'.mains ≡ j.mains)
  unfolding get_static_handler handler_out release_if release remove acquire label
  get_static_handler_lem = ground arith

-- A look-up that succeeds gives the class, and leaves the references to it and to the thread.
get_static_handler-true :
    (jni : Jni) (j : Jvm)
    → (get_static_handler jni j).0 ≡ true
    → let (ok, given, j') = get_static_handler jni j in
      (given ≡ true) × (j'.live ≡ cur_thread ∷ main_class ∷ j.live) × (j'.undefined ≡ j.undefined)
unfolding get_static_handler handler_out release_if release remove acquire label
get_static_handler-true jni j ok = ground arith

module _ (jni : Jni) where
  open jni use {gives, has, throws}

  remove_head : (r : Ref) (l : List Ref) → remove r (r ∷ l) ≡ l
  unfolding remove
  remove_head r l = ground arith

  release-acquire : (r : Ref) (j : Jvm) → release r (acquire r j) ≡ j
  unfolding release acquire
  release-acquire r j = ap (λ l. record j { live = l }) (remove_head r j.live)

  fill_args-true :
      (left i : ℕ) (j : Jvm) → (fill_args jni left i j).0 ≡ true → (fill_args jni left i j).1 ≡ j
  unfolding fill_args
  fill_args-true zero i j ok = refl
  fill_args-true (suc left) i j ok =
      let same = release-acquire (arg_string i) j in
      let ih = fill_args-true left (i + 1) j in
      elim (Bool-cases (gives (arg_string i))) [
        | inr none_given ↦ cc (rw none_given at ok)
        | inl given ↦ elim (Bool-cases (throws (set_element i))) [
          | inl thrown ↦ cc (rw (given, thrown) at ok)
          | inr quiet ↦ rw (given, quiet, same) (ih (rw (given, quiet, same) at ok))
        ]
      ]

  fill_args-mains : (left i : ℕ) (j : Jvm) → (fill_args jni left i j).1.mains ≡ j.mains
  unfolding fill_args acquire
  fill_args-mains zero i j = refl
  fill_args-mains (suc left) i j =
      let same = release-acquire (arg_string i) j in
      let ih = fill_args-mains left (i + 1) j in
      elim (Bool-cases (gives (arg_string i))) [
        | inr none_given ↦ rw none_given refl
        | inl given ↦ elim (Bool-cases (throws (set_element i))) [
          | inl thrown ↦ rw (given, thrown) refl
          | inr quiet ↦ rw (given, quiet, same) ih
        ]
      ]

  main_out-mains : (m s a : Bool) (j : Jvm) → (main_out m s a j).mains ≡ j.mains
  unfolding main_out release_if release
  main_out-mains m s a j = ground arith

  -- The state in which the class is looked up.
  abbrev prepared : (argc : ℕ) → Jvm → Jvm
  prepared argc j = (fill_args jni argc 0 (acquire args (acquire str_class j))).1

  prepared-mains : (argc : ℕ) (j : Jvm) → (prepared argc j).mains ≡ j.mains
  unfolding acquire
  prepared-mains argc j = fill_args-mains argc 0 (acquire args (acquire str_class j))

  -- The Java main runs at most once, and never in the test mode.
  pub run_ldr_main-mains :
      (argc : ℕ) (test_mode : Bool) (j : Jvm)
      → let ready =
          gives str_class
          && (gives args
              && ((fill_args jni argc 0 (acquire args (acquire str_class j))).0
                  && (get_static_handler jni
                      (fill_args jni argc 0 (acquire args (acquire str_class j))).1).0)) in
        (run_ldr_main jni argc test_mode j).1.mains
        ≡ (if ready && not test_mode then j.mains + 1 else j.mains)
  unfolding run_ldr_main acquire
  run_ldr_main-mains argc test_mode j =
      let m3 = prepared-mains argc j in
      let m4 = (get_static_handler_lem jni (prepared argc j)).4 in
      elim (Bool-cases (gives str_class)) [
        | inr a ↦ rw a (main_out-mains false false false j)
        | inl a ↦ elim (Bool-cases (gives args)) [
          | inr b ↦ rw (a, b) (main_out-mains false true false (acquire str_class j))
          | inl b ↦
              elim (Bool-cases (fill_args jni argc 0 (acquire args (acquire str_class j))).0) [
                | inr c ↦ rw (a, b, c) (main_out-mains false true true (prepared argc j) ∙ m3)
                | inl c ↦ elim (Bool-cases (get_static_handler jni (prepared argc j)).0) [
                  | inr d ↦ rw (a, b, c, d) (main_out-mains _ true true _ ∙ m4 ∙ m3)
                  | inl d ↦ elim (Bool-cases test_mode) [
                    | inl t ↦ rw (a, b, c, d, t) (main_out-mains _ true true _ ∙ m4 ∙ m3)
                    | inr t ↦
                        rw (a, b, c, d, t)
                          (main_out-mains _ true true _ ∙ ap (λ n. n + 1) (m4 ∙ m3))
                  ]
                ]
              ]
        ]
      ]

  run_ldr_main-true :
      (argc : ℕ) (test_mode : Bool) (j : Jvm)
      → (run_ldr_main jni argc test_mode j).0 ≡ true
      → let (ok, given, j4) = get_static_handler jni (prepared argc j) in
        (gives str_class ≡ true)
        × (gives args ≡ true)
        × ((fill_args jni argc 0 (acquire args (acquire str_class j))).0 ≡ true)
        × (ok ≡ true)
        × ((run_ldr_main jni argc test_mode j).1
            ≡ main_out given true true
                (record j4 { mains = if test_mode then j4.mains else j4.mains + 1 }))
  unfolding run_ldr_main
  run_ldr_main-true argc test_mode j ok = elim (Bool-cases (gives str_class)) [
    | inr a ↦ cc (rw a at ok)
    | inl a ↦ elim (Bool-cases (gives args)) [
      | inr b ↦ cc (rw (a, b) at ok)
      | inl b ↦ elim (Bool-cases (fill_args jni argc 0 (acquire args (acquire str_class j))).0) [
        | inr c ↦ cc (rw (a, b, c) at ok)
        | inl c ↦ elim (Bool-cases (get_static_handler jni (prepared argc j)).0) [
          | inr d ↦ cc (rw (a, b, c, d) at ok)
          | inl d ↦ elim (Bool-cases test_mode) [
            | inl t ↦ rw (a, b, c, d, t) (refl, refl, refl, refl, refl)
            | inr t ↦ rw (a, b, c, d, t) (refl, refl, refl, refl, refl)
          ]
        ]
      ]
    ]
  ]

  -- When the function succeeds, all references that it took are deleted but the one to the thread,
  -- no unset variable was read, and the Java main ran once, or not at all in the test mode.
  pub run_ldr_main_ok :
      (argc : ℕ) (test_mode : Bool) (j : Jvm)
      → (run_ldr_main jni argc test_mode j).0 ≡ true
      → let j' = (run_ldr_main jni argc test_mode j).1 in
        (j'.live ≡ cur_thread ∷ j.live)
        × (j'.undefined ≡ j.undefined)
        × (j'.mains ≡ (if test_mode then j.mains else j.mains + 1))
  unfolding main_out release_if release remove acquire label
  run_ldr_main_ok argc test_mode j ok =
      let (a, b, filled, handled, e) = run_ldr_main-true argc test_mode j ok in
      let same = fill_args-true argc 0 (acquire args (acquire str_class j)) filled in
      let (given, live, quiet) = get_static_handler-true jni (prepared argc j) handled in
      let mains = (get_static_handler_lem jni (prepared argc j)).4 in
      rw (e, given, live, quiet, mains, same) (refl, refl, refl)
