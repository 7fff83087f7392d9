-- ===== src/Boot/Handler.antt =====
-- libexjlds/exj.c, `ndrxj_ldr_get_static_handler` and `run_ldr_main`: the static method of a class
-- is looked up through the class loader, and the Java main is called.
pub mod Exits
use endurox_java.Base.{
  ℕ, zero, suc, ◌+◌, ◌-◌, Bool, true, false, not, ◌&&◌, List, [], ◌∷◌, if◌then◌else◌,
}
use endurox_java.Boot.Jni.{
  Ref, str_class, args, main_class, run_str, thread_class, cur_thread, arg_string, Method,
  load_class, run_method, current_thread, set_context, set_element, Jni, Jvm, acquire, release,
  release_if,
}

-- The variable `thread_class`, which has no initialiser.
pub data Pointer : Type 0 where
  unset null valid : Pointer

-- Behind `out:` of `ndrxj_ldr_get_static_handler`.
unfoldable pub handler_out : Pointer → (str_given : Bool) → Jvm → Jvm
handler_out unset str_given j = release_if str_given run_str (record j { undefined = true })
handler_out null str_given j = release_if str_given run_str j
handler_out valid str_given j = release_if str_given run_str (release thread_class j)

-- Behind `out:` of `run_ldr_main`.
unfoldable pub main_out : (main_given str_given args_given : Bool) → Jvm → Jvm
main_out main_given str_given args_given j =
    release_if args_given args (release_if str_given str_class (release_if main_given main_class j))

module _ (jni : Jni) where
  open jni use {gives, has, throws}

  -- The result is the status, and whether `*run_class` is not NULL.
  unfoldable pub get_static_handler : Jvm → Bool × Bool × Jvm
  get_static_handler j =
      let given = gives run_str in
      let j1 = if given then acquire run_str j else j in
      let j2 = acquire main_class j1 in
      let j3 = acquire thread_class j2 in
      let j4 = acquire cur_thread j3 in
      if not (has load_class)
      then (false, false, handler_out unset false j)
      else if not (gives main_class)
      then (false, false, handler_out unset given j1)
      else if not (has run_method)
      then (false, true, handler_out unset given j2)
      else if not (gives thread_class)
      then (false, true, handler_out null given j2)
      else if not (has current_thread)
      then (false, true, handler_out valid given j3)
      else if not (gives cur_thread)
      then (false, true, handler_out valid given j3)
      else if not (has set_context)
      then (false, true, handler_out valid given j4)
      else if throws set_context
      then (false, true, handler_out valid given j4)
      else (true, true, handler_out valid given j4)

  -- The loop over the arguments, `left` of them from the `i`-th on.
  unfoldable pub fill_args : (left i : ℕ) → Jvm → Bool × Jvm
  fill_args zero i j = (true, j)
  fill_args (suc left) i j =
      let j' = acquire (arg_string i) j in
      let rest = fill_args left (i + 1) (release (arg_string i) j') in
      if not (gives (arg_string i))
      then (false, j)
      else if throws (set_element i)
      then (false, j')
      else rest

  unfoldable pub run_ldr_main : (argc : ℕ) (test_mode : Bool) → Jvm → Bool × Jvm
  run_ldr_main argc test_mode j =
      let j1 = acquire str_class j in
      let j2 = acquire args j1 in
      let (filled, j3) = fill_args argc 0 j2 in
      let (ok, given, j4) = get_static_handler j3 in
      let j5 = record j4 { mains = j4.mains + 1 } in
      if not (gives str_class)
      then (false, main_out false false false j)
      else if not (gives args)
      then (false, main_out false true false j1)
      else if not filled
      then (false, main_out false true true j3)
      else if not ok
      then (false, main_out given true true j4)
      else if test_mode
      then (true, main_out given true true j4)
      else (not (throws run_method), main_out given true true j5)
