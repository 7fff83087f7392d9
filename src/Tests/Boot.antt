-- ===== src/Tests/Boot.antt =====
-- The theorems on the boot library, applied to a JVM that gives everything it is asked for.
use endurox_java.Base.{
  ◌≡◌, refl, Bool, true, false, not, ◌&&◌, Option, some, none, List, [], ◌∷◌, ◌++◌,
}
use endurox_java.Base.Bytes.{CString, codes, strcmp, str_eq}
use endurox_java.Boot.Jni.{label, remove, cur_thread, Jni, Jvm, acquire, release, release_if}
use endurox_java.Boot.Handler.{get_static_handler, handler_out, fill_args, main_out, run_ldr_main}
use endurox_java.Boot.Handler.Exits.{run_ldr_main_ok}
use endurox_java.Boot.ClassPath.{read_tag, skip_blanks, cp_proc}
use endurox_java.Boot.Vm.{
  KeyVal, is_opts, Setup, Vm, opts_loop, read_config, read_env, create, free_all, getvm, run_main,
}
use endurox_java.Boot.Vm.Start.{run_main_ok}

abbrev kind_jni : Jni
kind_jni = record { gives = λ r. true; has = λ m. true; throws = λ m. false }

abbrev fresh : Jvm
fresh = record { live = []; undefined = false; mains = 0 }

run_ldr_main_ok_example :
    let j' = (run_ldr_main kind_jni 1 false fresh).1 in
    (j'.live ≡ cur_thread ∷ []) × (j'.undefined ≡ false) × (j'.mains ≡ 1)
unfolding run_ldr_main main_out fill_args acquire release remove label get_static_handler
    handler_out release_if
run_ldr_main_ok_example = run_ldr_main_ok kind_jni 1 false fresh refl

abbrev split_add : List CString → CString → Option (List CString)
split_add l s = some (l ++ s ∷ [])

indented : cp_proc split_add [] (codes " -cp /lib/a.jar") ≡ (true, [])
unfolding cp_proc skip_blanks read_tag str_eq strcmp
indented = refl

abbrev two_keys : List KeyVal
two_keys =
    record { key = codes "debug"; val = codes "1" }
    ∷ record { key = codes "opts2"; val = codes "-Xmx1g" }
    ∷ []

abbrev no_vm : Vm
no_vm = record {
  tables = record { class_index = []; res_index = [] };
  classpath_url = [];
  options = [];
  running = false;
  held = [];
  dangling = false;
}

abbrev setup : (loader_ok : Bool) → Setup
setup loader_ok = record {
  config_read = some true;
  java_section = some two_keys;
  memory = true;
  cp_env = none;
  jvm_created = true;
  loader_ok = loader_ok;
  exception = false;
}

run_main_ok_example :
    let (ok, v', j') = run_main split_add 2 no_vm.tables false (setup true) kind_jni no_vm fresh in
    ((true && (true && not false)) ≡ true)
    × (v'.running ≡ false)
    × (j'.mains ≡ 1)
    × (j'.live ≡ cur_thread ∷ [])
unfolding run_main getvm read_config read_env create opts_loop is_opts str_eq strcmp cp_proc
    skip_blanks read_tag free_all run_ldr_main main_out fill_args acquire release remove label
    get_static_handler handler_out release_if
run_main_ok_example =
    run_main_ok split_add 2 no_vm.tables false (setup true) kind_jni no_vm fresh refl
