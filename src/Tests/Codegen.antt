-- ===== src/Tests/Codegen.antt =====
-- The theorems on the generated program and on the main function, applied to an application of one
-- class file.
use mathlib.Core.List.{mem-cons_self}
use endurox_java.Base.{
  zero, suc, length, ◌&&◌, not, ℕ, ◌+◌, ◌-◌, ◌≡◌, refl, ap, true, false, Option, some, List, [],
  ◌∷◌, ◌++◌, take, arith,
}
use endurox_java.Base.Bytes.{CString, codes, str_eq}
use endurox_java.Boot.Index.{get_index_bytes}
use endurox_java.Linker.Entry.{
  classes, Job, process_entry, is_class_file, entry_name, skip_dots, dot_of_slash, strip_suffix,
  walk,
}
use endurox_java.Linker.Resources.{
  resname_sort, Resource, resname_of, HashLib, embedded_ok, res_find, head_of, with_head, element,
  res_sort_by_resname,
}
use endurox_java.Linker.Settings.{BufferLib, settings_start}
use endurox_java.Linker.Options.{
  Opt, opt_main, option_step, options, add_libs, default_libs, args_start,
}
use endurox_java.Linker.Codegen.{Answers, codegen, jmain, build_command, is_relative, is_empty}
use endurox_java.Linker.Codegen.Text.{program, jmain_lem}
use endurox_java.Linker.Codegen.Command.{commands, IsOrderly, codegen_lem}
use endurox_java.Linker.Main.{
  clean_up, System, and_then, read_args, choose_libs, start_pool, make_dir, save_cwd, enter_dir,
  extract_jar_th, extract_all, extract_jars, class_build_hash, sort_hashes, generate, test_binary,
  main_body, main,
}
use endurox_java.Linker.Main.Done.{Done, work}
use endurox_java.Linker.Main.Outcome.{main_success}
use endurox_java.Linker.Resources.Threads.{
  job_at, run_threads, run_turns, thpool_wait, turn, res_add_section,
}
use endurox_java.Linker.Resources.Race.Safety.{Distinct}
use endurox_java.Linker.Main.Residue.{residue, nothing, is_some}
use endurox_java.Linker.Main.CleanUp.{main_cleans}
use endurox_java.Linked.{index_of, main_found}
use endurox_java.Tests.HashList.{hash_list}

abbrev hashes : HashLib Resource resname_of
hashes = hash_list resname_of

abbrev digit : ℕ → CString
digit n = (n + b'0') ∷ []

pub minus_one : (n : ℕ) → n + 1 - 1 ≡ n
minus_one n = omega arith

abbrev pub buffers : BufferLib
buffers = record {
  strcpy_safe = λ n s. take (n - 1) s;
  strcat_s = λ n a b. take (n - 1) (a ++ b);
  strcpy_safe_fits = λ n s. ap (λ m. take m s) (minus_one n);
  strcat_s_fits = λ n a b h. ap (λ m. take m (a ++ b)) (minus_one n);
}

abbrev list_add : List CString → CString → Option (List CString)
list_add l s = some (l ++ s ∷ [])

abbrev class_a : Resource
class_a = record {
  resname = codes "A";
  id = 1;
  respath = codes "./A.class";
  embpath = codes "class_1";
}

jmain_lem_example :
    jmain digit (codes "A") false (class_a ∷ []) []
    ≡ program digit (codes "A") false (class_a ∷ []) []
jmain_lem_example = jmain_lem digit (codes "A") false (class_a ∷ []) []

abbrev yes : Answers
yes = record { can_open = true; first_run = true; second_run = true }

codegen_lem_example :
    let (ok, actions) = codegen buffers digit settings_start (class_a ∷ []) [] yes true in
    IsOrderly (jmain digit [] true (class_a ∷ []) []) actions
    × (commands actions
        ≡ build_command buffers settings_start ∷ build_command buffers settings_start ∷ [])
    × (ok ≡ true)
codegen_lem_example = codegen_lem buffers digit settings_start (class_a ∷ []) [] yes true

abbrev machine : System
machine = record {
  pool_ok = true;
  made = some (codes "./exjld.abcdef");
  cwd = some (codes "/home");
  can_enter = true;
  jar_ok = λ p. true;
  found =
      record { path = codes "./A.class"; is_file = true; memory = true }
      ∷ record { path = codes "./B.class"; is_file = true; memory = true }
      ∷ [];
  outcome = λ j. embedded_ok;
  schedule = 1 ∷ 0 ∷ 0 ∷ [];
  test_build = yes;
  final_build = yes;
}

abbrev command_line : List Opt
command_line = opt_main (codes "A") ∷ []

abbrev jar_files : List CString
jar_files = codes "a.jar" ∷ []

linked_ok : (main buffers list_add hashes digit machine command_line jar_files).0 ≡ true
unfolding main main_body and_then read_args choose_libs start_pool make_dir save_cwd enter_dir
    extract_jars extract_all extract_jar_th class_build_hash sort_hashes generate test_binary
    codegen options option_step default_libs add_libs is_relative walk process_entry is_class_file
    str_eq run_threads run_turns thpool_wait turn res_add_section res_find head_of with_head
    hash_list
linked_ok = refl

main_success_example :
    (is_empty jar_files ≡ false)
    × ((options buffers list_add command_line args_start).0 ≡ true)
    × (is_empty (options buffers list_add command_line args_start).1.settings.main_class ≡ false)
    × Done buffers list_add hashes digit machine
        (main buffers list_add hashes digit machine command_line jar_files).1.deeds
main_success_example =
    main_success buffers list_add hashes digit machine command_line jar_files linked_ok

abbrev file_bytes : Resource → List ℕ
file_bytes r = r.id ∷ []

abbrev job_a : Job
job_a = record {
  head = classes;
  resname = codes "A";
  id = 1;
  respath = codes "./A.class";
  emb_pfx = codes "class";
}

-- The jobs of the two files, whose look-ups come in front of both insertions.
two_names :
    Distinct hashes digit
      (λ i. (job_at (work buffers list_add hashes digit machine) i).0)
      (length (work buffers list_add hashes digit machine))
unfolding walk process_entry is_class_file str_eq entry_name skip_dots dot_of_slash strip_suffix
two_names zero zero in_i in_j heads names = refl
two_names zero (suc zero) in_i in_j heads names = cc
two_names (suc zero) zero in_i in_j heads names = cc
two_names (suc zero) (suc zero) in_i in_j heads names = refl
two_names i (suc (suc j)) in_i in_j heads names = absurd (omega arith)
two_names (suc (suc i)) j in_i in_j heads names = absurd (omega arith)

main_found_example :
    get_index_bytes true true true
      (codes "A")
      (index_of buffers list_add hashes digit file_bytes machine classes
        (main buffers list_add hashes digit machine command_line jar_files).1)
      0
    ≡ some (some (1 ∷ []), 0)
unfolding main main_body and_then read_args choose_libs start_pool make_dir save_cwd enter_dir
    extract_jars extract_all extract_jar_th class_build_hash sort_hashes generate test_binary
    codegen options option_step default_libs add_libs is_relative walk process_entry is_class_file
    str_eq run_threads run_turns thpool_wait turn res_add_section res_find head_of with_head
    hash_list element res_sort_by_resname entry_name skip_dots dot_of_slash strip_suffix clean_up
    resname_sort
main_found_example =
    main_found buffers list_add hashes digit file_bytes machine command_line jar_files linked_ok
      two_names classes job_a mem-cons_self (omega arith) true true true 0

named_made : (d : CString) → machine.made ≡ some d → is_empty d ≡ false
named_made d e = let same : codes "./exjld.abcdef" ≡ d = cc in rw (← same) refl

named_cwd : (d : CString) → machine.cwd ≡ some d → is_empty d ≡ false
named_cwd d e = let same : codes "/home" ≡ d = cc in rw (← same) refl

main_cleans_example :
    let l = (main buffers list_add hashes digit machine command_line jar_files).1 in
    ((residue l.deeds nothing).threads ≡ false)
    × ((residue l.deeds nothing).inside ≡ false)
    × ((is_some (residue l.deeds nothing).dir && not l.args.settings.keep_temp) ≡ false)
main_cleans_example =
    main_cleans buffers list_add hashes digit machine named_made named_cwd command_line jar_files
