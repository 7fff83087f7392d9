-- ===== src/Linker/Options.antt =====
-- exjld/exjld.c, `main`: the options of the linker, and the libraries it links by default.
use endurox_java.Base.{
  ℕ, ◌+◌, ◌-◌, ◌*◌, Bool, true, false, ◌&&◌, ◌||◌, Option, none, some, List, [], ◌∷◌, ◌++◌, ltb,
  leb, ◌==◌, if◌then◌else◌,
}
use endurox_java.Base.Bytes.{CString, codes, fit}
use endurox_java.Linker.Settings.{path_max, BufferLib, Settings, settings_start}
use endurox_java.Linker.Codegen.{is_empty}

-- What `getopt` returns, with its argument.
pub data Opt : Type 0 where
  opt_lib_path opt_include opt_build opt_main opt_output opt_library opt_jobs opt_temp :
      CString → Opt
  opt_no_test opt_keep opt_help opt_unknown : Opt

-- The part of `atoi` that the code looks at: the value when it is positive, and 0 otherwise.
unfoldable pub atoi_digits : CString → ℕ → ℕ
atoi_digits [] n = n
atoi_digits (c ∷ s) n =
    let rest = atoi_digits s (n * 10 + (c - b'0')) in if leb b'0' c && leb c b'9' then rest else n

unfoldable pub atoi : CString → ℕ
unfolding atoi_digits
atoi [] = 0
atoi (c ∷ s) =
    let rest = atoi s in
    if (c == b' ') || (leb 9 c && leb c 13)
    then rest
    else if c == b'+'
    then atoi_digits s 0
    else atoi_digits (c ∷ s) 0

-- The locals of `main` with the globals, and the variable NDRX_LD_LIBRARY_PATH.
pub record Args : Type 0 where
  pub settings : Settings
  pub tmp_outbin : CString
  pub jobs : ℕ
  pub ld_path : Option CString

abbrev pub args_start : Args
args_start = record {
  settings = settings_start;
  tmp_outbin = codes "a.out";
  jobs = 4;
  ld_path = none;
}

abbrev pub tempdir_mask : CString
tempdir_mask = codes "exjld.XXXXXX"

-- `list_add` is `ndrx_string_list_add` of the Enduro/X library; it fails without memory.
module _ (B : BufferLib) (list_add : List CString → CString → Option (List CString)) where
  open B use {strcpy_safe}

  -- One round of the `switch`; false is a jump to `out`.
  unfoldable pub option_step : Opt → Args → Bool × Args
  unfolding atoi
  option_step (opt_lib_path v) a =
      let tmp : CString = elim a.ld_path [
        | some env ↦ fit path_max (env ++ codes ":" ++ v)
        | none ↦ strcpy_safe path_max v
      ] in
      let a' : Args = record a { ld_path = some tmp } in
      elim (list_add a.settings.libpath v) [
        | some l ↦ (true, record a' { settings = record (a.settings) { libpath = l } })
        | none ↦ (false, a')
      ]
  option_step (opt_include v) a = elim (list_add a.settings.incpath v) [
    | some l ↦ (true, record a { settings = record (a.settings) { incpath = l } })
    | none ↦ (false, a)
  ]
  option_step (opt_build v) a = (
    true,
    record a { settings = record (a.settings) { build_cmd = strcpy_safe (path_max + 1) v } },
  )
  option_step opt_no_test a =
      (true, record a { settings = record (a.settings) { do_test = false } })
  option_step (opt_main v) a = (
    true,
    record a { settings = record (a.settings) { main_class = strcpy_safe (path_max + 1) v } },
  )
  option_step (opt_output v) a = (true, record a { tmp_outbin = strcpy_safe path_max v })
  option_step (opt_library v) a = elim (list_add a.settings.libs v) [
    | some l ↦ (true, record a { settings = record (a.settings) { libs = l } })
    | none ↦ (false, a)
  ]
  option_step (opt_jobs v) a =
      if ltb 0 (atoi v) then (true, record a { jobs = atoi v }) else (false, a)
  option_step opt_keep a = (true, record a { settings = record (a.settings) { keep_temp = true } })
  option_step (opt_temp v) a = (
    true,
    record a {
      settings = record (a.settings) { wd = fit (path_max + 1) (v ++ codes "/" ++ tempdir_mask) };
    },
  )
  option_step opt_help a = (false, a)
  option_step opt_unknown a = (false, a)

  -- The loop over the options.
  unfoldable pub options : List Opt → Args → Bool × Args
  options [] a = (true, a)
  options (o ∷ os) a =
      let (ok, a') = option_step o a in let rest = options os a' in if ok then rest else (false, a')

  -- The libraries that are linked when none is named.
  unfoldable pub add_libs : List CString → Args → Bool × Args
  add_libs [] a = (true, a)
  add_libs (l ∷ ls) a = elim (list_add a.settings.libs l) [
    | none ↦ (false, a)
    | some libs ↦ add_libs ls (record a { settings = record (a.settings) { libs = libs } })
  ]

  unfoldable pub default_libs : Args → Bool × Args
  default_libs a =
      if is_empty a.settings.libs
      then add_libs (codes "exjlds" ∷ codes "java" ∷ codes "jvm" ∷ []) a
      else (true, a)
