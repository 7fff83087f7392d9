-- ===== src/Linker/Settings.antt =====
-- exjld/exjld.c: the globals of the linker that its options set, and the functions of the Enduro/X
-- library for strings in buffers, which are not part of the repository: they enter as `BufferLib`.
use endurox_java.Base.{ℕ, ◌+◌, ◌<◌, ◌≡◌, Bool, true, false, List, [], ◌++◌, length, take}
use endurox_java.Base.Bytes.{CString, codes}

abbrev pub path_max : ℕ
path_max = 4096

-- NDRX_STRCPY_SAFE and NDRX_STRCAT_S on a buffer of the given size: what fits is written.
pub record BufferLib : Type 0 where
  pub strcpy_safe : ℕ → CString → CString
  pub strcat_s : ℕ → CString → CString → CString
  pub strcpy_safe_fits : (n : ℕ) (s : CString) → strcpy_safe (n + 1) s ≡ take n s
  pub strcat_s_fits :
      (n : ℕ) (a b : CString) → length a < n + 1 → strcat_s (n + 1) a b ≡ take n (a ++ b)

-- `ndrx_G_build_cmd`, `ndrx_G_do_test`, …
pub record Settings : Type 0 where
  pub build_cmd : CString
  pub do_test : Bool
  pub main_class : CString
  pub out_bin : CString
  pub wd : CString
  pub owd : CString
  pub libpath : List CString
  pub incpath : List CString
  pub libs : List CString
  pub keep_temp : Bool

abbrev pub settings_start : Settings
settings_start = record {
  build_cmd = codes "buildserver";
  do_test = true;
  main_class = [];
  out_bin = [];
  wd = [];
  owd = [];
  libpath = [];
  incpath = [];
  libs = [];
  keep_temp = false;
}
