-- ===== src/Linker/Codegen.antt =====
-- exjld/codegen.c, `ndrxj_codegen`: the C program that embeds the classes, the command that builds
-- it, and the two runs of that command.
pub mod Text
pub mod Command
use endurox_java.Base.{
  ℕ, suc, ◌+◌, ◌-◌, ◌*◌, Bool, true, false, ◌&&◌, ◌||◌, not, List, [], ◌∷◌, ◌++◌, ltb, ◌==◌,
  if◌then◌else◌,
}
use endurox_java.Base.Bytes.{CString, codes, fit}
use endurox_java.Linker.Resources.{Resource}
use endurox_java.Linker.Settings.{path_max, BufferLib, Settings}

-- The locals of the loops: the file so far, `first`, and the counter.
pub record Printer : Type 0 where
  pub file : CString
  pub first : Bool
  pub num : ℕ

abbrev pub emb_head : CString
emb_head = codes "ndrxj_class_index_t ndrxj_G_emb_index [] = \n{\n"

module _ (number : ℕ → CString) where
  -- The loops over the hashes that write the includes.
  unfoldable pub include_lines : List Resource → CString
  include_lines [] = []
  include_lines (el ∷ els) =
      codes "#include \"" ++ el.embpath ++ codes ".cinclude\"\n" ++ include_lines els

  -- One row of a table; `kind` is "class" or "emb".
  unfoldable pub table_row : (kind : CString) → Resource → CString
  table_row kind el =
      codes "\t{\n\t\t\""
      ++ el.resname
      ++ codes "\",\n\t\tndrx_G_resource_"
      ++ kind
      ++ codes "_"
      ++ number el.id
      ++ codes ",\n\t\tndrx_G_resource_"
      ++ kind
      ++ codes "_"
      ++ number el.id
      ++ codes "_len_def\n\t}\n"

  -- The loop over the classes.
  unfoldable pub class_loop : List Resource → Printer → Printer
  class_loop [] p = p
  class_loop (el ∷ els) p = class_loop els (record {
    file = p.file ++ (if p.first then [] else codes "\t,\n") ++ table_row (codes "class") el;
    first = false;
    num = p.num + 1;
  })

  -- The loop over the resources, which opens the table at the first of them.
  unfoldable pub emb_loop : List Resource → Printer → Printer
  emb_loop [] p = p
  emb_loop (el ∷ els) p = emb_loop els (record {
    file = p.file ++ (if p.first then emb_head else codes "\t,\n") ++ table_row (codes "emb") el;
    first = false;
    num = p.num + 1;
  })

  -- The text of jmain.c.
  unfoldable pub jmain :
      (main_class : CString) (test_mode : Bool) → List Resource → List Resource → CString
  jmain main_class test_mode class_els emb_els =
      let top =
        codes "#include <exjlds.h>\n#include <stdio.h>\n"
        ++ include_lines class_els
        ++ include_lines emb_els
        ++ codes "ndrxj_class_index_t ndrxj_G_class_index [] = \n{\n" in
      let c = class_loop class_els (record { file = top; first = true; num = 0 }) in
      let e =
        emb_loop emb_els (record { file = c.file ++ codes "};\n\n"; first = true; num = 0 }) in
      (if not e.first then e.file ++ codes "};\n\n" else e.file)
      ++ codes
          "int main(int argc, char **argv)\n{\n        \n\treturn ndrxj_run_main(argc, argv, \""
      ++ main_class
      ++ codes "\",\n\t\tndrxj_G_class_index, "
      ++ number c.num
      ++ codes ", "
      ++ (if ltb 0 e.num then codes "ndrxj_G_emb_index" else codes "NULL")
      ++ codes ", "
      ++ number e.num
      ++ codes ",\n                "
      ++ number (if test_mode then 1 else 0)
      ++ codes ");\n}\n"

abbrev pub is_empty {ℓ} : {A : Type ℓ} → List A → Bool
is_empty [] = true
is_empty (x ∷ xs) = false

-- `'/' != qname[0]`, the byte at 0 of an empty string being NUL
unfoldable pub is_relative : CString → Bool
is_relative [] = true
is_relative (c ∷ s) = not (c == b'/')

module _ (B : BufferLib) where
  open B use {strcpy_safe, strcat_s}

  -- A search path, below the directory of the start when it is relative.
  unfoldable pub search_path : (owd : CString) → CString → CString
  search_path owd qname =
      if is_relative qname
      then fit (path_max + 1) (owd ++ codes "/" ++ qname)
      else strcpy_safe (path_max + 1) qname

  -- The three loops that collect flags; `value` is the identity for the libraries.
  unfoldable pub flag_loop :
      (flag : CString) (value : CString → CString) → Bool → List CString → CString → CString
  flag_loop flag value first [] buffer = buffer
  flag_loop flag value first (q ∷ qs) buffer =
      let spaced = if first then buffer else strcat_s (path_max + 1) buffer (codes " ") in
      let flagged = strcat_s (path_max + 1) spaced flag in
      flag_loop flag value false qs (strcat_s (path_max + 1) flagged (value q))

  -- The build command.
  unfoldable pub build_command : Settings → CString
  build_command s =
      let libs = flag_loop (codes "-l") (λ q. q) true s.libs [] in
      let include_path = flag_loop (codes "-I") (search_path s.owd) true s.incpath [] in
      let libpath_path = flag_loop (codes "-L") (search_path s.owd) true s.libpath [] in
      let common =
        s.build_cmd
        ++ codes " -n -o '"
        ++ s.out_bin
        ++ codes "' -f 'jmain.c "
        ++ libs
        ++ codes "'" in
      fit (path_max + 1) (
        if not (is_empty include_path) || not (is_empty libpath_path)
        then common ++ codes " -a \"" ++ include_path ++ codes " " ++ libpath_path ++ codes "\""
        else common)

-- What the process does: it opens and closes jmain.c, writes it, and runs commands.
pub data Action : Type 0 where
  opened closed : Action
  wrote : CString → Action
  ran : CString → Action

-- What the system answers: whether jmain.c can be opened, and whether the two runs succeed.
pub record Answers : Type 0 where
  pub can_open : Bool
  pub first_run : Bool
  pub second_run : Bool

module _ (B : BufferLib) (number : ℕ → CString) where
  unfoldable pub codegen :
      Settings → List Resource → List Resource → Answers → (test_mode : Bool) → Bool × List Action
  codegen s class_els emb_els a test_mode =
      let text = jmain number s.main_class test_mode class_els emb_els in
      let command = build_command B s in
      let built = opened ∷ wrote text ∷ closed ∷ ran command ∷ [] in
      if not a.can_open
      then (false, [])
      else if not a.first_run
      then (false, built)
      else if test_mode
      then (a.second_run, built ++ ran command ∷ [])
      else (true, built)
