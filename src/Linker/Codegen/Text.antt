-- ===== src/Linker/Codegen/Text.antt =====
-- The text of jmain.c: the loops with their `first` flags write each table as a C initialiser.
use mathlib.Core.List.{append_assoc, append-nil}
use endurox_java.Base.{
  ℕ, ◌+◌, ◌≡◌, refl, ap, ap₂, sym, ◌∙◌, Bool, true, false, List, [], ◌∷◌, ◌++◌, map, length, led,
  join, arith, ltb, if◌then◌else◌,
}
use endurox_java.Base.Bytes.{CString, codes}
use endurox_java.Linker.Resources.{Resource}
use endurox_java.Linker.Codegen.{
  include_lines, table_row, Printer, emb_head, class_loop, emb_loop, jmain,
}

module _ (number : ℕ → CString) where
  -- The initialiser of a table, its rows with commas in between, and the end of it.
  abbrev pub table_text : (kind : CString) → List Resource → CString
  table_text kind els = join (codes "\t,\n") (map (table_row number kind) els) ++ codes "};\n\n"

  -- The program that the linker means to write.
  abbrev pub program : (main_class : CString) → Bool → List Resource → List Resource → CString
  program main_class test_mode class_els emb_els =
      codes "#include <exjlds.h>\n#include <stdio.h>\n"
      ++ include_lines number class_els
      ++ include_lines number emb_els
      ++ codes "ndrxj_class_index_t ndrxj_G_class_index [] = \n{\n"
      ++ table_text (codes "class") class_els
      ++ (elim emb_els [ [] ↦ [] | e ∷ es ↦ emb_head ++ table_text (codes "emb") (e ∷ es) ])
      ++ codes
          "int main(int argc, char **argv)\n{\n        \n\treturn ndrxj_run_main(argc, argv, \""
      ++ main_class
      ++ codes "\",\n\t\tndrxj_G_class_index, "
      ++ number (length class_els)
      ++ codes ", "
      ++ (elim emb_els [ [] ↦ codes "NULL" | e ∷ es ↦ codes "ndrxj_G_emb_index" ])
      ++ codes ", "
      ++ number (length emb_els)
      ++ codes ",\n                "
      ++ number (if test_mode then 1 else 0)
      ++ codes ");\n}\n"

  -- A row behind a separator, and the rows after it.
  led_step : (f sep x l : CString) → (f ++ sep ++ x) ++ l ≡ f ++ (sep ++ x ++ l)
  led_step f sep x l = simp append_assoc

  -- The locals of a loop that has written a row.
  printer : CString → ℕ → Printer
  printer f n = record { file = f; first = false; num = n }

  one_more :
      (n : ℕ) (e : Resource) (els : List Resource) → (n + 1) + length els ≡ n + length (e ∷ els)
  one_more n e els = omega arith

  class_loop_later :
      (els : List Resource) (f : CString) (n : ℕ)
      → class_loop number els (record { file = f; first = false; num = n }) ≡ record {
        file = f ++ led (codes "\t,\n") (map (table_row number (codes "class")) els);
        first = false;
        num = n + length els;
      }
  unfolding class_loop printer
  class_loop_later [] f n = ap₂ printer (sym (append-nil f)) (omega arith)
  class_loop_later (el ∷ els) f n =
      class_loop_later els (f ++ codes "\t,\n" ++ table_row number (codes "class") el) (n + 1)
      ∙ ap₂ printer
          (led_step f (codes "\t,\n") (table_row number (codes "class") el)
            (led (codes "\t,\n") (map (table_row number (codes "class")) els)))
          (one_more n el els)

  emb_loop_later :
      (els : List Resource) (f : CString) (n : ℕ)
      → emb_loop number els (record { file = f; first = false; num = n }) ≡ record {
        file = f ++ led (codes "\t,\n") (map (table_row number (codes "emb")) els);
        first = false;
        num = n + length els;
      }
  unfolding emb_loop printer
  emb_loop_later [] f n = ap₂ printer (sym (append-nil f)) (omega arith)
  emb_loop_later (el ∷ els) f n =
      emb_loop_later els (f ++ codes "\t,\n" ++ table_row number (codes "emb") el) (n + 1)
      ∙ ap₂ printer
          (led_step f (codes "\t,\n") (table_row number (codes "emb") el)
            (led (codes "\t,\n") (map (table_row number (codes "emb")) els)))
          (one_more n el els)

  class_loop_lem :
      (els : List Resource) (f : CString)
      → let p = class_loop number els (record { file = f; first = true; num = 0 }) in
        (p.file ≡ f ++ join (codes "\t,\n") (map (table_row number (codes "class")) els))
        × (p.num ≡ length els)
  unfolding class_loop
  class_loop_lem [] f = (sym (append-nil f), refl)
  class_loop_lem (el ∷ els) f =
      let e = class_loop_later els (f ++ [] ++ table_row number (codes "class") el) (0 + 1) in
      (
        ap (λ (p : Printer). p.file) e ∙ simp (append_assoc, append-nil),
        ap (λ (p : Printer). p.num) e ∙ omega arith,
      )

  emb_loop_lem :
      (e : Resource) (els : List Resource) (f : CString)
      → let p = emb_loop number (e ∷ els) (record { file = f; first = true; num = 0 }) in
        (p.file
          ≡ f ++ emb_head ++ join (codes "\t,\n") (map (table_row number (codes "emb")) (e ∷ els)))
        × (p.first ≡ false)
        × (p.num ≡ length (e ∷ els))
  unfolding emb_loop
  emb_loop_lem el els f =
      let e = emb_loop_later els (f ++ emb_head ++ table_row number (codes "emb") el) (0 + 1) in
      (
        ap (λ (p : Printer). p.file) e ∙ simp append_assoc,
        ap (λ (p : Printer). p.first) e,
        ap (λ (p : Printer). p.num) e ∙ omega arith,
      )

  tables_text :
      (top rows end head rows' : CString)
      → top ++ rows ++ end ++ head ++ rows' ++ end
        ≡ top ++ (rows ++ end) ++ (head ++ (rows' ++ end))
  tables_text top rows end head rows' = simp append_assoc

  -- The text is the program with a table of all classes and, when there are resources, a table of
  -- those, the rows in the order of the hashes, and the lengths passed on are those of the tables.
  pub jmain_lem :
      (main_class : CString) (test_mode : Bool) (class_els emb_els : List Resource)
      → jmain number main_class test_mode class_els emb_els
        ≡ program main_class test_mode class_els emb_els
  unfolding jmain emb_loop
  jmain_lem main_class test_mode class_els [] =
      let (text, count) = class_loop_lem class_els (
        codes "#include <exjlds.h>\n#include <stdio.h>\n"
        ++ include_lines number class_els
        ++ include_lines number []
        ++ codes "ndrxj_class_index_t ndrxj_G_class_index [] = \n{\n") in
      rw (text, count) (simp append_assoc)
  jmain_lem main_class test_mode class_els (el ∷ els) =
      let (text, count) = class_loop_lem class_els (
        codes "#include <exjlds.h>\n#include <stdio.h>\n"
        ++ include_lines number class_els
        ++ include_lines number (el ∷ els)
        ++ codes "ndrxj_class_index_t ndrxj_G_class_index [] = \n{\n") in
      let (text', first, count') = emb_loop_lem el els (
        (class_loop number class_els (record {
          file =
              codes "#include <exjlds.h>\n#include <stdio.h>\n"
              ++ include_lines number class_els
              ++ include_lines number (el ∷ els)
              ++ codes "ndrxj_class_index_t ndrxj_G_class_index [] = \n{\n";
          first = true;
          num = 0;
        })).file
        ++ codes "};\n\n") in
      let some_rows : ltb 0 (length (el ∷ els)) ≡ true = ground arith in
      rw
        (
          text',
          first,
          count',
          text,
          count,
          some_rows,
          tables_text _ (join (codes "\t,\n") (map (table_row number (codes "class")) class_els))
              (codes "};\n\n") emb_head
              (join (codes "\t,\n") (map (table_row number (codes "emb")) (el ∷ els))),
        )
        refl
