-- ===== src/Boot/ClassPath.antt =====
-- libexjlds/cp.c, `ndrxj_cp_proc`: a Java option of the configuration is added to the class path
-- when it is -cp or -classpath.
pub mod Tags
pub mod Urls
use endurox_java.Base.{
  ℕ, suc, ◌+◌, ◌-◌, Bool, true, false, ◌&&◌, ◌||◌, Option, none, some, List, [], ◌∷◌, ◌++◌, ltb,
  ◌==◌, if◌then◌else◌, length, get_elem?, drop,
}
use endurox_java.Base.Bytes.{CString, codes, str_eq}

abbrev pub max_taglen : ℕ
max_taglen = 10

-- ' ' or '\t'
abbrev pub is_blank : ℕ → Bool
is_blank c = (c == b' ') || (c == 9)

unfoldable pub skip_blanks : CString → CString
skip_blanks [] = []
skip_blanks (c ∷ p) = if is_blank c then skip_blanks p else c ∷ p

-- The loop that copies a word into `buf`, `taglen` being the length of `tag`.
unfoldable pub read_tag : CString → (tag : CString) → CString
read_tag [] tag = tag
read_tag (c ∷ p) tag =
    let tag' = tag ++ c ∷ [] in
    let rest = read_tag p tag' in
    if is_blank c then tag else if ltb max_taglen (length tag') then tag' else rest

-- `split_add` is `ndrx_string_list_splitadd` of the Enduro/X library with ":" as the separator.
unfoldable pub cp_proc :
    (split_add : List CString → CString → Option (List CString))
    → List CString
    → (config_line : CString) → Bool × List CString
cp_proc split_add list config_line =
    let buf = read_tag (skip_blanks config_line) [] in
    let taglen = length buf in
    let ends = elim (get_elem? config_line taglen) as (λ (o : Option ℕ). Bool) [
      | none ↦ false
      | some c ↦ is_blank c
    ] in
    if ends && (str_eq buf (codes "-cp") || str_eq buf (codes "-classpath"))
    then (elim (split_add list (drop taglen config_line)) [
      | some list' ↦ (true, list')
      | none ↦ (false, list)
    ])
    else (true, list)
