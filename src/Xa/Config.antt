-- ===== src/Xa/Config.antt =====
-- libsrc/c/xaconfig.c, `ndrxj_xa_cfgparse`: the class and the settings of a data source, read from
-- the JSON text of the open string. The JSON library is not part of the repository: the model starts
-- from the tree that it gives, and looks members up as the code asks it to, types by position and
-- values by name.
pub mod Settings
use endurox_java.Base.{
  ℕ, zero, suc, ◌+◌, ◌-◌, Bool, true, false, not, ◌&&◌, ◌||◌, Option, none, some, List, [], ◌∷◌,
  ◌++◌, ltb, if◌then◌else◌, take,
}
use endurox_java.Base.Bytes.{CString, codes, str_eq, fit}
use endurox_java.Linker.Settings.{BufferLib}

mutual
  pub data Json : Type 0 where
    str : CString → Json
    obj : Members → Json
    -- null, a number, a Boolean, an array
    other : Json

  pub data Members : Type 0 where
    no_more : Members
    member : CString → Json → Members → Members

-- The first member of that name.
unfoldable pub get_value : Members → CString → Option Json
get_value no_more name = none
get_value (member n v rest) name = if str_eq n name then some v else get_value rest name

unfoldable pub get_string : Members → CString → Option CString
unfolding get_value
get_string ms name = elim (get_value ms name) [
  | none ↦ none
  | some v ↦ elim v [ str s ↦ some s | obj o ↦ none | other ↦ none ]
]

unfoldable pub get_object : Members → CString → Option Members
unfolding get_value
get_object ms name = elim (get_value ms name) [
  | none ↦ none
  | some v ↦ elim v [ str s ↦ none | obj o ↦ some o | other ↦ none ]
]

-- NDRXJ_FS
abbrev pub fs : CString
fs = 28 ∷ []

abbrev pub tmpbuf_size : ℕ
tmpbuf_size = 2048

-- The out parameters.
pub record Config : Type 0 where
  pub sets : List CString
  pub nrsets : ℕ
  pub clazz : CString

-- The loop over an object inside `set`, `first` being n = 0. None: a value is NULL where it is
-- printed; some none: a member is no string.
unfoldable pub inner_loop :
    (whole rest : Members) → (first : Bool) → (tmpbuf : CString) → Option (Option CString)
inner_loop whole no_more first tmpbuf = some (some tmpbuf)
inner_loop whole (member sub_name2 (obj o) rest) first tmpbuf = some none
inner_loop whole (member sub_name2 other rest) first tmpbuf = some none
inner_loop whole (member sub_name2 (str s) rest) first tmpbuf = elim (get_string whole sub_name2) [
  | none ↦ none
  | some str_val ↦
      inner_loop whole rest false (
        take (tmpbuf_size - 1) (tmpbuf ++ (if first then [] else fs) ++ sub_name2 ++ fs ++ str_val))
]

module _ (B : BufferLib) (list_add : List CString → CString → Option (List CString))
    (clazz_bufsz : ℕ) where
  open B use {strcpy_safe, strcat_s}

  -- The text of a setting, as for `inner_loop`.
  unfoldable pub setting : (sub_obj : Members) → CString → Json → Option (Option CString)
  setting sub_obj sub_name other = some none
  setting sub_obj sub_name (str s) = elim (get_string sub_obj sub_name) [
    | none ↦ none
    | some str_val ↦ some (some (fit tmpbuf_size (sub_name ++ fs ++ str_val)))
  ]
  setting sub_obj sub_name (obj o) = elim (get_object sub_obj sub_name) [
    | none ↦ none
    | some sub_obj2 ↦
        inner_loop sub_obj2 sub_obj2 true
          (strcat_s tmpbuf_size (strcpy_safe tmpbuf_size sub_name) fs)
  ]

  -- A setting added to the list; false is a jump to `out`.
  unfoldable pub add_setting : Option CString → Config → Bool × Config
  add_setting none c = (false, c)
  add_setting (some tmpbuf) c = elim (list_add c.sets tmpbuf) [
    | none ↦ (false, c)
    | some sets ↦ (true, record c { sets = sets; nrsets = c.nrsets + 1 })
  ]

  -- The loop over `set`.
  unfoldable pub set_loop : (sub_obj rest : Members) → Config → Option (Bool × Config)
  set_loop sub_obj no_more c = some (true, c)
  set_loop sub_obj (member sub_name v rest) c = elim (setting sub_obj sub_name v) [
    | none ↦ none
    | some tmpbuf ↦
        let (ok, c') = add_setting tmpbuf c in
        let later = set_loop sub_obj rest c' in if ok then later else some (false, c')
  ]

  -- One member of the root.
  unfoldable pub root_member : (root : Members) → CString → Json → Config → Option (Bool × Config)
  root_member root name v c =
      if str_eq name (codes "class")
      then (elim v [
        | str s ↦ elim (get_string root name) as (λ (o : Option CString). Option (Bool × Config)) [
          | none ↦ none
          | some str_val ↦ some (true, record c { clazz = strcpy_safe clazz_bufsz str_val })
        ]
        | obj o ↦ some (false, c)
        | other ↦ some (false, c)
      ])
      else if str_eq name (codes "set")
      then (elim v [
        | str s ↦ some (false, c)
        | other ↦ some (false, c)
        | obj o ↦ elim (get_object root name) as (λ (o : Option Members). Option (Bool × Config)) [
          | none ↦ none
          | some sub_obj ↦ set_loop sub_obj sub_obj c
        ]
      ])
      else some (true, c)

  -- The loop over the root.
  unfoldable pub root_loop : (root rest : Members) → Config → Option (Bool × Config)
  root_loop root no_more c = some (true, c)
  root_loop root (member name v rest) c = elim (root_member root name v c) [
    | none ↦ none
    | some r ↦ let later = root_loop root rest r.1 in if r.0 then later else some (false, r.1)
  ]

  -- `ndrxj_xa_cfgparse` on the parsed text. None: a NULL is read as a string or an object.
  unfoldable pub cfgparse : Json → Config → Option (Bool × Config)
  cfgparse (str s) c = some (false, c)
  cfgparse other c = some (false, c)
  cfgparse (obj root) c = root_loop root root c
