-- ===== src/Xa/Config/Settings.antt =====
-- The parser on a tree in which no object has two members of one name: it reads no NULL, and the
-- counter that it returns is the number of settings that it has added.
use endurox_java.Base.{
  ℕ, ◌+◌, ◌-◌, ◌≡◌, refl, Bool, Bool-cases, inl, inr, true, false, Option, Option-cases, none, some,
  List, [], ◌++◌, length, take, arith, if◌then◌else◌,
}
use endurox_java.Base.Bytes.{CString, codes, str_eq, fit}
use endurox_java.Linker.Settings.{BufferLib}
use endurox_java.Xa.Config.{
  Json, str, obj, other, Members, no_more, member, get_value, get_string, get_object, fs,
  tmpbuf_size, Config, inner_loop, setting, add_setting, set_loop, root_member, root_loop, cfgparse,
}

-- In each object a member is the first of its name.
abbrev mutual
  pub IsUnique : Json → Type 0
  IsUnique (str s) = Unit
  IsUnique other = Unit
  IsUnique (obj o) = AreFirst o o

  pub AreFirst : (whole rest : Members) → Type 0
  AreFirst whole no_more = Unit
  AreFirst whole (member n v rest) = (get_value whole n ≡ some v) × IsUnique v × AreFirst whole rest

inner_loop-total :
    (whole rest : Members) (first : Bool) (tmpbuf : CString)
    → AreFirst whole rest
    → (r : Option CString) × (inner_loop whole rest first tmpbuf ≡ some r)
unfolding inner_loop get_string
inner_loop-total whole no_more first tmpbuf u = (some tmpbuf, refl)
inner_loop-total whole (member n (obj o) rest) first tmpbuf u = (none, refl)
inner_loop-total whole (member n other rest) first tmpbuf u = (none, refl)
inner_loop-total whole (member n (str s) rest) first tmpbuf (found, unique, later) =
    let (r, e) =
      inner_loop-total whole rest false
        (take (tmpbuf_size - 1) (tmpbuf ++ (if first then [] else fs) ++ n ++ fs ++ s)) later in
    (r, rw (inner_loop, found) e)

module _ (B : BufferLib) (list_add : List CString → CString → Option (List CString))
    (clazz_bufsz : ℕ) where
  setting-total :
      (o : Members) (n : CString) (v : Json)
      → get_value o n ≡ some v
      → IsUnique v
      → (r : Option CString) × (setting B list_add clazz_bufsz o n v ≡ some r)
  unfolding setting get_string get_object
  setting-total o n other found u = (none, refl)
  setting-total o n (str s) found u =
      (some (fit tmpbuf_size (n ++ fs ++ s)), rw (setting, found) refl)
  setting-total o n (obj p) found u =
      let (r, e) =
        inner_loop-total p p true (B.strcat_s tmpbuf_size (B.strcpy_safe tmpbuf_size n) fs) u in
      (r, rw (setting, found) e)

  module _
      (adds : (l : List CString) (s : CString) (l' : List CString)
        → list_add l s ≡ some l'
        → length l' ≡ length l + 1) where
    -- As many settings were counted as were added.
    abbrev pub Counted : Config → Config → Type 0
    Counted c c' = c'.nrsets + length c.sets ≡ c.nrsets + length c'.sets

    add_setting-Counted :
        (o : Option CString) (c : Config) → Counted c (add_setting B list_add clazz_bufsz o c).1
    unfolding add_setting
    add_setting-Counted none c = refl
    add_setting-Counted (some s) c = elim (Option-cases (list_add c.sets s)) [
      | inl full ↦ rw (add_setting, full) refl
      | inr (l, e) ↦ rw (add_setting, e) (omega (arith, adds c.sets s l e))
    ]

    set_loop-Counted :
        (o rest : Members) (c : Config)
        → AreFirst o rest
        → (r : Bool × Config) × (set_loop B list_add clazz_bufsz o rest c ≡ some r) × Counted c r.1
    unfolding set_loop
    set_loop-Counted o no_more c u = ((true, c), refl, refl)
    set_loop-Counted o (member n v rest) c (found, unique, later) =
        let (s, e) = setting-total o n v found unique in
        let added = add_setting B list_add clazz_bufsz s c in
        let (r, e', counted) = set_loop-Counted o rest added.1 later in
        let here = add_setting-Counted s c in
        elim (Bool-cases added.0) [
          | inl ok ↦ (r, rw (set_loop, e, ok) e', omega (arith, here, counted))
          | inr stop ↦ ((false, added.1), rw (set_loop, e, stop) refl, here)
        ]

    class-Counted :
        (root : Members) (n : CString) (v : Json) (c : Config)
        → str_eq n (codes "class") ≡ true
        → get_value root n ≡ some v
        → (r : Bool × Config) × (root_member B list_add clazz_bufsz root n v c ≡ some r)
          × Counted c r.1
    unfolding root_member get_string
    class-Counted root n (str s) c class found =
        ((true, record c { clazz = B.strcpy_safe clazz_bufsz s }), rw (class, found) refl, refl)
    class-Counted root n (obj o) c class found = ((false, c), rw class refl, refl)
    class-Counted root n other c class found = ((false, c), rw class refl, refl)

    set-Counted :
        (root : Members) (n : CString) (v : Json) (c : Config)
        → str_eq n (codes "class") ≡ false
        → str_eq n (codes "set") ≡ true
        → get_value root n ≡ some v
        → IsUnique v
        → (r : Bool × Config) × (root_member B list_add clazz_bufsz root n v c ≡ some r)
          × Counted c r.1
    unfolding root_member get_object
    set-Counted root n (str s) c not_class set found u =
        ((false, c), rw (not_class, set) refl, refl)
    set-Counted root n other c not_class set found u = ((false, c), rw (not_class, set) refl, refl)
    set-Counted root n (obj o) c not_class set found u =
        let (r, e, counted) = set_loop-Counted o o c u in (r, rw (not_class, set, found) e, counted)

    root_member-Counted :
        (root : Members) (n : CString) (v : Json) (c : Config)
        → get_value root n ≡ some v
        → IsUnique v
        → (r : Bool × Config) × (root_member B list_add clazz_bufsz root n v c ≡ some r)
          × Counted c r.1
    unfolding root_member
    root_member-Counted root n v c found u = elim (Bool-cases (str_eq n (codes "class"))) [
      | inl class ↦ class-Counted root n v c class found
      | inr not_class ↦ elim (Bool-cases (str_eq n (codes "set"))) [
        | inl set ↦ set-Counted root n v c not_class set found u
        | inr not_set ↦ ((true, c), rw (not_class, not_set) refl, refl)
      ]
    ]

    root_loop-Counted :
        (root rest : Members) (c : Config)
        → AreFirst root rest
        → (r : Bool × Config) × (root_loop B list_add clazz_bufsz root rest c ≡ some r)
          × Counted c r.1
    unfolding root_loop
    root_loop-Counted root no_more c u = ((true, c), refl, refl)
    root_loop-Counted root (member n v rest) c (found, unique, later) =
        let (s, e, here) = root_member-Counted root n v c found unique in
        let (r, e', counted) = root_loop-Counted root rest s.1 later in
        elim (Bool-cases s.0) [
          | inl ok ↦ (r, rw (root_loop, e, ok) e', omega (arith, here, counted))
          | inr stop ↦ ((false, s.1), rw (root_loop, e, stop) refl, here)
        ]

    -- When no object of the tree has two members of one name, the parser reads no NULL, and it has
    -- counted as many settings as it has added to the list, in every exit.
    pub cfgparse_counts :
        (j : Json) (c : Config)
        → IsUnique j
        → (ok : Bool) × (c' : Config) × (cfgparse B list_add clazz_bufsz j c ≡ some (ok, c'))
          × (c'.nrsets + length c.sets ≡ c.nrsets + length c'.sets)
    unfolding cfgparse
    cfgparse_counts (str s) c u = (false, c, refl, refl)
    cfgparse_counts other c u = (false, c, refl, refl)
    cfgparse_counts (obj root) c u =
        let (r, e, counted) = root_loop-Counted root root c u in (r.0, r.1, e, counted)
