-- ===== src/Boot/Index.antt =====
-- libexjlds/exj.c, `getIndexBytes`: the class and resource table that the linker writes into the
-- binary, searched by bisection, and the byte array that the class loader gets.
-- `first` is never negative; `last` and `middle` may be -1, and are integers.
pub mod Bisect
use endurox_java.Base.{
  ℕ, zero, suc, ◌+◌, ◌-◌, ◌/◌, ◌^◌, ◌≡◌, Bool, true, false, ◌&&◌, Option, none, some, List, [], ◌∷◌,
  Ordering, ltb, leb, if◌then◌else◌, length, get_elem?,
}
use endurox_java.Base.Bytes.{CString, strcmp}

-- `ndrxj_class_index_t`; `len` is the length of `content`.
pub record ClassIndex : Type 0 where
  pub cls : CString
  pub content : List ℕ

-- A C `int`; `negsuc n` is -(n + 1).
pub data ℤ : Type 0 where
  pos : ℕ → ℤ
  negsuc : ℕ → ℤ

-- `n - 1`
unfoldable pub below : ℕ → ℤ
below zero = negsuc 0
below (suc n) = pos n

-- `-n`
neg : ℕ → ℤ
neg zero = pos 0
neg (suc n) = negsuc n

abbrev pub int_limit : ℕ
int_limit = 2 ^ 31

-- `(first + last) / 2` on ints: C divides towards zero, and a sum that leaves the type is undefined.
unfoldable pub middle_of : ℕ → ℤ → Option ℤ
unfolding neg
middle_of first (pos last) =
    if ltb (first + last) int_limit then some (pos ((first + last) / 2)) else none
middle_of first (negsuc n) =
    some (if leb (suc n) first then pos ((first - suc n) / 2) else neg ((suc n - first) / 2))

-- `first <= last`
unfoldable pub in_range : ℕ → ℤ → Bool
in_range first (pos last) = leb first last
in_range first (negsuc n) = false

pub data Search : Type 0 where
  found : ℕ → ClassIndex → Search
  not_found : Search
  -- a read outside the table, or an int that overflows
  undefined : Search
  out_of_fuel : Search

module _ (index : List ClassIndex) (utf : CString) where
  -- The `while` loop of `getIndexBytes`, `middle` computed at its head.
  unfoldable pub search_loop : ℕ → ℕ → ℤ → Option ℤ → Search
  unfolding in_range middle_of below
  search_loop zero first last middle = out_of_fuel
  search_loop (suc fuel) first last none = undefined
  search_loop (suc fuel) first last (some (negsuc n)) = elim (in_range first last) [
    | true ↦ undefined
    | false ↦ not_found
  ]
  search_loop (suc fuel) first last (some (pos middle)) = elim (in_range first last) [
    | false ↦ not_found
    | true ↦ elim (get_elem? index middle) [
      | none ↦ undefined
      | some entry ↦ elim (strcmp entry.cls utf) [
        | Ordering.lt ↦ search_loop fuel (middle + 1) last (middle_of (middle + 1) last)
        | Ordering.eq ↦ found middle entry
        | Ordering.gt ↦ search_loop fuel first (below middle) (middle_of first (below middle))
      ]
    ]
  ]

  -- `first = 0; last = index_len - 1;` and the loop, with a round more than the table has entries.
  unfoldable pub search : Search
  unfolding search_loop
  search =
      let last = below (length index) in search_loop (length index + 1) 0 last (middle_of 0 last)

-- `getIndexBytes`: the bytes of the entry named `utf`, or NULL. The JVM chooses whether
-- GetStringUTFChars copies, and whether NewByteArray and SetByteArrayRegion succeed; `strings`
-- counts the character arrays that were got and not released. `none`: the search has no defined
-- result.
unfoldable pub get_index_bytes :
    (is_copy array_ok region_ok : Bool)
    → CString
    → List ClassIndex
    → (strings : ℕ) → Option (Option (List ℕ) × ℕ)
get_index_bytes is_copy array_ok region_ok utf index strings =
    let taken = strings + 1 in
    let released = if is_copy then taken - 1 else taken in
    elim (search index utf) [
      | found middle entry ↦
          some (if array_ok && region_ok then some entry.content else none, released)
      | not_found ↦ some (none, released)
      | undefined ↦ none
      | out_of_fuel ↦ none
    ]

-- The index tables that `ndrxj_ldr_getvm` stores, and the two callbacks of the class loader.
pub record Tables : Type 0 where
  pub class_index : List ClassIndex
  pub res_index : List ClassIndex

unfoldable pub get_resource_bytes :
    (is_copy array_ok region_ok : Bool)
    → CString
    → Tables
    → (strings : ℕ) → Option (Option (List ℕ) × ℕ)
get_resource_bytes is_copy array_ok region_ok cls m strings =
    get_index_bytes is_copy array_ok region_ok cls m.res_index strings

unfoldable pub get_class_bytes :
    (is_copy array_ok region_ok : Bool)
    → CString
    → Tables
    → (strings : ℕ) → Option (Option (List ℕ) × ℕ)
get_class_bytes is_copy array_ok region_ok cls m strings =
    get_index_bytes is_copy array_ok region_ok cls m.class_index strings
