-- ===== src/Base/Bytes.antt =====
-- C strings as lists of bytes, and what the C library does with them: `strcmp`, and copies into
-- buffers of a fixed size.
use Prim.Native.Char.{code}
pub mod Order
use Prim.Native.Nat.{ℕ, ◌-◌, compare, Ordering}
use Prim.Native.String.{String}
use mathlib.Core.List.{List, [], ◌∷◌}
use mathlib.Core.Bool.{Bool, true, false}
use endurox_java.Base.Lists.{take}

-- The bytes before the terminating NUL.
abbrev pub CString : Type 0
CString = List ℕ

-- The bytes of an ASCII literal.
abbrev pub codes : String → CString
codes String.[] = []
codes (String.◌∷◌ c s) = code c ∷ codes s

-- The sign of what `strcmp` returns.
unfoldable pub strcmp : CString → CString → Ordering
strcmp [] [] = Ordering.eq
strcmp [] (y ∷ ys) = Ordering.lt
strcmp (x ∷ xs) [] = Ordering.gt
strcmp (x ∷ xs) (y ∷ ys) = elim (compare x y) [
  | Ordering.lt ↦ Ordering.lt
  | Ordering.eq ↦ strcmp xs ys
  | Ordering.gt ↦ Ordering.gt
]

-- `0 == strcmp(a, b)`
unfoldable pub str_eq : CString → CString → Bool
unfolding strcmp
str_eq a b = elim (strcmp a b) [ Ordering.eq ↦ true | _ ↦ false ]

-- What a buffer of `size` bytes holds after `snprintf` or a safe copy of `s`.
unfoldable pub fit : ℕ → CString → CString
fit size s = take (size - 1) s
