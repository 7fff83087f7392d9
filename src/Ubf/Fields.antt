-- ===== src/Ubf/Fields.antt =====
-- The arrays of field ids of `Bproj` (libsrc/c/TypedUbf_Proj.c) and `Bdelete`
-- (libsrc/c/TypedUbf_Del.c): the block of malloc, the loop that fills it, and what the library reads.
use mathlib.Core.List.{append_assoc, map-append, append-nil}
use mathlib.Core.Option
use endurox_java.Base.{
  ◌≡◌, refl, sym, ◌∙◌, inl, inr, true, Bool-cases, length-map, ℕ, zero, suc, Option, none, some,
  List, [], ◌∷◌, ◌++◌, map, if◌then◌else◌, ltb, ◌==◌, length, get_elem?, replicate, arith,
  length-append,
}

-- The cells of a block; `none` is one that was not written yet.
abbrev pub Block : Type 0
Block = List (Option ℕ)

-- `barra[i] = v`; `none` for a write outside the block.
unfoldable pub write : ℕ → ℕ → Block → Option Block
write i v [] = none
write zero v (c ∷ cs) = some (some v ∷ cs)
write (suc i) v (c ∷ cs) = Option.map (λ ds. c ∷ ds) (write i v cs)

-- `for (i=0; i<len; i++) barra[i] = (BFLDID)jarr[i];`, with the last `i`. `none` is an access outside
-- an array, or the fuel ran out.
unfoldable pub copy_loop : (fuel : ℕ) → List ℕ → (len i : ℕ) → Block → Option (ℕ × Block)
copy_loop zero jarr len i barra = none
copy_loop (suc fuel) jarr len i barra =
    let next = elim (get_elem? jarr i) as (λ v. Option (ℕ × Block)) [
      | none ↦ none
      | some v ↦ elim (write i v barra) as (λ c. Option (ℕ × Block)) [
        | none ↦ none
        | some filled ↦ copy_loop fuel jarr len (suc i) filled
      ]
    ] in
    if ltb i len then next else some (i, barra)

-- The block of `len + 1` cells, and BBADFLDID behind the ids.
unfoldable pub copy_fields : List ℕ → Option Block
unfolding copy_loop write
copy_fields jarr =
    let len = length jarr in
    elim (copy_loop (suc len) jarr len 0 (replicate (suc len) none)) as (λ c. Option Block) [
      | none ↦ none
      | some (i, barra) ↦ write i 0 barra
    ]

-- The ids up to BBADFLDID; `none` when a cell is read that holds nothing.
unfoldable pub read_fields : Block → Option (List ℕ)
read_fields [] = none
read_fields (none ∷ cs) = none
read_fields (some v ∷ cs) =
    let rest = Option.map (λ vs. v ∷ vs) (read_fields cs) in if v == 0 then some [] else rest

-- The ids in front of the first 0.
abbrev pub listed : List ℕ → List ℕ
listed [] = []
listed (v ∷ vs) = if v == 0 then [] else v ∷ listed vs

pub get_elem?-append :
    (done : List ℕ) (x : ℕ) (rest : List ℕ) → get_elem? (done ++ x ∷ rest) (length done) ≡ some x
get_elem?-append [] x rest = refl
get_elem?-append (d ∷ done) x rest = get_elem?-append done x rest

write-append :
    (done : List ℕ) (v : ℕ) (c : Option ℕ) (cs : Block)
    → write (length done) v (map some done ++ c ∷ cs) ≡ some (map some done ++ some v ∷ cs)
unfolding write
write-append [] v c cs = refl
write-append (d ∷ done) v c cs = rw (write-append done v c cs) refl

read_fields-listed :
    (jarr : List ℕ) → read_fields (map some jarr ++ some 0 ∷ []) ≡ some (listed jarr)
unfolding read_fields
read_fields-listed [] = refl
read_fields-listed (v ∷ vs) = elim (Bool-cases (v == 0)) [
  | inl bad ↦ rw bad refl
  | inr good ↦ rw (good, read_fields-listed vs) refl
]

inside :
    (done : List ℕ) (x : ℕ) (rest : List ℕ) → ltb (length done) (length (done ++ x ∷ rest)) ≡ true
inside done x rest = rw (length-append) (ground arith)

copy_loop_turn :
    (fuel : ℕ) (done : List ℕ) (x : ℕ) (rest jarr : List ℕ) (cs : Block)
    → done ++ x ∷ rest ≡ jarr
    → copy_loop (suc fuel) jarr (length jarr) (length done) (map some done ++ none ∷ cs)
      ≡ copy_loop fuel jarr
          (length jarr)
          (length (done ++ x ∷ []))
          (map some (done ++ x ∷ []) ++ cs)
unfolding copy_loop
copy_loop_turn fuel done x rest jarr cs e =
    let index : length (done ++ x ∷ []) ≡ suc (length done) =
      omega (arith, length-append done (x ∷ [])) in
    let cells : map some (done ++ x ∷ []) ++ cs ≡ map some done ++ some x ∷ cs =
      simp (map-append, append_assoc) in
    let below : ltb (length done) (length jarr) ≡ true = rw (← e) (inside done x rest) in
    let next : get_elem? jarr (length done) ≡ some x = rw (← e) (get_elem?-append done x rest) in
    rw (index, cells, below, next, write-append done x none cs) refl

copy_loop_end :
    (jarr : List ℕ) (cs : Block)
    → copy_loop 1 jarr (length jarr) (length jarr) cs ≡ some (length jarr, cs)
unfolding copy_loop
copy_loop_end jarr cs = ground arith

-- The loop ends within as many turns as there are ids and one more, touches nothing outside the array
-- and the block, and leaves the ids in order.
copy_loop_fills :
    (done rest jarr : List ℕ)
    → done ++ rest ≡ jarr
    → copy_loop
        (suc (length rest))
        jarr
        (length jarr)
        (length done)
        (map some done ++ replicate (suc (length rest)) none)
      ≡ some (length jarr, map some jarr ++ none ∷ [])
copy_loop_fills done [] jarr e =
    let same : done ≡ jarr = sym (append-nil done) ∙ e in
    rw same (copy_loop_end jarr (map some jarr ++ none ∷ []))
copy_loop_fills done (x ∷ rest) jarr e =
    copy_loop_turn (suc (length rest)) done x rest jarr (replicate (suc (length rest)) none) e
    ∙ copy_loop_fills (done ++ x ∷ []) rest jarr (append_assoc done (x ∷ []) rest ∙ e)

-- For every array of Java all accesses stay within the array and the block, and what the library
-- reads in the block are the ids up to the first that is BBADFLDID.
pub copy_fields_lem :
    (jarr : List ℕ)
    → (barra : Block) × (copy_fields jarr ≡ some barra)
      × (length barra ≡ suc (length jarr))
      × (read_fields barra ≡ some (listed jarr))
unfolding copy_fields
copy_fields_lem jarr = (
  map some jarr ++ some 0 ∷ [],
  rw (copy_fields, copy_loop_fills [] jarr jarr refl, write-append jarr 0 none []) refl,
  omega (arith, length-append (map some jarr) (some 0 ∷ []), length-map some jarr),
  read_fields-listed jarr,
)
