-- ===== src/Boot/Index/Bisect.antt =====
-- The bisection on a sorted table: it reads inside the table, ends, and answers rightly.
use mathlib.Core.Path.{subst}
use endurox_java.Base.{
  ℕ, zero, suc, ◌+◌, ◌-◌, ◌/◌, ◌≤◌, ◌<◌, ◌≡◌, ◌≢◌, Bool-cases, Ordering-cases, inl, inr, true, some,
  List, [], ◌∷◌, Ordering, arith, leb, ltb, length, get_elem?, get_elem?-total, lt_of_get_elem?,
}
use endurox_java.Base.Bytes.{CString, strcmp}
use endurox_java.Base.Bytes.Order.{
  strcmp_refl, eq_of_strcmp, strcmp_trans, strcmp_flip, strcmp_flip_lt,
}
use endurox_java.Boot.Index.{
  ClassIndex, below, int_limit, middle_of, Search, found, not_found, undefined, out_of_fuel,
  search_loop, search,
}

-- `x` comes before every entry of the list.
abbrev pub Before : CString → List ClassIndex → Type 0
Before x [] = Unit
Before x (e ∷ es) = (strcmp x e.cls ≡ Ordering.lt) × Before x es

-- The names ascend strictly in the order of `strcmp`.
abbrev pub IsSorted : List ClassIndex → Type 0
IsSorted [] = Unit
IsSorted (e ∷ es) = Before e.cls es × IsSorted es

Before-get_elem? :
    (x : CString) (es : List ClassIndex) (j : ℕ) {b : ClassIndex}
    → Before x es
    → get_elem? es j ≡ some b
    → strcmp x b.cls ≡ Ordering.lt
Before-get_elem? x [] j h e = cc
Before-get_elem? x (a ∷ es) zero h e = ground arith
Before-get_elem? x (a ∷ es) (suc j) h e = Before-get_elem? x es j h.1 e

-- Entries further on in a sorted table are greater.
pub strcmp_of_lt :
    (es : List ClassIndex) (i j : ℕ) {a b : ClassIndex}
    → IsSorted es
    → i < j
    → get_elem? es i ≡ some a
    → get_elem? es j ≡ some b
    → strcmp a.cls b.cls ≡ Ordering.lt
strcmp_of_lt [] i j s l p q = cc
strcmp_of_lt (e ∷ es) i zero s l p q = elim l [ ]
strcmp_of_lt (e ∷ es) zero (suc j) {a} {b} s l p q =
    ground (arith, Before-get_elem? e.cls es j {b = b} s.0)
strcmp_of_lt (e ∷ es) (suc i) (suc j) s l p q = strcmp_of_lt es i j s.1 (omega arith) p q

module _ (index : List ClassIndex) (utf : CString) where
  -- What the search owes its caller.
  abbrev pub Answers : Search → Type 0
  Answers (found i entry) = (get_elem? index i ≡ some entry) × (entry.cls ≡ utf)
  Answers not_found = (i : ℕ) (e : ClassIndex) → get_elem? index i ≡ some e → e.cls ≢ utf
  Answers undefined = ⊥
  Answers out_of_fuel = ⊥

  -- All before `first` is smaller than the name, all from `hi` on is greater.
  record Window (first hi : ℕ) : Type 0 where
    ordered : first ≤ hi
    inside : hi ≤ length index
    smaller :
        (i : ℕ) (e : ClassIndex)
        → get_elem? index i ≡ some e
        → i < first
        → strcmp e.cls utf ≡ Ordering.lt
    greater :
        (i : ℕ) (e : ClassIndex)
        → get_elem? index i ≡ some e
        → hi ≤ i
        → strcmp e.cls utf ≡ Ordering.gt

  -- An empty window leaves no place for the name.
  Window-empty : (n : ℕ) → Window n n → Answers not_found
  Window-empty n w i e at same = elim (Bool-cases (leb n i)) [
    | inl above ↦ ground (arith, w.greater i e at, strcmp_refl utf)
    | inr under ↦ ground (arith, w.smaller i e at, strcmp_refl utf)
  ]

  module _ (sorted : IsSorted index) where
    Window-up :
        (first hi m : ℕ) (e : ClassIndex)
        → Window first hi
        → m < hi
        → get_elem? index m ≡ some e
        → strcmp e.cls utf ≡ Ordering.lt
        → Window (m + 1) hi
    Window-up first hi m e w lt at less = record {
      ordered = omega arith;
      inside = w.inside;
      smaller = λ i a p l. elim (Bool-cases (ltb i m)) [
        | inl lower ↦
            strcmp_trans a.cls e.cls utf (strcmp_of_lt index i m sorted (ground arith) p at) less
        | inr here ↦ ground arith
      ];
      greater = w.greater;
    }

    Window-down :
        (first hi m : ℕ) (e : ClassIndex)
        → Window first hi
        → first ≤ m
        → m < hi
        → get_elem? index m ≡ some e
        → strcmp e.cls utf ≡ Ordering.gt
        → Window first m
    Window-down first hi m e w le lt at more = record {
      ordered = le;
      inside = omega (arith, w.inside);
      smaller = w.smaller;
      greater = λ i a p l. elim (Bool-cases (ltb m i)) [
        | inl upper ↦ strcmp_flip_lt utf a.cls (
            strcmp_trans utf e.cls a.cls (strcmp_flip e.cls utf more)
              (strcmp_of_lt index m i sorted (ground arith) at p))
        | inr here ↦ ground arith
      ];
    }

    -- The loop on a window, with more rounds than the window has entries.
    search_loop-Answers :
        (fuel first hi : ℕ)
        → Window first hi
        → length index + length index < int_limit
        → hi - first < fuel
        → Answers (search_loop index utf fuel first (below hi) (middle_of first (below hi)))
    unfolding search_loop
    search_loop-Answers zero first hi w small enough = absurd (omega arith)
    search_loop-Answers (suc fuel) zero zero w small enough = Window-empty 0 w
    search_loop-Answers (suc fuel) (suc first) zero w small enough =
        absurd (omega (arith, w.ordered))
    search_loop-Answers (suc fuel) first (suc l) w small enough =
        let fits : ltb (first + l) int_limit ≡ true = ground (arith, w.ordered, w.inside) in
        rw fits (elim (Bool-cases (leb first l)) [
          | inr over ↦
              rw (over, search_loop)
                (Window-empty first (subst (Window first) (ground (arith, w.ordered)) w))
          | inl within ↦
              let m = (first + l) / 2 in
              let (e, at) = get_elem?-total index m (ground (arith, w.inside)) in
              rw (within, at, search_loop)
                (elim (Ordering-cases (strcmp e.cls utf)) [
                  | inl less ↦
                      rw (less, search_loop)
                        (search_loop-Answers fuel (m + 1) (suc l)
                          (Window-up first (suc l) m e w (ground arith) at less) small
                          (ground arith))
                  | inr (inl same) ↦ rw (same, search_loop) (at, eq_of_strcmp e.cls utf same)
                  | inr (inr more) ↦
                      rw (more, search_loop)
                        (search_loop-Answers fuel first m
                          (Window-down first (suc l) m e w (ground arith) (ground arith) at more)
                          small (ground arith))
                ])
        ])

    whole : Window 0 (length index)
    whole = record {
      ordered = omega arith;
      inside = omega arith;
      smaller = λ i e p l. elim l [ ];
      greater = λ i e p l. absurd (omega (arith, lt_of_get_elem? index i p));
    }

    -- On a sorted table of fewer than 2 ^ 30 entries the search ends, reads inside the table, overflows no
    -- int, and finds the entry with the name just when it is there.
    pub search-Answers : length index + length index < int_limit → Answers (search index utf)
    unfolding search
    search-Answers small =
        search_loop-Answers (length index + 1) 0 (length index) whole small (omega arith)
