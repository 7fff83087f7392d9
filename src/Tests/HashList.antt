-- ===== src/Tests/HashList.antt =====
-- A hash table as a list in the order of insertion, sorted by insertion: it meets `HashLib`.
use mathlib.Core.List.{Mem, Pairwise, Pairwise-cons, Perm, mem-cons, mem-cons_of_mem, not-mem-nil}
use mathlib.Core.List.Perm
use mathlib.Core.Logic.Or
use endurox_java.Base.{
  ap, sym, ◌∙◌, ◌≡◌, ◌≢◌, refl, inl, inr, Option, none, some, List, [], ◌∷◌, ◌++◌, Ordering,
  Ordering-cases, Bool-cases, if◌then◌else◌,
}
use endurox_java.Base.Bytes.{CString, str_eq}
use endurox_java.Base.Bytes.Order.{str_eq_iff}
use endurox_java.Linker.Resources.{IsOrder, HashLib}

module _ {V : Type 0} where
  unfoldable pub insert : (V → V → Ordering) → V → List V → List V
  insert cmp v [] = v ∷ []
  insert cmp v (w ∷ l) = elim (cmp v w) [ Ordering.gt ↦ w ∷ insert cmp v l | _ ↦ v ∷ w ∷ l ]

  unfoldable pub insertion_sort : (V → V → Ordering) → List V → List V
  insertion_sort cmp [] = []
  insertion_sort cmp (v ∷ l) = insert cmp v (insertion_sort cmp l)

  unfoldable pub find_key : (V → CString) → CString → List V → Option V
  find_key key k [] = none
  find_key key k (v ∷ l) = if str_eq (key v) k then some v else find_key key k l

  insert-perm : (cmp : V → V → Ordering) (v : V) (l : List V) → Perm (insert cmp v l) (v ∷ l)
  unfolding insert
  insert-perm cmp v [] = Perm.refl (v ∷ [])
  insert-perm cmp v (w ∷ l) = elim (Ordering-cases (cmp v w)) [
    | inl less ↦ rw (less, insert) (Perm.refl (v ∷ w ∷ l))
    | inr (inl same) ↦ rw (same, insert) (Perm.refl (v ∷ w ∷ l))
    | inr (inr more) ↦
        rw (more, insert) (Perm.trans (Perm.cons w (insert-perm cmp v l)) (Perm.swap v w l))
  ]

  pub insertion_sort-perm : (cmp : V → V → Ordering) (l : List V) → Perm (insertion_sort cmp l) l
  unfolding insertion_sort
  insertion_sort-perm cmp [] = Perm.refl []
  insertion_sort-perm cmp (v ∷ l) =
      Perm.trans (insert-perm cmp v (insertion_sort cmp l))
        (Perm.cons v (insertion_sort-perm cmp l))

  module _ (cmp : V → V → Ordering) (order : IsOrder cmp) where
    abbrev Le : V → V → Type 0
    Le a b = cmp a b ≢ Ordering.gt

    insert-Pairwise : (v : V) (l : List V) → Pairwise Le l → Pairwise Le (insert cmp v l)
    unfolding insert
    insert-Pairwise v [] h = Pairwise-cons.1 (λ a m. absurd (not-mem-nil m), Pairwise.nil)
    insert-Pairwise v (w ∷ l) h =
        let (first, rest) = Pairwise-cons.0 h in
        elim (Ordering-cases (cmp v w)) [
          | inl less ↦ rw (less, insert) (front v w l h first (λ e. cc))
          | inr (inl same) ↦ rw (same, insert) (front v w l h first (λ e. cc))
          | inr (inr more) ↦
              rw (more, insert)
                (Pairwise-cons.1 (
                  λ a m.
                      Or.elim (hlevel) (mem-cons.0 ((Perm.mem_iff (insert-perm cmp v l)).0 m))
                        (λ e. rw e (λ g. cc (order.flip v w more))) (first a),
                  insert-Pairwise v l rest,
                ))
        ]
      where
        front :
            (v w : V) (l : List V)
            → Pairwise Le (w ∷ l)
            → ((a : V) → Mem a l → Le w a)
            → Le v w
            → Pairwise Le (v ∷ w ∷ l)
        front v w l h first le = Pairwise-cons.1 (
          λ a m.
              Or.elim (hlevel) (mem-cons.0 m) (λ e. rw e le)
                (λ later. order.trans v w a le (first a later)),
          h,
        )

    pub insertion_sort-Pairwise : (l : List V) → Pairwise Le (insertion_sort cmp l)
    unfolding insertion_sort
    insertion_sort-Pairwise [] = Pairwise.nil
    insertion_sort-Pairwise (v ∷ l) =
        insert-Pairwise v (insertion_sort cmp l) (insertion_sort-Pairwise l)

  pub find_key-none :
      (key : V → CString) (k : CString) (l : List V)
      → find_key key k l ≡ none
      → (v : V) → Mem v l
      → key v ≢ k
  unfolding find_key
  find_key-none key k [] e v m = absurd (not-mem-nil m)
  find_key-none key k (w ∷ l) e v m = elim (Bool-cases (str_eq (key w) k)) [
    | inl yes_w ↦ cc (rw yes_w at e)
    | inr no_w ↦
        Or.elim (hlevel) (mem-cons.0 m)
          (λ e' q. cc ((str_eq_iff (key w) k).1 (ap key (sym e') ∙ q)))
          (find_key-none key k l (rw no_w at e) v)
  ]

  pub find_key-some :
      (key : V → CString) (k : CString) (l : List V) (v : V)
      → find_key key k l ≡ some v
      → (key v ≡ k) × Mem v l
  unfolding find_key
  find_key-some key k [] v e = cc
  find_key-some key k (w ∷ l) v e = elim (Bool-cases (str_eq (key w) k)) [
    | inl yes_w ↦
        let same : w ≡ v = cc (rw yes_w at e) in
        (ap key (sym same) ∙ (str_eq_iff (key w) k).0 yes_w, mem-cons.1 (Or.inl (sym same)))
    | inr no_w ↦
        let (named, there) = find_key-some key k l v (rw no_w at e) in
        (named, mem-cons_of_mem w there)
  ]

-- The interface, met by lists.
unfoldable pub hash_list : {V : Type 0} (key : V → CString) → HashLib V key
unfolding insertion_sort insert find_key
hash_list {V} key = record {
  Table = List V;
  empty = [];
  items = λ l. l;
  find_str = find_key key;
  add_str = λ v l. l ++ v ∷ [];
  sort = insertion_sort;
  items-empty = refl;
  items-add_str = λ v l. refl;
  find_str_none = find_key-none key;
  find_str_some = find_key-some key;
  sort_perm = insertion_sort-perm;
  sort_ascends = λ cmp l order. insertion_sort-Pairwise cmp order l;
}
