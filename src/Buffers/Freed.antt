-- ===== src/Buffers/Freed.antt =====
-- What the finalizers of Java do to the buffers.
use endurox_java.Base.{
  ℕ, ◌≡◌, ◌≢◌, ◌⊎◌, refl, sym, ◌∙◌, ap, true, false, Bool-cases, none, inl, inr, ◌==◌, arith,
  set_at, set_at-cases, set_at_self, set_at_other, not, ◌&&◌, List, [], ◌∷◌,
}
use endurox_java.Buffers.{TypedBuffer, World, tpfree, cleanup}
use endurox_java.Buffers.Owned.{Heap, IsOwner, Owned, Owned-given_away}
use endurox_java.Buffers.Prepared.{OwnedWorld}

-- The finalizers of some objects run one after another.
abbrev pub cleanups : List ℕ → World → World
cleanups [] w = w
cleanups (i ∷ is) w = cleanups is (cleanup i w)

abbrev Among : ℕ → List ℕ → Type 0
Among i [] = ⊥
Among i (j ∷ js) = (i ≡ j) ⊎ Among i js

IsOwner-cases : (b : TypedBuffer) → IsOwner b ⊎ ((b.do_finalize && not (b.c_ptr == 0)) ≡ false)
IsOwner-cases b = elim (Bool-cases (b.do_finalize && not (b.c_ptr == 0))) [
  | inl own ↦ inl (ground arith, ground arith)
  | inr other ↦ inr other
]

-- Behind the freeing of its buffer, an object that has none is no owner, and the others keep theirs.
freed-Owned :
    (h : Heap) (o : ℕ → TypedBuffer) (i : ℕ)
    → Owned h o
    → IsOwner (o i)
    → Owned (set_at h (o i).c_ptr none) (set_at o i (record (o i) { c_ptr = 0 }))
freed-Owned h o i owned own =
    let p = (o i).c_ptr in
    Owned-given_away h (set_at h p none) o i (record (o i) { c_ptr = 0 }) owned
      (λ j it own' same. owned.apart i j it own own' (sym same))
      (set_at_other h p 0 none own.1 ∙ owned.null)
      (λ x ne. set_at_other h p x none (λ e. ne (sym e))) refl

not_owner : (b : TypedBuffer) → IsOwner b → (b.do_finalize && not (b.c_ptr == 0)) ≢ false
not_owner b own = ground arith

-- The finalizer of an owner frees its buffer, which is allocated, and leaves the other owners.
cleanup_owner :
    (i : ℕ) (w : World)
    → OwnedWorld w
    → IsOwner (w.objects i)
    → OwnedWorld (cleanup i w)
      × ((cleanup i w).undefined ≡ w.undefined)
      × ((cleanup i w).heap ≡ set_at w.heap (w.objects i).c_ptr none)
      × ((cleanup i w).objects ≡ set_at w.objects i (record (w.objects i) { c_ptr = 0 }))
unfolding cleanup tpfree
cleanup_owner i w owned (on, ptr) =
    let (t, e, c) = owned.live i (on, ptr) in
    let test : ((w.objects i).do_finalize && not ((w.objects i).c_ptr == 0)) ≡ true =
      ground arith in
    rw (cleanup, test, tpfree, e) (freed-Owned w.heap w.objects i owned (on, ptr), refl, refl, refl)

cleanup_other :
    (i : ℕ) (w : World)
    → ((w.objects i).do_finalize && not ((w.objects i).c_ptr == 0)) ≡ false
    → cleanup i w ≡ w
unfolding cleanup
cleanup_other i w off = rw off refl

-- A buffer that is free stays free.
cleanups-none :
    (is : List ℕ) (w : World) (x : ℕ)
    → OwnedWorld w
    → w.heap x ≡ none
    → (cleanups is w).heap x ≡ none
cleanups-none [] w x owned e = e
cleanups-none (i ∷ is) w x owned e = elim (IsOwner-cases (w.objects i)) [
  | inr off ↦ rw (cleanups, cleanup_other i w off) (cleanups-none is w x owned e)
  | inl own ↦
      let (owned', u, h, o) = cleanup_owner i w owned own in
      cleanups-none is (cleanup i w) x owned' (
        rw h (elim (set_at-cases w.heap (w.objects i).c_ptr none x) [
          | inl (p, v) ↦ v
          | inr (ne, v) ↦ v ∙ e
        ]))
]

cleanups_free :
    (is : List ℕ) (w : World)
    → OwnedWorld w
    → OwnedWorld (cleanups is w)
      × ((cleanups is w).undefined ≡ w.undefined)
      × ((i : ℕ)
          → Among i is
          → IsOwner (w.objects i)
          → (cleanups is w).heap (w.objects i).c_ptr ≡ none)
cleanups_free [] w owned = (owned, refl, λ i it own. absurd it)
cleanups_free (i ∷ is) w owned = elim (IsOwner-cases (w.objects i)) [
  | inr off ↦
      let (owned', same, free) = cleanups_free is w owned in
      rw (cleanups, cleanup_other i w off)
        (
          owned',
          same,
          λ k it own. elim it [
            | inl e ↦ absurd (not_owner (w.objects i) (rw e at own) off)
            | inr later ↦ free k later own
          ],
        )
  | inl own ↦
      let (owned1, u, h, o) = cleanup_owner i w owned own in
      let (owned', same, free) = cleanups_free is (cleanup i w) owned1 in
      (
        owned',
        same ∙ u,
        λ k it own'. elim (Bool-cases (i == k)) [
          | inl at ↦
              let p : i ≡ k = ground arith in
              cleanups-none is (cleanup i w) (w.objects k).c_ptr owned1
                (rw (h, p) (set_at_self w.heap (w.objects k).c_ptr none))
          | inr other ↦
              let ne : i ≢ k = ground arith in
              let kept : (cleanup i w).objects k ≡ w.objects k =
                ap (λ (f : ℕ → TypedBuffer). f k) o ∙ set_at_other w.objects i k _ ne in
              elim it [
                | inl e ↦ absurd (ne (sym e))
                | inr later ↦ rw kept at (free k later (rw kept own'))
              ]
        ],
      )
]

-- Each object of the list is no owner, or its buffer is free.
abbrev pub AllFreed : (ℕ → TypedBuffer) → Heap → List ℕ → Type 0
AllFreed o h [] = Unit
AllFreed o h (i ∷ is) = ((¬ IsOwner (o i)) ⊎ (h (o i).c_ptr ≡ none)) × AllFreed o h is

AllFreed-Among :
    (o : ℕ → TypedBuffer) (h : Heap) (is : List ℕ)
    → ((i : ℕ) → Among i is → IsOwner (o i) → h (o i).c_ptr ≡ none)
    → AllFreed o h is
AllFreed-Among o h [] free = tt
AllFreed-Among o h (i ∷ is) free = (
  elim (IsOwner-cases (o i)) [
    | inl own ↦ inr (free i (inl refl) own)
    | inr off ↦ inl (λ own. not_owner (o i) own off)
  ],
  AllFreed-Among o h is (λ k later. free k (inr later)),
)

pub cleanups_lem :
    (is : List ℕ) (w : World)
    → OwnedWorld w
    → OwnedWorld (cleanups is w)
      × ((cleanups is w).undefined ≡ w.undefined)
      × AllFreed w.objects (cleanups is w).heap is
cleanups_lem is w owned =
    let (owned', same, free) = cleanups_free is w owned in
    (owned', same, AllFreed-Among w.objects (cleanups is w).heap is free)
