-- ===== src/Buffers/Owned.antt =====
-- Which object frees which buffer: an owner is an object that its finalizer frees the buffer of.
use endurox_java.Base.{
  ℕ, ◌≡◌, ◌≢◌, inl, inr, sym, ◌∙◌, true, false, Option, none, some, set_at, set_at-cases,
}
use endurox_java.Base.Bytes.{CString}
use endurox_java.Buffers.{TypedBuffer, of_class, choose}

abbrev pub Heap : Type 0
Heap = ℕ → Option CString

abbrev pub IsOwner : TypedBuffer → Type 0
IsOwner b = (b.do_finalize ≡ true) × (b.c_ptr ≢ 0)

-- The buffer is allocated, and its type is the one of the class.
abbrev pub Fits : Heap → TypedBuffer → Type 0
Fits h b = (t : CString) × (h b.c_ptr ≡ some t) × (choose t ≡ of_class b.clazz)

-- Each owner has a buffer of its class, and no two owners have the same.
pub record Owned (h : Heap) (o : ℕ → TypedBuffer) : Type 0 where
  pub null : h 0 ≡ none
  pub live : (i : ℕ) → IsOwner (o i) → Fits h (o i)
  pub apart : (i j : ℕ) → i ≢ j → IsOwner (o i) → IsOwner (o j) → (o i).c_ptr ≢ (o j).c_ptr

abbrev pub IsIt : Option ℕ → ℕ → Type 0
IsIt none j = ⊥
IsIt (some i) j = i ≡ j

-- The same for the objects but one, none of which has the buffer `q`.
pub record Rest (h : Heap) (o : ℕ → TypedBuffer) (object : Option ℕ) (q : ℕ) : Type 0 where
  pub null : h 0 ≡ none
  pub live : (j : ℕ) → ¬ IsIt object j → IsOwner (o j) → Fits h (o j)
  pub apart :
      (j k : ℕ)
      → j ≢ k
      → ¬ IsIt object j
      → ¬ IsIt object k
      → IsOwner (o j)
      → IsOwner (o k)
      → (o j).c_ptr ≢ (o k).c_ptr
  pub away : (j : ℕ) → ¬ IsIt object j → IsOwner (o j) → (o j).c_ptr ≢ q

module _ (h : Heap) (o : ℕ → TypedBuffer) (q : ℕ) where
  pub Rest-Owned : Rest h o none q → Owned h o
  Rest-Owned r = record {
    null = r.null;
    live = λ i. r.live i (λ e. e);
    apart = λ i j ne. r.apart i j ne (λ e. e) (λ e. e);
  }

  -- The object that is left out gives its buffer up.
  pub Rest-given_up :
      (i : ℕ) (b : TypedBuffer)
      → Rest h o (some i) q
      → b.do_finalize ≡ false
      → Rest h (set_at o i b) none q
  Rest-given_up i b r off =
      let back : (j : ℕ) → IsOwner (set_at o i b j) → (i ≢ j) × (set_at o i b j ≡ o j) = λ j own.
        elim (set_at-cases o i b j) [
          | inl (e, v) ↦ let was : IsOwner b = rw v at own in cc (was.0, off)
          | inr other ↦ other
        ] in
      record {
        null = r.null;
        live = λ j _ own. let (ne, v) = back j own in rw v (r.live j ne (rw v at own));
        apart = λ j k ne _ _ own own'.
            let (nj, v) = back j own in
            let (nk, v') = back k own' in
            rw (v, v') (r.apart j k ne nj nk (rw v at own) (rw v' at own'));
        away = λ j _ own. let (ne, v) = back j own in rw v (r.away j ne (rw v at own));
      }

  -- An object takes the buffer `q` that no other has.
  pub Rest-taken :
      (object : Option ℕ) (i : ℕ) (b : TypedBuffer)
      → Rest h o object q
      → ((j : ℕ) → IsIt object j → i ≡ j)
      → b.c_ptr ≡ q
      → (IsOwner b → Fits h b)
      → Owned h (set_at o i b)
  Rest-taken object i b r only at fits = record {
    null = r.null;
    live = λ j own. elim (set_at-cases o i b j) [
      | inl (e, v) ↦ rw v (fits (rw v at own))
      | inr (ne, v) ↦ rw v (r.live j (λ it. ne (only j it)) (rw v at own))
    ];
    apart = λ j k ne own own'. elim (set_at-cases o i b j) [
      | inl (e, v) ↦ elim (set_at-cases o i b k) [
        | inl (e', v') ↦ absurd (ne (sym e ∙ e'))
        | inr (nk, v') ↦
            rw (v, v') (λ p. r.away k (λ it. nk (only k it)) (rw v' at own') (sym p ∙ at))
      ]
      | inr (nj, v) ↦ elim (set_at-cases o i b k) [
        | inl (e', v') ↦ rw (v, v') (λ p. r.away j (λ it. nj (only j it)) (rw v at own) (p ∙ at))
        | inr (nk, v') ↦
            rw (v, v')
              (r.apart j k ne (λ it. nj (only j it)) (λ it. nk (only k it)) (rw v at own)
                (rw v' at own'))
      ]
    ];
  }

-- An object gives its buffer away, and what becomes of that buffer touches no other owner.
pub Owned-given_away :
    (h h' : Heap) (o : ℕ → TypedBuffer) (i : ℕ) (b : TypedBuffer)
    → Owned h o
    → ((j : ℕ) → i ≢ j → IsOwner (o j) → (o j).c_ptr ≢ (o i).c_ptr)
    → h' 0 ≡ none
    → ((x : ℕ) → x ≢ (o i).c_ptr → h' x ≡ h x)
    → b.c_ptr ≡ 0
    → Owned h' (set_at o i b)
Owned-given_away h h' o i b owned sole null kept gone =
    let rest : Rest h' o (some i) 0 = record {
      null = null;
      live = λ j it own.
          let (t, e, c) = owned.live j own in (t, kept (o j).c_ptr (sole j it own) ∙ e, c);
      apart = λ j k ne _ _. owned.apart j k ne;
      away = λ j _ own. own.1;
    } in
    Rest-taken h' o 0 (some i) i b rest (λ j it. it) gone (λ own. absurd (own.1 gone))

-- What is done to the address 0 touches no owner.
pub Owned-kept :
    (h h' : Heap) (o : ℕ → TypedBuffer)
    → Owned h o
    → h' 0 ≡ none
    → ((x : ℕ) → x ≢ 0 → h' x ≡ h x)
    → Owned h' o
Owned-kept h h' o owned null kept = record {
  null = null;
  live = λ j own. let (t, e, c) = owned.live j own in (t, kept (o j).c_ptr own.1 ∙ e, c);
  apart = owned.apart;
}
