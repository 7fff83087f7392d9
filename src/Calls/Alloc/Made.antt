-- ===== src/Calls/Alloc/Made.antt =====
-- Buffers that Java asks for get one owner.
use endurox_java.Base.{
  ℕ, ◌≡◌, ◌≢◌, refl, ◌∙◌, ap, Bool, true, false, Bool-cases, inl, inr, Option, Option-cases, none,
  some, ◌==◌, arith, set_at_same,
}
use endurox_java.Base.Bytes.{CString, codes, str_eq}
use endurox_java.Buffers.{
  TypedBuffer, World, choose, atmi_throw, unset_ctx, get_ctx, get_buffer, set_buffer,
}
use endurox_java.Buffers.Owned.{Heap, IsOwner, Fits, Owned, Rest, Rest-Owned, Rest-taken}
use endurox_java.Buffers.Prepared.{OwnedWorld, translate_type-Owned}
use endurox_java.Calls.{Reply, Service, Answers}
use endurox_java.Calls.Contract.{Answered, Sole, Answered-Rest, left-Owned}
use endurox_java.Calls.Alloc.{Allocation, tpalloc, tprealloc}

-- What the manual says of tpalloc: the address was free, the buffer has the type, or one that Java
-- has the same class for, and no other buffer is touched.
pub record Allocates (btype : CString) (h : Heap) (r : Allocation) : Type 0 where
  pub fresh : h r.address ≡ none
  pub kept : (x : ℕ) → x ≢ r.address → r.heap x ≡ h x
  pub failed : r.address ≡ 0 → r.heap 0 ≡ none
  pub typed :
      r.address ≢ 0 → (t : CString) × (r.heap r.address ≡ some t) × (choose t ≡ choose btype)

-- The other buffers behind an allocation.
Allocates-Rest :
    (btype : CString) (h : Heap) (o : ℕ → TypedBuffer) (r : Allocation)
    → Owned h o
    → Allocates btype h r
    → Rest r.heap o none r.address
Allocates-Rest btype h o r owned al =
    let away : (j : ℕ) → IsOwner (o j) → (o j).c_ptr ≢ r.address =
      λ j own p. let (t, e, c) = owned.live j own in let free = al.fresh in cc (e, p, free) in
    record {
      null = elim (Bool-cases (r.address == 0)) [
        | inl z ↦ al.failed (ground arith)
        | inr some_address ↦ al.kept 0 (ground arith) ∙ owned.null
      ];
      live = λ j _ own.
          let (t, e, c) = owned.live j own in (t, al.kept (o j).c_ptr (away j own) ∙ e, c);
      apart = λ j k ne _ _. owned.apart j k ne;
      away = λ j _. away j;
    }

-- Reading the buffer of an object changes nothing.
get_buffer_same :
    (i : ℕ) (w : World)
    → get_buffer (some i) 0 false false false w ≡ (
      record {
        ok = elim w.pending as (λ p. Bool) [ none ↦ true | some e ↦ false ];
        buf = (w.objects i).c_ptr;
        len = (w.objects i).len;
        do_finalize = (w.objects i).do_finalize;
      },
      w,
    )
unfolding get_buffer
get_buffer_same i w =
    ap
      (λ (o : ℕ → TypedBuffer). (
        record {
          ok = elim w.pending as (λ p. Bool) [ none ↦ true | some e ↦ false ];
          buf = (w.objects i).c_ptr;
          len = (w.objects i).len;
          do_finalize = (w.objects i).do_finalize;
        },
        record w { objects = o },
      ))
      (set_at_same w.objects i)

-- What the manual says of tprealloc: a call whose buffer may move with its type, and that leaves it
-- when it fails.
pub record Grown (ibuf : ℕ) (h : Heap) (r : Reply) : Type 0 where
  pub answered : Answered ibuf h r
  pub failed : r.obuf ≡ 0 → r.heap ibuf ≡ h ibuf
  pub moved : r.obuf ≢ 0 → r.heap r.obuf ≡ h ibuf

abbrev pub Moves : Service → Type 0
Moves s = (ibuf ilen : ℕ) (h : Heap) → h 0 ≡ none → Grown ibuf h (s ibuf ilen h)

module _ (a : Answers) where
  -- tpalloc gives each new buffer to the object that it returns.
  pub tpalloc-Owned :
      (alloc : CString → Heap → Allocation) (btype : Option CString) (size : ℕ) (w : World)
      → ((t : CString) (h : Heap) → h 0 ≡ none → Allocates t h (alloc t h))
      → OwnedWorld w
      → OwnedWorld (tpalloc a alloc btype size w).1
  unfolding tpalloc atmi_throw unset_ctx get_ctx
  tpalloc-Owned alloc none size w al owned = owned
  tpalloc-Owned alloc (some btype) size w al owned =
      let r = alloc btype w.heap in
      let rest = Allocates-Rest btype w.heap w.objects r owned (al btype w.heap owned.null) in
      elim (Bool-cases (str_eq btype (codes "NULL"))) [
        | inl null ↦ rw (tpalloc, null) owned
        | inr other ↦ elim (Bool-cases a.known) [
          | inr unknown ↦ rw (tpalloc, other, unknown) owned
          | inl known ↦ elim (Bool-cases (r.address == 0)) [
            | inl fails ↦
                rw (tpalloc, other, known, fails) (Rest-Owned r.heap w.objects r.address rest)
            | inr made ↦
                rw (tpalloc, other, known, made)
                  (translate_type-Owned a.memory btype r.address size true
                    (record w { heap = r.heap; ctx_set = true }) rest
                    ((al btype w.heap owned.null).typed (ground arith)))
          ]
        ]
      ]

  -- tprealloc moves the buffer of an object, or leaves it when it fails.
  pub tprealloc-Owned :
      (s : Service) (i : ℕ) (w : World)
      → Moves s
      → OwnedWorld w
      → Sole w (some i)
      → OwnedWorld (tprealloc a s i w)
  unfolding tprealloc atmi_throw unset_ctx get_ctx set_buffer
  tprealloc-Owned s i w service owned sole = elim (Bool-cases a.known) [
    | inr unknown ↦ rw (tprealloc, unknown) owned
    | inl known ↦ elim (Option-cases w.pending) [
      | inr (x, p) ↦ rw (tprealloc, known, get_buffer_same i (record w { ctx_set = true }), p) owned
      | inl quiet ↦
          let b = w.objects i in
          let r = s b.c_ptr b.len w.heap in
          let grown = service b.c_ptr b.len w.heap owned.null in
          let ans = grown.answered in
          elim (Bool-cases (r.obuf == 0)) [
            | inl fails ↦
                rw (tprealloc, known, get_buffer_same i (record w { ctx_set = true }), quiet, fails)
                  (left-Owned w.heap w.objects b.c_ptr r owned ans (inr (ground arith))
                    (grown.failed (ground arith)))
            | inr done ↦
                let rest = Answered-Rest w.heap w.objects b.c_ptr r owned ans (some i) sole in
                let b' : TypedBuffer = record b { c_ptr = r.obuf } in
                let same = grown.moved (ground arith) in
                let fits : IsOwner b' → Fits r.heap b' = λ own. elim (Bool-cases (b.c_ptr == 0)) [
                  | inl null ↦
                      let z : b.c_ptr ≡ 0 = ground arith in
                      let (t, e) = ans.live own.1 in let free = owned.null in cc (e, same, z, free)
                  | inr some_ptr ↦
                      let (t, e, c) = owned.live i (own.0, ground arith) in (t, same ∙ e, c)
                ] in
                rw (tprealloc, known, get_buffer_same i (record w { ctx_set = true }), quiet, done)
                  (Rest-taken r.heap w.objects r.obuf (some i) i b' rest (λ j it. it) refl fits)
          ]
    ]
  ]
