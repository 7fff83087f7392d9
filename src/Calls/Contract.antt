-- ===== src/Calls/Contract.antt =====
-- What the manuals of Enduro/X say of a call whose buffer may be replaced, and the owners behind it.
use endurox_java.Base.{
  ℕ, ◌≡◌, ◌≢◌, ◌⊎◌, sym, ◌∙◌, true, false, Bool-cases, Option, none, some, inl, inr, ◌==◌, arith,
  ap,
}
use endurox_java.Base.Bytes.{CString}
use endurox_java.Buffers.{TypedBuffer, World}
use endurox_java.Buffers.Owned.{Heap, IsOwner, IsIt, Owned, Rest}
use endurox_java.Calls.{Reply, Service, is_svcfail, is_event}

-- The buffer of the call is what it was.
abbrev pub Stays : (ibuf : ℕ) → Heap → Reply → Type 0
Stays ibuf h r = (r.obuf ≡ ibuf) × (r.heap ibuf ≡ h ibuf)

-- What the manual says of a call whose buffer may be replaced: the buffer behind it is NULL or
-- allocated, it is the old one or was free before, and no other buffer is touched. A call that fails
-- without an answer leaves the buffer.
pub record Answered (ibuf : ℕ) (h : Heap) (r : Reply) : Type 0 where
  pub null : r.heap 0 ≡ none
  pub kept : (x : ℕ) → x ≢ ibuf → x ≢ r.obuf → r.heap x ≡ h x
  pub live : r.obuf ≢ 0 → (t : CString) × (r.heap r.obuf ≡ some t)
  pub fresh : r.obuf ≢ ibuf → h r.obuf ≡ none
  pub stays : r.success ≡ false → is_svcfail r.err ≡ false → is_event r.err ≡ false → Stays ibuf h r

abbrev pub IsService : Service → Type 0
IsService s = (ibuf ilen : ℕ) (h : Heap) → h 0 ≡ none → Answered ibuf h (s ibuf ilen h)

abbrev pub NoEvent : Service → Type 0
NoEvent s = (ibuf ilen : ℕ) (h : Heap) → is_event (s ibuf ilen h).err ≡ false

abbrev pub NoSvcfail : Service → Type 0
NoSvcfail s = (ibuf ilen : ℕ) (h : Heap) → is_svcfail (s ibuf ilen h).err ≡ false

-- A reply for the descriptor 0 has no data.
abbrev pub NoData : Service → Type 0
NoData s =
    (ibuf ilen : ℕ) (h : Heap)
    → (s ibuf ilen h).success ≡ true
    → (s ibuf ilen h).cd ≡ 0
    → Stays ibuf h (s ibuf ilen h)

-- No owner but the object itself has its buffer.
abbrev pub Sole : World → Option ℕ → Type 0
Sole w none = Unit
Sole w (some i) =
    (j : ℕ) → i ≢ j → IsOwner (w.objects j) → (w.objects j).c_ptr ≢ (w.objects i).c_ptr

module _ (h : Heap) (o : ℕ → TypedBuffer) (ibuf : ℕ) (r : Reply) (owned : Owned h o)
    (ans : Answered ibuf h r) where
  pub Answered-Rest :
      (object : Option ℕ)
      → ((j : ℕ) → ¬ IsIt object j → IsOwner (o j) → (o j).c_ptr ≢ ibuf)
      → Rest r.heap o object r.obuf
  Answered-Rest object sole =
      let away : (j : ℕ) → ¬ IsIt object j → IsOwner (o j) → (o j).c_ptr ≢ r.obuf = λ j it own p.
        elim (Bool-cases (r.obuf == ibuf)) [
          | inl same ↦ sole j it own (p ∙ ground arith)
          | inr moved ↦
              let (t, e, c) = owned.live j own in
              let free : h r.obuf ≡ none = ans.fresh (ground arith) in cc (e, p, free)
        ] in
      record {
        null = ans.null;
        live = λ j it own.
            let (t, e, c) = owned.live j own in
            (t, ans.kept (o j).c_ptr (sole j it own) (away j it own) ∙ e, c);
        apart = λ j k ne _ _. owned.apart j k ne;
        away = away;
      }

  -- The buffer of the call is left, and no other is new.
  pub left-Owned : (r.obuf ≡ ibuf) ⊎ (r.obuf ≡ 0) → r.heap ibuf ≡ h ibuf → Owned r.heap o
  left-Owned none_new as_was = record {
    null = ans.null;
    live = λ j own.
        let (t, e, c) = owned.live j own in
        elim (Bool-cases ((o j).c_ptr == ibuf)) [
          | inl at ↦
              let p : (o j).c_ptr ≡ ibuf = ground arith in
              (t, ap r.heap p ∙ as_was ∙ ap h (sym p) ∙ e, c)
          | inr other ↦
              let ne : (o j).c_ptr ≢ ibuf = ground arith in
              let away : (o j).c_ptr ≢ r.obuf =
                λ p. elim none_new [ inl same ↦ ne (p ∙ same) | inr null ↦ own.1 (p ∙ null) ] in
              (t, ans.kept (o j).c_ptr ne away ∙ e, c)
        ];
    apart = owned.apart;
  }

  pub Stays-Owned : Stays ibuf h r → Owned r.heap o
  Stays-Owned (same, as_was) = left-Owned (inl same) as_was
