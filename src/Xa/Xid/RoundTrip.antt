-- ===== src/Xa/Xid/RoundTrip.antt =====
-- A transaction id that goes to Java and back.
use native.Mathlib.Omega.{arith}
use endurox_java.Base.{
  ℕ, zero, suc, ◌+◌, ◌-◌, ◌*◌, ◌%◌, ◌^◌, ◌≤◌, ◌≡◌, refl, ap, ap₂, sym, ◌∙◌, true, some, List, [],
  ◌∷◌, ◌++◌, leb, length, take, drop, replicate,
}
use endurox_java.Xa.Xid.{
  data_size, CXid, ExXid, ex_xid, cvt_xid_to_java, read_format_id, cvt_xid_to_c,
}

length-take : {A : Type 0} (n : ℕ) (xs : List A) → n ≤ length xs → length (take n xs) ≡ n
length-take zero xs h = refl
length-take (suc n) [] h = absurd (omega arith)
length-take (suc n) (x ∷ xs) h = ap suc (length-take n xs (omega arith))

length-drop :
    {A : Type 0} (n : ℕ) (xs : List A) → n ≤ length xs → length (drop n xs) + n ≡ length xs
length-drop zero xs h = omega arith
length-drop (suc n) [] h = absurd (omega arith)
length-drop (suc n) (x ∷ xs) h = omega (arith, length-drop n xs (omega arith))

take_nil : (A : Type 0) (n : ℕ) → take {A = A} n [] ≡ []
take_nil A zero = refl
take_nil A (suc n) = refl

-- Two pieces that follow each other.
take-drop : {A : Type 0} (n m : ℕ) (xs : List A) → take n xs ++ take m (drop n xs) ≡ take (n + m) xs
take-drop zero m xs = let e : m ≡ zero + m = omega arith in ap (λ k. take k xs) e
take-drop {A} (suc n) m [] = take_nil A m ∙ sym (take_nil A (suc n + m))
take-drop (suc n) m (x ∷ xs) =
    let e : suc (n + m) ≡ suc n + m = omega arith in
    ap (λ ys. x ∷ ys) (take-drop n m xs) ∙ ap (λ k. take k (x ∷ xs)) e

-- A transaction id whose parts fit in its data goes to Java and comes back with the same lengths
-- and bytes, zeros behind them, and the lower half of the format id.
pub cvt_xid_round_trip :
    (upper : ℕ) (xid : CXid)
    → length xid.bytes ≡ data_size
    → xid.gtrid_length + xid.bqual_length ≤ data_size
    → (x : ExXid) × (back : CXid) × (cvt_xid_to_java true xid ≡ some x)
      × (cvt_xid_to_c upper x ≡ some back)
      × (back.gtrid_length ≡ xid.gtrid_length)
      × (back.bqual_length ≡ xid.bqual_length)
      × (back.bytes
          ≡ take (xid.gtrid_length + xid.bqual_length) xid.bytes
            ++ replicate (data_size - (xid.gtrid_length + xid.bqual_length)) 0)
      × (back.format_id % 2 ^ 32 ≡ xid.format_id % 2 ^ 32)
unfolding cvt_xid_to_java ex_xid cvt_xid_to_c read_format_id
cvt_xid_round_trip upper xid whole fits =
    let g = xid.gtrid_length in
    let b = xid.bqual_length in
    let t = take g xid.bytes in
    let q = take b (drop g xid.bytes) in
    let lt : length t ≡ g = length-take g xid.bytes (omega arith) in
    let ld = length-drop g xid.bytes (omega arith) in
    let lq : length q ≡ b = length-take b (drop g xid.bytes) (omega (arith, ld)) in
    let inside : leb (g + b) (length xid.bytes) ≡ true = ground arith in
    let small : leb (length t + length q) data_size ≡ true = ground arith in
    let x : ExXid = record { format_id = xid.format_id; trxid = t; bqual = q } in
    let back : CXid = record {
      format_id = upper * 2 ^ 32 + xid.format_id % 2 ^ 32;
      gtrid_length = length t;
      bqual_length = length q;
      bytes = t ++ q ++ replicate (data_size - (length t + length q)) 0;
    } in
    (
      x,
      back,
      rw inside refl,
      rw small refl,
      lt,
      lq,
      ap₂ (λ l n. l ++ replicate (data_size - n) 0) (take-drop g b xid.bytes) (ap₂ ◌+◌ lt lq),
      omega arith,
    )
