-- ===== src/Xa/Entry/Recover.antt =====
-- What a recovery writes and returns.
use endurox_java.Base.{
  ℕ, zero, suc, ◌+◌, ◌-◌, ◌≤◌, ◌≡◌, refl, ap, sym, ◌∙◌, true, false, some, List, [], ◌∷◌, ◌++◌,
  length, take, map, replicate, ◌*◌, ◌%◌, ◌^◌, leb, ap₂, arith,
}
use endurox_java.Boot.Index.{ℤ, pos}
use endurox_java.Xa.Xid.{data_size, CXid, ExXid, cvt_xid_to_c, read_format_id}
use endurox_java.Xa.Entry.{
  xa_ok, Thread, Alloc, settle, Reply, call_java, recover_loop, xa_recover_entry, take_list,
  with_ids,
}
use endurox_java.Xa.Entry.Codes.{with_context-has}

-- Each id fits in the data of a C transaction id.
abbrev pub AllFit : List ExXid → Type 0
AllFit [] = Unit
AllFit (x ∷ xs) = (length x.trxid + length x.bqual ≤ data_size) × AllFit xs

cvt_xid_to_c-fits :
    (upper : ℕ) (x : ExXid)
    → length x.trxid + length x.bqual ≤ data_size
    → (c : CXid) × (cvt_xid_to_c upper x ≡ some c)
unfolding cvt_xid_to_c read_format_id
cvt_xid_to_c-fits upper x fits =
    let small : leb (length x.trxid + length x.bqual) data_size ≡ true = ground arith in
    let c : CXid = record {
      format_id = upper * 2 ^ 32 + x.format_id % 2 ^ 32;
      gtrid_length = length x.trxid;
      bqual_length = length x.bqual;
      bytes = x.trxid ++ x.bqual ++ replicate (data_size - (length x.trxid + length x.bqual)) 0;
    } in
    (c, rw small refl)

recover_loop-fits :
    (upper n : ℕ) (xs : List ExXid)
    → AllFit xs
    → (cs : List CXid) × (recover_loop upper n xs ≡ some cs)
      × (length cs ≡ length (take n xs))
      × (map some cs ≡ map (cvt_xid_to_c upper) (take n xs))
unfolding recover_loop
recover_loop-fits upper zero xs fit = ([], refl, refl, refl)
recover_loop-fits upper (suc n) [] fit = ([], refl, refl, refl)
recover_loop-fits upper (suc n) (x ∷ xs) (small, fit) =
    let (c, e) = cvt_xid_to_c-fits upper x small in
    let (cs, done, len, conv) = recover_loop-fits upper n xs fit in
    (c ∷ cs, rw (e, recover_loop, done) refl, ap suc len, ap₂ (λ y ys. y ∷ ys) (sym e) conv)

settle-quiet :
    (ret : ℤ) (t : Thread) → t.has_env ≡ true → t.pending ≡ false → settle ret t ≡ some (ret, t)
unfolding settle
settle-quiet ret t env quiet = ground arith

with_ids-settled :
    (cs : List CXid) (r : Reply) (t : Thread)
    → t.has_env ≡ true
    → r.throws ≡ false
    → (t' : Thread) × (with_ids
          (some cs)
          (record (call_java r t) { leaked = (call_java r t).leaked + 1 })
        ≡ some (pos (length cs), cs, t'))
      × (t'.current ≡ t.saved)
      × (t'.leaked ≡ t.leaked + 1 + length cs)
unfolding with_ids call_java
with_ids-settled cs r t env quiet =
    let t' : Thread = record t {
      current = t.saved;
      pending = r.throws;
      leaked = t.leaked + 1 + length cs;
    } in
    (t', rw (with_ids, settle-quiet (pos (length cs)) t' env quiet) refl, refl, refl)

-- A recovery whose Java list has only ids that fit writes their conversions, in order and as many as
-- the buffer holds, and returns the number that it wrote, which is not the number that Java has when
-- the buffer is smaller; it leaves a reference for the list and one for each id.
pub xa_recover_entry_lem :
    (a : Alloc) (upper : ℕ) (r : Reply) (xs : List ExXid) (count : ℕ) (t : Thread)
    → t.has_atmi_ctx ≡ true
    → t.has_env ≡ true
    → r.throws ≡ false
    → AllFit xs
    → (cs : List CXid) × (t' : Thread) × (xa_recover_entry a upper r
          (some (record { ret = xa_ok; list = some xs }))
          true
          count
          t
        ≡ some (pos (length (take count xs)), cs, t'))
      × (map some cs ≡ map (cvt_xid_to_c upper) (take count xs))
      × (t'.current ≡ t.saved)
      × (t'.leaked ≡ t.leaked + 1 + length (take count xs))
unfolding xa_recover_entry take_list
xa_recover_entry_lem a upper r xs count t ctx env quiet fit =
    let (cs, done, len, conv) = recover_loop-fits upper count xs fit in
    let (t', e, current, leaked) = with_ids-settled cs r t env quiet in
    (
      cs,
      t',
      rw (with_context-has a t ctx, done) (e ∙ ap (λ n. some (pos n, cs, t')) len),
      conv,
      current,
      leaked ∙ ap (λ n. t.leaked + 1 + n) len,
    )
