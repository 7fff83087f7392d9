-- ===== src/Xa/Entry/Codes.antt =====
-- What the entries return, and that they leave the thread as they found it.
use endurox_java.Base.{
  ◌||◌, ◌≡◌, refl, ap, sym, ◌∙◌, Bool, true, false, ◌&&◌, Option, none, some, ap₂, arith,
  if◌then◌else◌,
}
use endurox_java.Boot.Index.{ℤ}
use endurox_java.Xa.Xid.{CXid, ExXid, cvt_xid_to_java}
use endurox_java.Xa.Entry.{
  is_null, xaer_rmerr, is_ok, Thread, Alloc, alloc_context, with_context, settle, Reply, call_java,
  xa_info_entry, xa_xid_entry, xa_complete_entry, Operation, op_open, op_close, op_start, op_end,
  op_rollback, op_prepare, op_commit, op_forget, op_complete, xa_switch,
}

-- The code of a Java method as the transaction manager sees it.
abbrev pub seen : Reply → ℤ
seen r = if r.throws && is_ok r.code then xaer_rmerr else r.code

-- The same for a method that gets an id: a conversion that failed has left an exception too.
abbrev pub seen_with : Option ExXid → Reply → ℤ
seen_with jxid r = if (is_null jxid || r.throws) && is_ok r.code then xaer_rmerr else r.code

xid_call-settle :
    (jxid : Option ExXid) (r : Reply) (t : Thread)
    → t.has_env ≡ true
    → settle r.code (record (call_java r t) { pending = is_null jxid || (call_java r t).pending })
      ≡ some (seen_with jxid r, record t { current = t.saved; pending = false })
unfolding settle call_java
xid_call-settle none r t env = ground arith
xid_call-settle (some x) r t env = ground arith

call_java-settle :
    (r : Reply) (t : Thread)
    → t.has_env ≡ true
    → settle r.code (call_java r t) ≡ some (seen r, record t { current = t.saved; pending = false })
unfolding settle call_java
call_java-settle r t env = ground arith

pub with_context-has :
    (a : Alloc) (t : Thread) → t.has_atmi_ctx ≡ true → with_context a t ≡ (true, t)
unfolding with_context
with_context-has a t ctx = ground arith

with_context-new :
    (a : Alloc) (t : Thread) → t.has_atmi_ctx ≡ false → with_context a t ≡ alloc_context a t
unfolding with_context
with_context-new a t new = ground arith

-- With a Java context, open and close return the code of the Java method, or XAER_RMERR for an
-- exception behind a success; the saved C context is set again, whatever Java has left, and no
-- exception is pending.
pub xa_info_entry_lem :
    (a : Alloc) (r : Reply) (t : Thread)
    → t.has_atmi_ctx ≡ true
    → t.has_env ≡ true
    → xa_info_entry a r t ≡ some (seen r, record t { current = t.saved; pending = false })
unfolding xa_info_entry
xa_info_entry_lem a r t ctx env = rw (with_context-has a t ctx) (call_java-settle r t env)

alloc_context-true :
    (a : Alloc) (t : Thread)
    → (alloc_context a t).0 ≡ true
    → let t' = (alloc_context a t).1 in
      (t'.has_env ≡ true)
      × (t'.saved ≡ t.current)
      × (t'.current ≡ t.current)
      × (t'.has_atmi_ctx ≡ true)
unfolding alloc_context
alloc_context-true a t ok = ground arith

-- The first call of a thread makes the Java context, and leaves the C context that was set before.
pub xa_info_entry_first :
    (a : Alloc) (r : Reply) (t : Thread)
    → t.has_atmi_ctx ≡ false
    → (alloc_context a t).0 ≡ true
    → (t' : Thread) × (xa_info_entry a r t ≡ some (seen r, t'))
      × (t'.current ≡ t.current)
      × (t'.has_atmi_ctx ≡ true)
      × (t'.pending ≡ false)
unfolding xa_info_entry
xa_info_entry_first a r t new ok =
    let (env, saved, current, made) = alloc_context-true a t ok in
    let t1 = (alloc_context a t).1 in
    (
      record t1 { current = t1.saved; pending = false },
      rw (with_context-new a t new, ok) (call_java-settle r t1 env),
      saved,
      made,
      refl,
    )

xa_xid_entry_lem :
    (a : Alloc) (memory : Bool) (method : Option ExXid → Reply) (xid : CXid) (t : Thread)
    → t.has_atmi_ctx ≡ true
    → t.has_env ≡ true
    → let jxid = cvt_xid_to_java memory xid in
      xa_xid_entry a memory method xid t
      ≡ some (seen_with jxid (method jxid), record t { current = t.saved; pending = false })
unfolding xa_xid_entry
xa_xid_entry_lem a memory method xid t ctx env =
    let jxid = cvt_xid_to_java memory xid in
    rw (with_context-has a t ctx) (xid_call-settle jxid (method jxid) t env)

abbrev by_id : (Option ExXid → Reply) → Option ExXid → ℤ
by_id method jxid = seen_with jxid (method jxid)

-- The code that an entry of the switch returns.
abbrev pub answer : (memory : Bool) → (Operation → Option ExXid → Reply) → Operation → CXid → ℤ
answer memory methods op_open xid = seen (methods op_open none)
answer memory methods op_close xid = seen (methods op_close none)
answer memory methods op_start xid = by_id (methods op_start) (cvt_xid_to_java memory xid)
answer memory methods op_end xid = by_id (methods op_end) (cvt_xid_to_java memory xid)
answer memory methods op_rollback xid = by_id (methods op_rollback) (cvt_xid_to_java memory xid)
answer memory methods op_prepare xid = by_id (methods op_prepare) (cvt_xid_to_java memory xid)
answer memory methods op_commit xid = by_id (methods op_commit) (cvt_xid_to_java memory xid)
answer memory methods op_forget xid = by_id (methods op_forget) (cvt_xid_to_java memory xid)
answer memory methods op_complete xid = xaer_rmerr

-- On a thread that has a Java context and a JNI environment, whose saved C context is the one that is
-- set, and without a pending exception, the entries of the switch but recover and complete return the
-- code of their Java method, given the converted id or NULL when the conversion fails; a success is
-- made XAER_RMERR by an exception of the method or of the conversion. xa_complete returns XAER_RMERR
-- and calls nothing. All leave the thread as they found it, whatever C context Java has left set.
pub xa_switch_lem :
    (a : Alloc) (memory : Bool) (methods : Operation → Option ExXid → Reply) (op : Operation)
    (xid : CXid) (t : Thread)
    → t.has_atmi_ctx ≡ true
    → t.has_env ≡ true
    → t.saved ≡ t.current
    → t.pending ≡ false
    → xa_switch a memory methods op xid t ≡ some (answer memory methods op xid, t)
unfolding xa_switch xa_complete_entry
xa_switch_lem a memory methods op xid t ctx env same quiet =
    let back : record t { current = t.saved; pending = false } ≡ t =
      ap₂ (λ c p. record t { current = c; pending = p }) same (sym quiet) in
    let by_xid : (o : Operation)
        → xa_xid_entry a memory (methods o) xid t
          ≡ some (by_id (methods o) (cvt_xid_to_java memory xid), t) =
      λ o.
        xa_xid_entry_lem a memory (methods o) xid t ctx env
        ∙ ap (λ u. some (by_id (methods o) (cvt_xid_to_java memory xid), u)) back in
    let by_info : (o : Operation)
        → xa_info_entry a (methods o none) t ≡ some (seen (methods o none), t) =
      λ o.
        xa_info_entry_lem a (methods o none) t ctx env
        ∙ ap (λ u. some (seen (methods o none), u)) back in
    elim op as (λ o. xa_switch a memory methods o xid t ≡ some (answer memory methods o xid, t)) [
      | op_open ↦ by_info op_open
      | op_close ↦ by_info op_close
      | op_start ↦ by_xid op_start
      | op_end ↦ by_xid op_end
      | op_rollback ↦ by_xid op_rollback
      | op_prepare ↦ by_xid op_prepare
      | op_commit ↦ by_xid op_commit
      | op_forget ↦ by_xid op_forget
      | op_complete ↦ refl
    ]
