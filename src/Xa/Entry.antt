-- ===== src/Xa/Entry.antt =====
-- libsrc/c/xaj.c: the entries of the XA switch, each a call of a Java method of the thread's
-- AtmiCtx, and libsrc/c/xatmsrv.c, `ndrxj_alloc_context`, which makes that object on first use.
pub mod Codes
pub mod Recover
use endurox_java.Base.{
  ℕ, zero, suc, ◌+◌, ◌-◌, Bool, true, false, not, ◌&&◌, ◌||◌, Option, none, some, List, [], ◌∷◌,
  ◌++◌, if◌then◌else◌, length,
}
use endurox_java.Boot.Index.{ℤ, pos, negsuc}
use endurox_java.Boot.Jni.{Ref, main_class, Jni, Jvm, acquire, release, release_if}
use endurox_java.Boot.Handler.{get_static_handler}
use endurox_java.Xa.Xid.{CXid, ExXid, cvt_xid_to_java, cvt_xid_to_c}

abbrev pub xa_ok : ℤ
xa_ok = pos 0

-- XAER_RMERR, XAER_RMFAIL: -3 and -7
abbrev pub xaer_rmerr : ℤ
xaer_rmerr = negsuc 2

abbrev pub xaer_rmfail : ℤ
xaer_rmfail = negsuc 6

abbrev pub is_ok : ℤ → Bool
is_ok (pos zero) = true
is_ok (pos (suc n)) = false
is_ok (negsuc n) = false

-- A thread: its private data (the Java AtmiCtx, the JNI environment, the saved C context), the C
-- context that is set, the pending exception and the references of its frame. A context is a
-- number; none is TPNULLCONTEXT.
pub record Thread : Type 0 where
  pub has_atmi_ctx : Bool
  pub has_env : Bool
  pub saved : Option ℕ
  pub current : Option ℕ
  pub pending : Bool
  pub jvm : Jvm
  pub is_server : Bool
  -- local references that no code deletes
  pub leaked : ℕ

-- What the JVM answers to `ndrxj_alloc_context`.
pub record Alloc : Type 0 where
  pub attached : Bool
  pub jni : Jni
  pub throws : Bool
  pub given : Bool

-- `ndrxj_alloc_context`; `tpgetctxt` takes the context off the thread and `tpsetctxt` puts it back.
unfoldable pub alloc_context : Alloc → Thread → Bool × Thread
alloc_context a t =
    let t1 = record t { has_env = true } in
    let (ok, class_given, jvm') = get_static_handler a.jni t.jvm in
    let freed = release_if class_given main_class jvm' in
    let t2 = record t1 { jvm = freed } in
    let t3 = record t2 { saved = t.current } in
    if not a.attached
    then (false, t)
    else if not ok
    then (false, t2)
    else if a.throws
    then (false, record t3 { pending = false })
    else if not a.given
    then (false, t3)
    else (true, record t3 { has_atmi_ctx = true; is_server = true })

-- The guard at the head of each entry.
unfoldable pub with_context : Alloc → Thread → Bool × Thread
with_context a t = if t.has_atmi_ctx then (true, t) else alloc_context a t

-- Behind `out:`: a pending exception turns a success into XAER_RMERR and is cleared. None: the JNI
-- environment is NULL and is read.
unfoldable pub settle : ℤ → Thread → Option (ℤ × Thread)
settle ret t =
    if not t.has_env
    then none
    else if t.pending
    then some (if is_ok ret then xaer_rmerr else ret, record t { pending = false })
    else some (ret, t)

-- What a Java method does: its return code, whether it throws, and the C context that it leaves set.
pub record Reply : Type 0 where
  pub code : ℤ
  pub throws : Bool
  pub left_set : Option ℕ

-- The call between the two `tpsetctxt`.
unfoldable pub call_java : Reply → Thread → Thread
call_java r t =
    let outside = record t { current = none } in
    let returned = record outside { current = r.left_set; pending = r.throws } in
    record returned { current = t.saved }

-- `xa_info_entry`, for open and close
unfoldable pub xa_info_entry : Alloc → Reply → Thread → Option (ℤ × Thread)
xa_info_entry a r t =
    let (ok, t1) = with_context a t in
    if ok then settle r.code (call_java r t1) else settle xaer_rmfail t1

abbrev pub is_null : Option ExXid → Bool
is_null none = true
is_null (some jxid) = false

-- `xa_xid_entry`; the method gets the converted id, or NULL when the conversion failed, whose exception
-- then stays pending. The reference to the id is deleted again.
unfoldable pub xa_xid_entry :
    Alloc → (memory : Bool) → (method : Option ExXid → Reply) → CXid → Thread → Option (ℤ × Thread)
xa_xid_entry a memory method xid t =
    let (ok, t1) = with_context a t in
    let jxid = cvt_xid_to_java memory xid in
    let r = method jxid in
    let t2 = call_java r t1 in
    if ok
    then settle r.code (record t2 { pending = is_null jxid || t2.pending })
    else settle xaer_rmfail t1

-- The loop of `xa_recover_entry` over the first `n` ids: how many were converted, and the buffer.
-- None: a conversion writes past an id.
unfoldable pub recover_loop : (upper : ℕ) → (n : ℕ) → List ExXid → Option (List CXid)
recover_loop upper zero xs = some []
recover_loop upper (suc n) [] = some []
recover_loop upper (suc n) (x ∷ xs) =
    let rest = recover_loop upper n xs in
    elim (cvt_xid_to_c upper x) [
      | none ↦ none
      | some c ↦ elim rest [ none ↦ none | some cs ↦ some (c ∷ cs) ]
    ]

-- The XidList that Java returns: its code and its array; none stands for NULL.
pub record XidList : Type 0 where
  pub ret : ℤ
  pub list : Option (List ExXid)

-- A result with an untouched buffer.
abbrev pub without_ids : Option (ℤ × Thread) → Option (ℤ × List CXid × Thread)
without_ids none = none
without_ids (some (c, t)) = some (c, [], t)

-- The ids that were converted, and the exit.
unfoldable pub with_ids : Option (List CXid) → Thread → Option (ℤ × List CXid × Thread)
with_ids none t = none
with_ids (some cs) t =
    elim (settle (pos (length cs)) (record t { leaked = t.leaked + length cs })) [
      | none ↦ none
      | some (c, t') ↦ some (c, cs, t')
    ]

-- What follows the call of Java; `list` is what it returned.
unfoldable pub take_list :
    (upper : ℕ) → Option XidList → (count : ℕ) → Thread → Option (ℤ × List CXid × Thread)
take_list upper none count t = none
take_list upper (some r) count t =
    let t' = record t { leaked = t.leaked + 1 } in
    if not (is_ok r.ret) then without_ids (settle r.ret t') else elim r.list [
      | none ↦ without_ids (settle xa_ok t')
      | some xs ↦ with_ids (recover_loop upper count xs) t'
    ]

-- `xa_recover_entry`: the code and the ids that are written. `xid_given` is false for a NULL buffer,
-- `count` is its size. None: NULL is read, or an id is written past its end.
unfoldable pub xa_recover_entry :
    Alloc
    → (upper : ℕ) → Reply
    → Option XidList
    → (xid_given : Bool) → (count : ℕ) → Thread
    → Option (ℤ × List CXid × Thread)
xa_recover_entry a upper r obj xid_given count t =
    let (ok, t1) = with_context a t in
    if not ok
    then without_ids (settle xaer_rmfail t1)
    else if not xid_given
    then without_ids (settle xaer_rmerr t1)
    else take_list upper obj count (call_java r t1)

-- `xa_complete_entry`
unfoldable pub xa_complete_entry : ℤ
xa_complete_entry = xaer_rmerr

-- The entries of the switch but recover.
pub data Operation : Type 0 where
  op_open op_close op_start op_end op_rollback op_prepare op_commit op_forget op_complete :
      Operation

-- `xa_open_entry_stat`, `xa_start_entry_stat`, …; `methods` are those of AtmiCtx.
unfoldable pub xa_switch :
    Alloc
    → (memory : Bool) → (methods : Operation → Option ExXid → Reply) → Operation
    → CXid
    → Thread
    → Option (ℤ × Thread)
unfolding xa_complete_entry
xa_switch a memory methods op_open xid t = xa_info_entry a (methods op_open none) t
xa_switch a memory methods op_close xid t = xa_info_entry a (methods op_close none) t
xa_switch a memory methods op_start xid t = xa_xid_entry a memory (methods op_start) xid t
xa_switch a memory methods op_end xid t = xa_xid_entry a memory (methods op_end) xid t
xa_switch a memory methods op_rollback xid t = xa_xid_entry a memory (methods op_rollback) xid t
xa_switch a memory methods op_prepare xid t = xa_xid_entry a memory (methods op_prepare) xid t
xa_switch a memory methods op_commit xid t = xa_xid_entry a memory (methods op_commit) xid t
xa_switch a memory methods op_forget xid t = xa_xid_entry a memory (methods op_forget) xid t
xa_switch a memory methods op_complete xid t = some (xa_complete_entry, t)
