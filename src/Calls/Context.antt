-- ===== src/Calls/Context.antt =====
-- The context of the thread behind each native method.
use endurox_java.Base.{◌&&◌, not, true, ◌≡◌, refl, ℕ, Bool, false, Option, none, some, arith}
use endurox_java.Buffers.{get_ctx, atmi_throw, World, Code, unset_ctx}
use endurox_java.Base.Bytes.{CString}
use endurox_java.Buffers.Owned.{Heap}
use endurox_java.Calls.Alloc.{Allocation, tpalloc}
use endurox_java.Calls.Queue.{QueueCall, tpdequeue, tpenqueue}
use endurox_java.Calls.Return.{Taker, tpreturn, tpforward}
use endurox_java.Calls.Transaction.{checked_call, tpgetlev}
use endurox_java.Ubf.{Jint}
use endurox_java.Calls.Settings.{
  tpterm, tpcontinue, tpsrvfreectxdata, tpsrvsetctxdata, tpsrvgetctxdata, plain_call, ListAnswers,
  tptoutget, tptoutset, tpurcode, tpcancel, get_buffers, read_setting,
}
use endurox_java.Calls.{Service, Answers, tpcall, tpgetrply, tprecv, tpacall, tpsend, tpdiscon}

-- The methods, with what they are called with.
pub data NativeCall : Type 0 where
  tpcall_of tpgetrply_of tprecv_of tpacall_of tpsend_of : Service → Option ℕ → NativeCall
  tpdiscon_of : (success : Bool) → Code → NativeCall
  tpdequeue_of tpenqueue_of : QueueCall → Service → Option ℕ → NativeCall
  checked_call_of : (success : Bool) → Code → NativeCall
  tpgetlev_of : (level : ℕ) → NativeCall
  tpreturn_of : Taker → Option ℕ → NativeCall
  tpforward_of : (CString → Taker) → CString → Option ℕ → NativeCall
  tpterm_of tpcontinue_of tpsrvfreectxdata_of : NativeCall
  tpsrvsetctxdata_of : Option Code → NativeCall
  tpsrvgetctxdata_of : (address : ℕ) → Code → NativeCall
  tptoutget_of : Jint → NativeCall
  tptoutset_of : Option Code → NativeCall
  tpurcode_of : ℕ → NativeCall
  tpcancel_of : NativeCall
  get_buffers_of : ListAnswers → (system : Code) → NativeCall
  tpalloc_of : (CString → Heap → Allocation) → Option CString → ℕ → NativeCall

abbrev pub behind : Answers → NativeCall → World → World
behind a (tpcall_of s object) w = (tpcall a s object w).1
behind a (tpgetrply_of s object) w = (tpgetrply a s object w).1
behind a (tprecv_of s object) w = (tprecv a s object w).1
behind a (tpacall_of s object) w = (tpacall a s object w).1
behind a (tpsend_of s object) w = (tpsend a s object w).1
behind a (tpdiscon_of success err) w = tpdiscon a success err w
behind a (tpdequeue_of q s object) w = (tpdequeue a q s object w).1
behind a (tpenqueue_of q s object) w = tpenqueue a q s object w
behind a (checked_call_of success err) w = checked_call a success err w
behind a (tpgetlev_of level) w = (tpgetlev a level w).1
behind a (tpreturn_of take object) w = tpreturn a take object w
behind a (tpforward_of take svcname object) w = tpforward a take svcname object w
behind a tpterm_of w = tpterm a.known w
behind a tpcontinue_of w = tpcontinue a.known w
behind a tpsrvfreectxdata_of w = tpsrvfreectxdata a.known w
behind a (tpsrvsetctxdata_of failed) w = tpsrvsetctxdata a.known failed w
behind a (tpsrvgetctxdata_of address err) w = (tpsrvgetctxdata a.known address err w).1
behind a (tptoutget_of tout) w = (tptoutget a.known tout w).1
behind a (tptoutset_of failed) w = tptoutset a.known failed w
behind a (tpurcode_of code) w = (tpurcode a.known code w).1
behind a tpcancel_of w = tpcancel a.known w
behind a (get_buffers_of l system) w = (get_buffers a.known l system w).1
behind a (tpalloc_of alloc btype size) w = (tpalloc a alloc btype size w).1

-- The methods that return in front of the switch back when their object holds no context.
abbrev pub returns_early : NativeCall → Bool
returns_early (checked_call_of success err) = true
returns_early (tpgetlev_of level) = true
returns_early (tpreturn_of take object) = true
returns_early (tpforward_of take svcname object) = true
returns_early tpterm_of = true
returns_early tpcontinue_of = true
returns_early tpsrvfreectxdata_of = true
returns_early (tpsrvsetctxdata_of failed) = true
returns_early (tpsrvgetctxdata_of address err) = true
returns_early _ = false

-- Whatever the library and the JVM answer, no context is set behind a method of `NativeCall`, but for
-- those that return early without a context, behind which one is set just when one was set before.
pub behind-ctx_set :
    (a : Answers) (c : NativeCall) (w : World)
    → (behind a c w).ctx_set ≡ (returns_early c && not a.known && w.ctx_set)
unfolding tpcall tpgetrply tprecv tpacall tpsend tpdiscon tpdequeue tpenqueue tpalloc unset_ctx
    tptoutget tptoutset tpurcode tpcancel get_buffers read_setting checked_call tpgetlev tpreturn
    tpforward tpterm tpcontinue tpsrvfreectxdata tpsrvsetctxdata tpsrvgetctxdata plain_call get_ctx
    atmi_throw
behind-ctx_set a (tpcall_of s object) w = ground arith
behind-ctx_set a (tpgetrply_of s object) w = ground arith
behind-ctx_set a (tprecv_of s object) w = ground arith
behind-ctx_set a (tpacall_of s object) w = ground arith
behind-ctx_set a (tpsend_of s object) w = ground arith
behind-ctx_set a (tpdiscon_of success err) w = refl
behind-ctx_set a (tpdequeue_of q s object) w = ground arith
behind-ctx_set a (tpenqueue_of q s object) w = refl
behind-ctx_set a (checked_call_of success err) w = ground arith
behind-ctx_set a (tpgetlev_of level) w = ground arith
behind-ctx_set a (tpreturn_of take object) w = ground arith
behind-ctx_set a (tpforward_of take svcname object) w = ground arith
behind-ctx_set a tpterm_of w = ground arith
behind-ctx_set a tpcontinue_of w = ground arith
behind-ctx_set a tpsrvfreectxdata_of w = ground arith
behind-ctx_set a (tpsrvsetctxdata_of none) w = ground arith
behind-ctx_set a (tpsrvsetctxdata_of (some err)) w = ground arith
behind-ctx_set a (tpsrvgetctxdata_of address err) w = ground arith
behind-ctx_set a (tptoutget_of tout) w = refl
behind-ctx_set a (tptoutset_of none) w = refl
behind-ctx_set a (tptoutset_of (some err)) w = refl
behind-ctx_set a (tpurcode_of code) w = refl
behind-ctx_set a tpcancel_of w = refl
behind-ctx_set a (get_buffers_of l system) w = ground arith
behind-ctx_set a (tpalloc_of alloc none size) w = refl
behind-ctx_set a (tpalloc_of alloc (some btype) size) w = ground arith
