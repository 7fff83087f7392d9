-- ===== src/Server.antt =====
-- libsrc/c/AtmiCtx.c, TpSvcInfo.c and java/org/endurox/AtmiCtx.java: a server in Java, which the
-- library calls with the requests for its services.
pub mod Booted
pub mod Dispatched
pub mod Unsolicited
use endurox_java.Base.{
  ℕ, ◌+◌, Bool, true, false, not, ◌&&◌, ◌||◌, Option, none, some, List, [], ◌∷◌, ◌==◌,
  if◌then◌else◌, ltb, length,
}
use endurox_java.Base.Bytes.{CString, str_eq}
use endurox_java.Buffers.{
  Exception, ubf_exception, nstd_exception, atmi_exception, null_pointer, World, Code, tpeinval,
  out_of_memory, atmi_throw, unset_ctx, translate,
}
use endurox_java.Calls.{Answers}
use endurox_java.Calls.Return.{Taker, tpreturn}

-- A service gets the object with the data of the request.
abbrev pub ServiceCode : Type 0
ServiceCode = Option ℕ → World → World

-- `svcMap` of the Java context.
abbrev pub ServiceMap : Type 0
ServiceMap = CString → Option ServiceCode

-- The request that the library calls with, and whether the JVM makes the object of the client and the
-- one of the call.
pub record Request : Type 0 where
  pub name : CString
  pub buffer : ℕ
  pub len : ℕ
  pub client_made : Bool
  pub info_made : Bool

-- The Throwables of Java that are no Exceptions.
abbrev pub is_error : Exception → Bool
is_error (ubf_exception err) = false
is_error (nstd_exception err) = false
is_error (atmi_exception err buffer qctl) = false
is_error null_pointer = false
is_error out_of_memory = true

module _ (a : Answers) where
  -- `tpadvertise` of Java, with `ndrxj_Java_org_endurox_AtmiCtx_tpadvertiseC`: nothing is put into the
  -- map when the exception of the native method is pending.
  unfoldable pub tpadvertise :
      (advertised : Bool) → Code → CString → ServiceCode → ServiceMap × World → ServiceMap × World
  unfolding atmi_throw unset_ctx
  tpadvertise advertised err svcname svc (m, w) =
      if not a.known
      then (m, unset_ctx (record (atmi_throw none false tpeinval w) { undefined = true }))
      else if not advertised
      then (m, unset_ctx (atmi_throw none false err w))
      else (λ name. if str_eq svcname name then some svc else m name, unset_ctx w)

  module _ (take : Taker) where
    -- `tpCallDispatch` of Java: an Exception of the service, or a service that is not in the map, is caught
    -- and the request answered with its own data; an Error goes through.
    unfoldable pub tp_call_dispatch : Option ServiceCode → Option ℕ → World → World
    unfolding tpreturn
    tp_call_dispatch none jdata w = tpreturn a take jdata w
    tp_call_dispatch (some service) jdata w =
        let w1 = service jdata w in
        elim w1.pending as (λ p. World) [
          | none ↦ w1
          | some e ↦ if is_error e then w1 else tpreturn a take jdata (record w1 { pending = none })
        ]

    -- `dispatch_call` with `ndrxj_atmi_TpSvcInfo_translate`.
    unfoldable pub dispatch_call : ServiceMap → Request → World → World
    unfolding translate tp_call_dispatch unset_ctx
    dispatch_call m r w =
        let (jdata, w1) = translate a.memory a.known a.failed true r.buffer r.len none false w in
        let w2 = tp_call_dispatch (m r.name) jdata (unset_ctx w1) in
        if not (r.client_made && r.info_made)
        then record w1 { pending = some out_of_memory }
        else record w2 { ctx_set = true; pending = none }

-- The answers to `tpRunC`: whether the context is there, the elements of the Java array, which of them
-- strdup copies, and the outcome of the server's main function with the tperrno behind it.
pub record Boot : Type 0 where
  pub known : Bool
  pub nocheck : Bool
  pub jargv : Option (List (Option (CString × Bool)))
  pub calloc_ok : Bool
  pub progname : CString
  pub main_ok : Bool
  pub main_err : Option Code

-- What it has done: the result, the arguments of the server's main function, the code that was thrown,
-- the blocks of memory, and the global references.
pub record Ran : Type 0 where
  pub ok : Bool
  pub argv : Option (List (Option CString))
  pub thrown : Option Code
  pub allocated : ℕ
  pub freed : ℕ
  pub refs_made : ℕ
  pub refs_deleted : ℕ

-- The slots of `argv` that calloc has set to NULL and the loop has not reached.
abbrev pub nulls : List (Option (CString × Bool)) → List (Option CString)
nulls [] = []
nulls (e ∷ es) = none ∷ nulls es

-- The loop over the arguments: the slots of `argv` behind the first, how many strings were copied,
-- whether all were, and the code that is thrown.
unfoldable pub copy_args :
    (system : Code)
    → List (Option (CString × Bool))
    → List (Option CString) × ℕ × Bool × Option Code
copy_args system [] = ([], 0, true, none)
copy_args system (none ∷ es) = (none ∷ nulls es, 0, false, none)
copy_args system (some (s, copied) ∷ es) =
    let (slots, n, ok, thrown) = copy_args system es in
    if not copied
    then (none ∷ nulls es, 0, false, some system)
    else (some s ∷ slots, n + 1, ok, thrown)

-- The loop that frees the slots: how many it frees.
unfoldable pub free_args : List (Option CString) → ℕ
free_args [] = 0
free_args (none ∷ slots) = free_args slots
free_args (some s ∷ slots) = free_args slots + 1

abbrev pub elements : Option (List (Option (CString × Bool))) → List (Option (CString × Bool))
elements none = []
elements (some es) = es

-- An exit in front of the allocation.
abbrev early : Code → ℕ → Ran
early err refs_made = record {
  ok = false;
  argv = none;
  thrown = some err;
  allocated = 0;
  freed = 0;
  refs_made = refs_made;
  refs_deleted = 1;
}

-- `ndrxj_Java_org_endurox_AtmiCtx_tpRunC`; `system` is TPESYSTEM.
unfoldable pub tp_run : (system : Code) → Boot → Ran
unfolding copy_args free_args
tp_run system b =
    let es = elements b.jargv in
    let (slots, n, all, thrown) = copy_args system es in
    let argv = some b.progname ∷ slots in
    let allocated = 1 + (1 + n) in
    let freed = free_args argv + 1 in
    if not b.known
    then early tpeinval 0
    else if not b.nocheck && ltb (length es) 4
    then early tpeinval 1
    else if not b.calloc_ok
    then early system 1
    else if not all
    then record {
      ok = false;
      argv = none;
      thrown = thrown;
      allocated = allocated;
      freed = freed;
      refs_made = 1;
      refs_deleted = 1;
    }
    else record {
      ok = b.main_ok;
      argv = some argv;
      thrown = if b.main_ok then none else b.main_err;
      allocated = allocated;
      freed = freed;
      refs_made = 1;
      refs_deleted = 1;
    }
