-- ===== src/Calls/History.antt =====
-- Histories of a thread: the native methods of the typed buffers in any order, with the finalizers of
-- Java and the catching of exceptions between them.
use endurox_java.Base.{ℕ, ◌≡◌, Option, none, some, [], ◌∷◌, List}
use endurox_java.Base.Bytes.{CString}
use endurox_java.Buffers.{World, cleanup}
use endurox_java.Buffers.Owned.{Heap}
use endurox_java.Buffers.Freed.{AllFreed, cleanups, cleanups_lem}
use endurox_java.Buffers.Prepared.{OwnedWorld}
use endurox_java.Calls.{Service, Answers, tpcall, tpgetrply, tprecv}
use endurox_java.Calls.Contract.{IsService, NoEvent, NoSvcfail, NoData, Sole}
use endurox_java.Calls.Kept.{tpcall-Owned, tpgetrply-Owned, tprecv-Owned}
use endurox_java.Calls.Alloc.{Allocation, tpalloc, tprealloc}
use endurox_java.Calls.Alloc.Made.{Allocates, Moves, tpalloc-Owned, tprealloc-Owned}
use endurox_java.Calls.Return.{Taker, Takes, tpreturn, tpforward, tpreturn-Owned, tpforward-Owned}
use endurox_java.Calls.Queue.{QueueCall, tpdequeue}
use endurox_java.Calls.Queue.Dequeued.{tpdequeue-Owned}

-- What a method or a finalizer does. The library keeps its contract, and no other object owns the
-- buffer of the object that is passed.
pub data Action (w : World) : World → Type 0 where
  allocated :
      (a : Answers) (alloc : CString → Heap → Allocation) (btype : Option CString) (size : ℕ)
      → ((t : CString) (h : Heap) → h 0 ≡ none → Allocates t h (alloc t h))
      → Action w (tpalloc a alloc btype size w).1
  reallocated :
      (a : Answers) (s : Service) (i : ℕ) → Moves s → Sole w (some i) → Action w (tprealloc a s i w)
  called :
      (a : Answers) (s : Service) (object : Option ℕ)
      → IsService s
      → NoEvent s
      → Sole w object
      → Action w (tpcall a s object w).1
  replied :
      (a : Answers) (s : Service) (object : Option ℕ)
      → IsService s
      → NoEvent s
      → NoData s
      → Sole w object
      → Action w (tpgetrply a s object w).1
  received :
      (a : Answers) (s : Service) (object : Option ℕ)
      → IsService s
      → NoSvcfail s
      → Sole w object
      → Action w (tprecv a s object w).1
  dequeued :
      (a : Answers) (q : QueueCall) (s : Service) (object : Option ℕ)
      → IsService s
      → NoEvent s
      → NoSvcfail s
      → Sole w object
      → Action w (tpdequeue a q s object w).1
  returned :
      (a : Answers) (take : Taker) (object : Option ℕ)
      → Takes take
      → Sole w object
      → Action w (tpreturn a take object w)
  forwarded :
      (a : Answers) (take : CString → Taker) (svcname : CString) (object : Option ℕ)
      → Takes (take svcname)
      → Sole w object
      → Action w (tpforward a take svcname object w)
  finalized : (i : ℕ) → Action w (cleanup i w)
  caught : Action w (record w { pending = none })
  -- Any other method, which changes no object and allocates and frees nothing. Calls/Sent shows that
  -- tpacall, tpsend, tpenqueue and tpdiscon are such.
  kept : (v : World) → v.heap ≡ w.heap → v.objects ≡ w.objects → Action w v

pub data Run (w : World) : World → Type 0 where
  begin : Run w w
  then_step : (u v : World) → Run w u → Action u v → Run w v

step-Owned : (w v : World) → Action w v → OwnedWorld w → OwnedWorld v
step-Owned w _ (allocated a alloc btype size law) owned =
    tpalloc-Owned a alloc btype size w law owned
step-Owned w _ (reallocated a s i law sole) owned = tprealloc-Owned a s i w law owned sole
step-Owned w _ (called a s object law e sole) owned = tpcall-Owned a s object w law e owned sole
step-Owned w _ (replied a s object law e d sole) owned =
    tpgetrply-Owned a s object w law e d owned sole
step-Owned w _ (received a s object law f sole) owned = tprecv-Owned a s object w law f owned sole
step-Owned w _ (dequeued a q s object law e f sole) owned =
    tpdequeue-Owned a q s object w law e f owned sole
step-Owned w _ (returned a take object law sole) owned =
    (tpreturn-Owned a object w owned sole take law).0
step-Owned w _ (forwarded a take svcname object law sole) owned =
    (tpforward-Owned a object w owned sole take svcname law).0
step-Owned w _ (finalized i) owned = (cleanups_lem (i ∷ []) w owned).0
step-Owned w _ caught owned = owned
step-Owned w v (kept _ heap objects) owned = rw (heap, objects) owned

pub run-Owned : (w v : World) → OwnedWorld w → Run w v → OwnedWorld v
run-Owned w _ owned begin = owned
run-Owned w v owned (then_step u _ run step) = step-Owned u v step (run-Owned w u owned run)

-- After any history in which the library keeps its contract and no other object owns the buffer of an
-- object that is passed, each object that owns a buffer has an allocated one of its class and no two
-- have the same, if it was so at the start; and the finalizers that then run, in any order, free only
-- what is allocated and leave no buffer of their owners.
pub run-cleanups :
    (w v : World) (is : List ℕ)
    → OwnedWorld w
    → Run w v
    → OwnedWorld v
      × ((cleanups is v).undefined ≡ v.undefined)
      × AllFreed v.objects (cleanups is v).heap is
run-cleanups w v is owned run =
    let owned' = run-Owned w v owned run in
    let (_, same, free) = cleanups_lem is v owned' in (owned', same, free)
