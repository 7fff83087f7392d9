-- ===== src/Buffers.antt =====
-- libsrc/c/TypedBuffer.c and libsrc/java/org/endurox/TypedBuffer.java: the objects of Java that hold
-- buffers of C, the exceptions that a native method leaves pending, and the context of the thread.
pub mod Freed
pub mod Owned
pub mod Prepared
use endurox_java.Base.{
  ℕ, ◌+◌, Bool, true, false, not, ◌&&◌, ◌||◌, Option, none, some, ◌==◌, if◌then◌else◌, take, set_at,
}
use endurox_java.Base.Bytes.{CString, codes, str_eq}

-- The classes that TypedBuffer has below it.
pub data BufferClass : Type 0 where
  typed_ubf typed_carray typed_string typed_view typed_json typed_tp_init : BufferClass

-- `doFinalize` says that the object frees its buffer; `cPtr` is an address, 0 is NULL.
pub record TypedBuffer : Type 0 where
  pub clazz : BufferClass
  pub do_finalize : Bool
  pub c_ptr : ℕ
  pub len : ℕ

-- `tperrno`, by the names of the Enduro/X headers that the code tests.
pub data Code : Type 0 where
  tpeinval tpesvcfail tpeevent tpediagnostic : Code
  other_code : ℕ → Code

-- `Berror`, by the names of the Enduro/X headers that the code uses.
pub data UbfCode : Type 0 where
  bminval beinval beunix : UbfCode
  other_berror : ℕ → UbfCode

-- An exception of the standard library has its Nerror. An ATMI exception has its code, the buffer object in its field `data`, and whether `qctl` was set.
pub data Exception : Type 0 where
  ubf_exception : UbfCode → Exception
  nstd_exception : ℕ → Exception
  atmi_exception : Code → Option ℕ → (qctl : Bool) → Exception
  null_pointer out_of_memory : Exception

-- Objects go by numbers, those from `next` on are not made yet. `heap` gives the type name that
-- tptypes finds at an address.
pub record World : Type 0 where
  pub heap : ℕ → Option CString
  pub objects : ℕ → TypedBuffer
  pub next : ℕ
  pub pending : Option Exception
  pub ctx_set : Bool
  pub undefined : Bool

abbrev pub is_diagnostic : Code → Bool
is_diagnostic tpediagnostic = true
is_diagnostic tpeinval = false
is_diagnostic tpesvcfail = false
is_diagnostic tpeevent = false
is_diagnostic (other_code n) = false

-- What `ndrxj_atmi_throw` leaves, when the class of the exception is there.
unfoldable pub atmi_throw : (buffer : Option ℕ) → (addarg1 : Bool) → Code → World → World
atmi_throw buffer addarg1 err w = record w {
  pending = some (atmi_exception err buffer (addarg1 && is_diagnostic err));
}

-- What `ndrxj_ubf_throw` leaves.
unfoldable pub ubf_throw : UbfCode → World → World
ubf_throw err w = record w { pending = some (ubf_exception err) }

-- What `ndrxj_nstd_throw` and `ndrxj_nullptr_throw` leave.
unfoldable pub nstd_throw : ℕ → World → World
nstd_throw err w = record w { pending = some (nstd_exception err) }

unfoldable pub nullptr_throw : World → World
nullptr_throw w = record w { pending = some null_pointer }

-- `ExceptionCheck`
abbrev pub is_pending : World → Bool
is_pending w = elim w.pending as (λ p. Bool) [ none ↦ false | some e ↦ true ]

-- `tpsetctxt(TPNULLCONTEXT, 0L)`
unfoldable pub unset_ctx : World → World
unset_ctx w = record w { ctx_set = false }

-- `ndrxj_get_ctx`; `known` says that the object of the context holds one.
unfoldable pub get_ctx : (known do_set : Bool) → World → Bool × World
unfolding atmi_throw
get_ctx known do_set w =
    if not known
    then (false, atmi_throw none false tpeinval w)
    else (true, record w { ctx_set = do_set || w.ctx_set })

-- `ndrxj_TypedBuffer_get_ctx`; `holder` says that the object has a context object.
unfoldable pub typed_buffer_get_ctx : (holder known do_set : Bool) → World → Bool × World
unfolding get_ctx
typed_buffer_get_ctx holder known do_set w = if holder then get_ctx known do_set w else (false, w)

-- NewObject; `memory` says whether the JVM makes it.
unfoldable pub new_object : (memory : Bool) → TypedBuffer → World → Option ℕ × World
new_object memory b w =
    if memory
    then (some w.next, record w { objects = set_at w.objects w.next b; next = w.next + 1 })
    else (none, record w { pending = some out_of_memory })

-- The object for a type name: NULL, an object of a class, or the exception for the rest.
pub data Choice : Type 0 where
  null_buffer not_supported : Choice
  of_class : BufferClass → Choice

unfoldable pub choose : CString → Choice
choose type =
    if str_eq type (codes "NULL")
    then null_buffer
    else if str_eq (take 3 type) (codes "UBF") || str_eq (take 3 type) (codes "FML")
    then of_class typed_ubf
    else if str_eq type (codes "CARRAY")
    then of_class typed_carray
    else if str_eq type (codes "STRING")
    then of_class typed_string
    else if str_eq type (codes "VIEW")
    then of_class typed_view
    else if str_eq type (codes "JSON")
    then of_class typed_json
    else if str_eq type (codes "TPINIT")
    then of_class typed_tp_init
    else not_supported

-- `ndrxj_atmi_TypedBuffer_translate` once the type is known, up to `out:`.
unfoldable pub translate_type :
    (memory : Bool)
    → (type : CString) → (address len : ℕ) → (finalize : Bool) → World
    → Option ℕ × World
unfolding new_object atmi_throw
translate_type memory type address len finalize w = elim (choose type) as (λ c. Option ℕ × World) [
  | null_buffer ↦ (none, w)
  | not_supported ↦ (none, atmi_throw none false tpeinval w)
  | of_class c ↦
      new_object memory (record { clazz = c; do_finalize = finalize; c_ptr = address; len = len }) w
]

-- `ndrxj_atmi_TypedBuffer_translate`; `failed` is the code of a failing tptypes.
unfoldable pub translate :
    (memory known : Bool)
    → (failed : Code) → (is_ctxset : Bool) → (address len : ℕ) → (type : Option CString)
    → (finalize : Bool) → World
    → Option ℕ × World
unfolding get_ctx unset_ctx translate_type atmi_throw
translate memory known failed is_ctxset address len type finalize w =
    let (got, w1) = if is_ctxset then (true, w) else get_ctx known true w in
    let found = elim type as (λ t. Option CString) [
      | some t ↦ some t
      | none ↦ if address == 0 then some (codes "NULL") else w1.heap address
    ] in
    let (object, w2) = elim found as (λ t. Option ℕ × World) [
      | some t ↦ translate_type memory t address len finalize w1
      | none ↦ (none, atmi_throw none false failed w1)
    ] in
    if not got then (none, w1) else (object, if is_ctxset then w2 else unset_ctx w2)

-- What `ndrxj_atmi_TypedBuffer_get_buffer` gives back: its status, `*buf`, `*len` and `*doFinalize`.
pub record Got : Type 0 where
  pub ok : Bool
  pub buf : ℕ
  pub len : ℕ
  pub do_finalize : Bool

-- A missing object is the buffer NULL, and leaves `*len` and `*doFinalize`.
unfoldable pub get_buffer :
    (object : Option ℕ)
    → (len : ℕ) → (do_finalize : Bool) → (unset_do_finalize unset_ptr : Bool) → World
    → Got × World
get_buffer none len do_finalize unset_do_finalize unset_ptr w =
    (record { ok = true; buf = 0; len = len; do_finalize = do_finalize }, w)
get_buffer (some i) len do_finalize unset_do_finalize unset_ptr w =
    let b = w.objects i in
    let ok = elim w.pending as (λ p. Bool) [ none ↦ true | some e ↦ false ] in
    (
      record { ok = ok; buf = b.c_ptr; len = b.len; do_finalize = b.do_finalize },
      record w {
        objects = set_at w.objects i (record b {
          c_ptr = if unset_ptr then 0 else b.c_ptr;
          do_finalize = not unset_do_finalize && b.do_finalize;
        });
      },
    )

-- `ndrxj_atmi_TypedBuffer_set_buffer`
unfoldable pub set_buffer : ℕ → (buf len : ℕ) → World → World
set_buffer i buf len w = record w {
  objects = set_at w.objects i (record (w.objects i) { c_ptr = buf; len = len });
}

-- `ndrxj_TypedBuffer_finalize_transfer`
unfoldable pub finalize_transfer : (to from : ℕ) → (from_invalidate : Bool) → World → World
finalize_transfer to from from_invalidate w =
    let flag = (w.objects from).do_finalize in
    let given = set_at w.objects to (record (w.objects to) { do_finalize = flag }) in
    record w {
      objects = set_at given from (record (given from) {
        do_finalize = false;
        c_ptr = if from_invalidate then 0 else (given from).c_ptr;
      });
    }

-- `ndrxj_Java_org_endurox_TypedBuffer_tpfree`, in a context of its own. Freeing what is not allocated
-- is left open by C.
unfoldable pub tpfree : ℕ → World → World
tpfree p w = elim (w.heap p) as (λ t. World) [
  | none ↦ record w { undefined = true; ctx_set = false }
  | some t ↦ record w { heap = set_at w.heap p none; ctx_set = false }
]

-- `cleanup` of the Java object, which its finalizer calls.
unfoldable pub cleanup : ℕ → World → World
unfolding tpfree
cleanup i w =
    let b = w.objects i in
    let freed = tpfree b.c_ptr w in
    if b.do_finalize && not (b.c_ptr == 0)
    then record freed { objects = set_at freed.objects i (record b { c_ptr = 0 }) }
    else w

-- The branch of `ndrxj_atmi_TypedBuffer_result_prep` for equal types.
unfoldable pub keep_object :
    (object : Option ℕ) → (idata ilen odata olen : ℕ) → World → Option ℕ × World
keep_object none idata ilen odata olen w =
    (none, if ilen == olen then w else record w { undefined = true })
keep_object (some i) idata ilen odata olen w =
    let b = w.objects i in
    (
      some i,
      record w {
        objects = set_at w.objects i (record b {
          len = if ilen == olen then b.len else olen;
          c_ptr = if idata == odata then b.c_ptr else odata;
        });
      },
    )

-- The branch of `ndrxj_atmi_TypedBuffer_result_prep` for different types: the object gives up its
-- buffer and keeps its pointer.
unfoldable pub replace_object :
    (memory : Bool)
    → (object : Option ℕ) → (odata olen : ℕ) → (otype : CString) → World
    → Option ℕ × World
unfolding translate_type
replace_object memory none odata olen otype w =
    if odata == 0 then (none, w) else translate_type memory otype odata olen true w
replace_object memory (some i) odata olen otype w =
    let b = w.objects i in
    let w' = record w { objects = set_at w.objects i (record b { do_finalize = false }) } in
    if odata == 0 then (none, w') else translate_type memory otype odata olen b.do_finalize w'

-- `ndrxj_atmi_TypedBuffer_result_prep`; `failed` is the code of a failing tptypes.
unfoldable pub result_prep :
    (memory : Bool)
    → (failed : Code) → (object : Option ℕ) → (idata ilen odata olen : ℕ) → (itype : CString)
    → World
    → Option ℕ × World
unfolding keep_object replace_object atmi_throw
result_prep memory failed object idata ilen odata olen itype w =
    let found = if odata == 0 then some (codes "NULL") else w.heap odata in
    elim found as (λ t. Option ℕ × World) [
      | none ↦ (none, atmi_throw none false failed w)
      | some otype ↦
          if str_eq otype itype
          then keep_object object idata ilen odata olen w
          else replace_object memory object odata olen otype w
    ]
