-- ===== src/Exceptions.antt =====
-- libsrc/c/exceptions.c, the throwing of Java exceptions, and libsrc/c/MetaCache.c, the cache of the
-- classes that it needs. The hash table of Enduro/X (exhash.h) enters as `HashLib`.
pub mod Backtrace
pub mod Lifecycle
pub mod Load
pub mod Names
pub mod Pending
pub mod Sound
pub mod Throws
use endurox_java.Base.{
  ℕ, ◌+◌, ◌-◌, Bool, true, false, not, ◌&&◌, ◌||◌, Option, none, some, List, [], ◌∷◌, ◌++◌,
  if◌then◌else◌,
}
use endurox_java.Base.Bytes.{CString, codes, fit}
use endurox_java.Buffers.{Code, is_diagnostic}
use endurox_java.Linker.Resources.{HashLib}

-- A class of the dynamic cache, and which of its ids are not NULL.
pub record Cached : Type 0 where
  pub class_name : CString
  pub mid1 : Bool
  pub fid1 : Bool
  pub fid2 : Bool

abbrev pub class_name_of : Cached → CString
class_name_of c = c.class_name

-- What is pending: an exception of the library with its fields `data` and `qctl`, or one of the JVM.
pub data Thrown : Type 0 where
  thrown : CString → (data_field : Option ℕ) → (qctl : Bool) → Thrown
  jvm_error : Thrown

-- The answers of the JVM and of malloc to one throw.
pub record Answers : Type 0 where
  pub class_found : Bool
  pub mid_found : Bool
  pub qctl_found : Bool
  pub data_found : Bool
  pub malloc_ok : Bool
  pub weak_made : Bool
  pub object_made : Bool

-- `snprintf` of the name of a class.
unfoldable pub class_of : (kind text : CString) → CString
unfolding fit
class_of kind text = fit 256 (codes "org/endurox/exceptions/" ++ kind ++ text ++ codes "Exception")

abbrev has : Option ℕ → Bool
has none = false
has (some i) = true

module _ (H : HashLib Cached class_name_of) where
  open H use {Table, find_str, add_str, empty}

  -- References to classes: local ones, weak global ones, and how many calls of DeleteGlobalRef there were.
  -- An id that is NULL and used is noted in `null_used`.
  pub record Env : Type 0 where
    pub cache : Table
    pub class_refs : ℕ
    pub weak_refs : ℕ
    pub released : ℕ
    pub pending : Option Thrown
    pub aborted : Bool
    pub null_used : Bool

  -- `ndrxj_caches_get`
  unfoldable pub caches_get : CString → Env → Option Cached
  caches_get class_name e = find_str class_name e.cache

  -- `ndrxj_caches_add`
  unfoldable pub caches_add : Answers → CString → Cached → Env → Option Cached × Env
  unfolding fit
  caches_add a class_name d e =
      let add = record d { class_name = fit 256 class_name } in
      if not a.malloc_ok
      then (none, e)
      else if not a.weak_made
      then (none, record e { class_refs = e.class_refs - 1 })
      else (
        some add,
        record e {
          class_refs = e.class_refs - 1;
          weak_refs = e.weak_refs + 1;
          cache = add_str add e.cache;
        },
      )

  -- `ndrxj_caches_single`, whose entries have no ids.
  unfoldable pub caches_single : Answers → CString → Env → Option Cached × Env
  unfolding caches_get caches_add
  caches_single a class_name e = elim (caches_get class_name e) as (λ c. Option Cached × Env) [
    | some c ↦ (some c, e)
    | none ↦
        if not a.class_found
        then (none, record e { pending = some jvm_error })
        else caches_add a class_name
            (record { class_name = []; mid1 = false; fid1 = false; fid2 = false })
            (record e { class_refs = e.class_refs + 1 })
  ]

  -- `ndrxj_nstd_throw` and `ndrxj_ubf_throw`, by the kind in the name of the class.
  unfoldable pub plain_throw : Answers → (kind text : CString) → Env → Env
  unfolding class_of
  plain_throw a kind text e =
      let (cached, e1) = caches_single a (class_of kind text) e in
      elim cached as (λ c. Env) [
        | none ↦ record e1 { aborted = true }
        | some c ↦ record e1 {
          pending = some (if a.object_made then thrown c.class_name none false else jvm_error);
        }
      ]

  -- The part of `ndrxj_atmi_throw` behind the look-up of the class.
  unfoldable pub throw_object :
      Answers → Cached → (buffer : Option ℕ) → (addarg1 : Bool) → Code → Env → Env
  throw_object a c buffer addarg1 err e =
      let with_qctl = addarg1 && is_diagnostic err in
      if not a.object_made
      then record e { pending = some jvm_error; null_used = e.null_used || not c.mid1 }
      else record e {
        pending = some (thrown c.class_name buffer with_qctl);
        null_used =
            e.null_used || not c.mid1 || (has buffer && not c.fid2) || (with_qctl && not c.fid1);
      }

  -- The class of an ATMI exception with its ids, put into the cache.
  unfoldable pub atmi_class : Answers → CString → Code → Env → Option Cached × Env
  unfolding caches_add
  atmi_class a cls err e =
      let lost = is_diagnostic err && not a.qctl_found in
      let e1 = record e {
        class_refs = e.class_refs + 1;
        pending = if lost then some jvm_error else e.pending;
      } in
      let (cached, e2) =
        caches_add a cls
          (record {
            class_name = [];
            mid1 = true;
            fid1 = is_diagnostic err && a.qctl_found;
            fid2 = true;
          })
          e1 in
      if not a.class_found
      then (none, record e { aborted = true })
      else if not (a.mid_found && a.data_found)
      then (none, record e1 { pending = some jvm_error })
      else (
        cached,
        record e2 { aborted = elim cached as (λ c. Bool) [ none ↦ true | some c ↦ false ] },
      )

  -- `ndrxj_atmi_throw`; `text` is the Enduro/X function tpecodestr.
  unfoldable pub atmi_throw :
      (text : Code → CString) → Answers → (buffer : Option ℕ) → (addarg1 : Bool) → Code → Env → Env
  unfolding caches_get atmi_class throw_object class_of
  atmi_throw text a buffer addarg1 err e =
      let cls = class_of (codes "Atmi") (text err) in
      elim (caches_get cls e) as (λ c. Env) [
        | some c ↦ throw_object a c buffer addarg1 err e
        | none ↦
            let (cached, e1) = atmi_class a cls err e in
            elim cached as (λ c. Env) [
              | none ↦ e1
              | some c ↦ throw_object a c buffer addarg1 err e1
            ]
      ]
