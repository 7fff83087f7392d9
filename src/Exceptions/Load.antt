-- ===== src/Exceptions/Load.antt =====
-- libsrc/c/MetaCache.c, `ndrxj_caches_load` and `ndrxj_caches_unload`.
use endurox_java.Base.{◌+◌, ◌-◌, Bool, true, false, not, ◌&&◌, List, [], ◌∷◌, if◌then◌else◌}
use endurox_java.Base.Bytes.{CString, codes}
use endurox_java.Linker.Resources.{HashLib}
use endurox_java.Exceptions.{Cached, class_name_of, Env}

pub record ClassEntry : Type 0 where
  pub class_str : CString
  pub global : Bool

-- The classes of `M_classes`.
abbrev pub m_classes : List ClassEntry
m_classes =
    record { class_str = codes "org/endurox/AtmiCtx"; global = false }
    ∷ record { class_str = codes "org/endurox/Server"; global = false }
    ∷ record { class_str = codes "org/endurox/TpSvcInfo"; global = true }
    ∷ record { class_str = codes "org/endurox/TypedBuffer"; global = true }
    ∷ record { class_str = codes "org/endurox/TypedUbf"; global = true }
    ∷ record { class_str = codes "org/endurox/TypedCarray"; global = true }
    ∷ record { class_str = codes "org/endurox/TypedString"; global = true }
    ∷ record { class_str = codes "org/endurox/TypedView"; global = true }
    ∷ record { class_str = codes "org/endurox/TypedJson"; global = true }
    ∷ record { class_str = codes "org/endurox/TypedTpInit"; global = true }
    ∷ record { class_str = codes "org/endurox/ClientId"; global = true }
    ∷ record { class_str = codes "org/endurox/ErrorTuple"; global = true }
    ∷ record { class_str = codes "org/endurox/TPTRANID"; global = true }
    ∷ record { class_str = codes "org/endurox/TPQCTL"; global = true }
    ∷ record { class_str = codes "org/endurox/XidList"; global = false }
    ∷ record { class_str = codes "javax/transaction/xa/Xid"; global = false }
    ∷ record { class_str = codes "java/lang/String"; global = true }
    ∷ record { class_str = codes "org/endurox/ExXid"; global = true }
    ∷ record { class_str = codes "java/io/OutputStream"; global = false }
    ∷ record { class_str = codes "org/endurox/BExprTree"; global = true }
    ∷ record { class_str = codes "org/endurox/BNextResult"; global = true }
    ∷ record { class_str = codes "java/lang/Runnable"; global = false }
    ∷ record { class_str = codes "org/endurox/TpgetrplyResult"; global = true }
    ∷ record { class_str = codes "org/endurox/TprecvResult"; global = true }
    ∷ record { class_str = codes "org/endurox/TpTypesResult"; global = true }
    ∷ record { class_str = codes "java/io/BufferedReader"; global = false }
    ∷ record { class_str = codes "java/lang/Throwable"; global = false }
    ∷ record { class_str = codes "java/lang/StackTraceElement"; global = false }
    ∷ record { class_str = codes "java/lang/NullPointerException"; global = true }
    ∷ []

-- The answers of the JVM: which classes it finds, for which it makes a weak reference, and which of
-- the methods and fields it finds, in their order.
pub record Loading : Type 0 where
  pub found : CString → Bool
  pub weak_made : CString → Bool
  pub methods : List Bool
  pub fields : List Bool

-- The loops over `M_methods` and `M_fields`, which stop at the first that is not found.
unfoldable pub find_ids : List Bool → Bool
find_ids [] = true
find_ids (found ∷ fs) = let rest = find_ids fs in if not found then false else rest

module _ (H : HashLib Cached class_name_of) where
  open H use {items, empty}

  -- The first loop over `M_classes`.
  unfoldable pub load_classes : Loading → List ClassEntry → Env H → Bool × Env H
  load_classes l [] e = (true, e)
  load_classes l (c ∷ cs) e =
      let local = record e { class_refs = e.class_refs + 1 } in
      let weak = record e { class_refs = (e.class_refs + 1) - 1; weak_refs = e.weak_refs + 1 } in
      let rest = load_classes l cs (if c.global then weak else local) in
      if not (l.found c.class_str)
      then (false, e)
      else if c.global && not (l.weak_made c.class_str)
      then (false, record e { class_refs = (e.class_refs + 1) - 1 })
      else rest

  -- The last loop over `M_classes`.
  unfoldable pub drop_local : List ClassEntry → Env H → Env H
  drop_local [] e = e
  drop_local (c ∷ cs) e =
      drop_local cs (if not c.global then record e { class_refs = e.class_refs - 1 } else e)

  -- `ndrxj_caches_load`
  unfoldable pub caches_load : Loading → List ClassEntry → Env H → Bool × Env H
  unfolding load_classes find_ids drop_local
  caches_load l cs e =
      let (ok, e1) = load_classes l cs e in
      if not (ok && find_ids l.methods && find_ids l.fields)
      then (false, e1)
      else (true, drop_local cs e1)

  -- DeleteGlobalRef of a weak global reference, for which JNI has DeleteWeakGlobalRef: the call is counted,
  -- and the reference is not taken as given back.
  abbrev pub release : Env H → Env H
  release e = record e { released = e.released + 1 }

  unfoldable pub unload_classes : List ClassEntry → Env H → Env H
  unload_classes [] e = e
  unload_classes (c ∷ cs) e = unload_classes cs (if c.global then release e else e)

  unfoldable pub unload_cache : List Cached → Env H → Env H
  unload_cache [] e = record e { cache = empty }
  unload_cache (el ∷ els) e = unload_cache els (release e)

  -- `ndrxj_caches_unload`
  unfoldable pub caches_unload : List ClassEntry → Env H → Env H
  unfolding unload_classes unload_cache
  caches_unload cs e = let e1 = unload_classes cs e in unload_cache (items e1.cache) e1
