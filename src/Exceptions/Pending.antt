-- ===== src/Exceptions/Pending.antt =====
-- What a throw leaves pending, against the account of it that the native methods are modelled with.
use mathlib.Core.Option
use endurox_java.Base.{
  ℕ, ◌≡◌, refl, Bool, true, ◌&&◌, inl, inr, Option, none, some, false, Option-cases,
}
use endurox_java.Base.Bytes.{CString, codes, fit}
use endurox_java.Buffers
use endurox_java.Buffers.{
  null_pointer, nstd_exception, nstd_exception, Code, UbfCode, Exception, atmi_exception,
  ubf_exception, out_of_memory, World, is_diagnostic,
}
use endurox_java.Linker.Resources.{HashLib}
use endurox_java.Exceptions.{
  Cached, class_name_of, Thrown, thrown, jvm_error, Answers, Env, class_of, caches_get, caches_add,
  throw_object, atmi_class, atmi_throw, caches_single, plain_throw,
}
use endurox_java.Exceptions.Names.{class_of_fits}

-- The exception as the JVM has it.
abbrev pub as_thrown : (Code → CString) → (UbfCode → CString) → (ℕ → CString) → Exception → Thrown
as_thrown text ubf_text nstd_text (atmi_exception err buffer qctl) =
    thrown (class_of (codes "Atmi") (text err)) buffer qctl
as_thrown text ubf_text nstd_text (ubf_exception err) =
    thrown (class_of (codes "Ubf") (ubf_text err)) none false
as_thrown text ubf_text nstd_text (nstd_exception err) =
    thrown (class_of (codes "Nstd") (nstd_text err)) none false
as_thrown text ubf_text nstd_text null_pointer = jvm_error
as_thrown text ubf_text nstd_text out_of_memory = jvm_error

-- The JVM and malloc give all that they are asked for.
pub record Gives (a : Answers) : Type 0 where
  pub class_found : a.class_found ≡ true
  pub mid_found : a.mid_found ≡ true
  pub qctl_found : a.qctl_found ≡ true
  pub data_found : a.data_found ≡ true
  pub malloc_ok : a.malloc_ok ≡ true
  pub weak_made : a.weak_made ≡ true
  pub object_made : a.object_made ≡ true

module _ (H : HashLib Cached class_name_of) (text : Code → CString) (ubf_text : UbfCode → CString)
    (nstd_text : ℕ → CString) (a : Answers) (g : Gives a) where
  open H use {find_str, find_str_some}

  throw_object_pending :
      (c : Cached) (buffer : Option ℕ) (addarg1 : Bool) (err : Code) (e : Env H)
      → (throw_object H a c buffer addarg1 err e).pending
        ≡ some (thrown c.class_name buffer (addarg1 && is_diagnostic err))
  unfolding throw_object
  throw_object_pending c buffer addarg1 err e = rw (g.object_made) refl

  atmi_class_made :
      (cls : CString) (err : Code) (e : Env H)
      → fit 256 cls ≡ cls
      → (c : Cached) × ((atmi_class H a cls err e).0 ≡ some c) × (c.class_name ≡ cls)
  unfolding atmi_class caches_add
  atmi_class_made cls err e fits =
      rw (g.class_found, g.mid_found, g.data_found, g.malloc_ok, g.weak_made) (_, refl, fits)

  -- If the JVM and malloc give all that they are asked for, an ATMI throw leaves the exception pending
  -- that the native methods are modelled with, whether its class was cached or not.
  pub atmi_throw_pending :
      (buffer : Option ℕ) (addarg1 : Bool) (err : Code) (e : Env H) (w : World)
      → (atmi_throw H text a buffer addarg1 err e).pending
        ≡ Option.map
            (as_thrown text ubf_text nstd_text)
            (Buffers.atmi_throw buffer addarg1 err w).pending
  unfolding atmi_throw caches_get Buffers.atmi_throw
  atmi_throw_pending buffer addarg1 err e w =
      let cls = class_of (codes "Atmi") (text err) in
      elim (Option-cases (find_str cls e.cache)) [
        | inr (c, there) ↦
            let (name, among) = find_str_some cls e.cache c there in
            rw (atmi_throw, there, throw_object_pending, name) refl
        | inl new ↦
            let (c, made, name) =
              atmi_class_made cls err e (class_of_fits (codes "Atmi") (text err)) in
            rw (atmi_throw, new, made, throw_object_pending, name) refl
      ]

  single_made :
      (cls : CString) (e : Env H)
      → fit 256 cls ≡ cls
      → (c : Cached) × ((caches_single H a cls e).0 ≡ some c) × (c.class_name ≡ cls)
  unfolding caches_single caches_get caches_add
  single_made cls e fits = elim (Option-cases (find_str cls e.cache)) [
    | inr (c, there) ↦ (c, rw (caches_single, there) refl, (find_str_some cls e.cache c there).0)
    | inl new ↦ (
      record { class_name = fit 256 cls; mid1 = false; fid1 = false; fid2 = false },
      rw (caches_single, new, g.class_found, g.malloc_ok, g.weak_made) refl,
      fits,
    )
  ]

  -- If the JVM and malloc give all that they are asked for, a throw of the UBF library leaves the
  -- exception pending that the methods of TypedUbf are modelled with, whether its class was cached or not.
  pub ubf_throw_pending :
      (err : UbfCode) (e : Env H) (w : World)
      → (plain_throw H a (codes "Ubf") (ubf_text err) e).pending
        ≡ Option.map (as_thrown text ubf_text nstd_text) (Buffers.ubf_throw err w).pending
  unfolding plain_throw Buffers.ubf_throw
  ubf_throw_pending err e w =
      let (c, made, name) =
        single_made (class_of (codes "Ubf") (ubf_text err)) e
          (class_of_fits (codes "Ubf") (ubf_text err)) in
      rw (plain_throw, made, g.object_made, name) refl

  pub nstd_throw_pending :
      (err : ℕ) (e : Env H) (w : World)
      → (plain_throw H a (codes "Nstd") (nstd_text err) e).pending
        ≡ Option.map (as_thrown text ubf_text nstd_text) (Buffers.nstd_throw err w).pending
  unfolding plain_throw Buffers.nstd_throw
  nstd_throw_pending err e w =
      let (c, made, name) =
        single_made (class_of (codes "Nstd") (nstd_text err)) e
          (class_of_fits (codes "Nstd") (nstd_text err)) in
      rw (plain_throw, made, g.object_made, name) refl
