-- ===== src/Linker/Resources/Keys.antt =====
-- Hash tables whose records have different keys.
use mathlib.Core.List.{
  Mem, Nodup, Nodup-nil, Nodup-append, Nodup-cons, map-append, not-mem-nil, mem-cons,
  exists_of_mem-map,
}
use mathlib.Core.Logic.{∥∥₁_elim}
use mathlib.Core.Logic.Or
use endurox_java.Base.{◌≡◌, none, map}
use endurox_java.Base.Bytes.{CString}
use endurox_java.Linker.Resources.{HashLib}

module _ {V : Type 0} {key : V → CString} (H : HashLib V key) where
  open H use {Table, items, add_str, find_str, items-add_str, find_str_none}

  pub find_str_new : (k : CString) (t : Table) → find_str k t ≡ none → ¬ Mem k (map key (items t))
  find_str_new k t e m =
      ∥∥₁_elim (exists_of_mem-map m) (λ x y. absurd x)
        (λ (v, in_t, same). find_str_none k t e v in_t same)

  pub Nodup-add_str :
      (v : V) (t : Table)
      → ¬ Mem (key v) (map key (items t))
      → Nodup (map key (items t))
      → Nodup (map key (items (add_str v t)))
  Nodup-add_str v t new once =
      rw (items-add_str, map-append)
        (Nodup-append.1 (
          once,
          Nodup-cons.1 (not-mem-nil, Nodup-nil),
          λ a old here.
              Or.elim (λ x y. absurd x) (mem-cons.0 here) (λ e. new (rw e at old)) not-mem-nil,
        ))
