-- ===== src/Boot/FindClass/Dots.antt =====
-- The name under which a class is asked for is the one under which the linker packed it.
use endurox_java.Base.{ℕ, ◌≡◌, Bool, true, Option, none, some, List, ◌∷◌, ◌++◌, arith}
use endurox_java.Base.Bytes.{CString, codes}
use endurox_java.Linker.Entry.{class_suffix, entry_name}
use endurox_java.Linker.Entry.Names.{StartsName, entry_name-class}
use endurox_java.Boot.Jni.{Ref, found_class, Jni, Jvm, label, remove, acquire, release, release_if}
use endurox_java.Boot.FindClass.{find_class}

-- The look-up leaves one reference, to the class that it found, and none when it found nothing.
pub find_class-live :
    (loader memory : Bool) (jni : Jni) (loads : CString → Bool) (name : CString) (j : Jvm)
    → let (r, j') = find_class loader memory jni loads name j in
      j'.live ≡ elim r as (λ (o : Option CString). List Ref) [
        | some n ↦ found_class ∷ j.live
        | none ↦ j.live
      ]
unfolding find_class acquire release release_if remove label
find_class-live loader memory jni loads name j = ground arith

-- A class that is found through the loader was asked for under the name that the linker gave to its
-- file.
pub find_class-entry_name :
    (memory : Bool) (jni : Jni) (loads : CString → Bool) (c : ℕ) (rest : CString) (j : Jvm)
    (n : CString)
    → StartsName c
    → (find_class true memory jni loads (c ∷ rest) j).0 ≡ some n
    → (n ≡ entry_name (codes "./" ++ (c ∷ rest) ++ class_suffix)) × (loads n ≡ true)
unfolding find_class
find_class-entry_name memory jni loads c rest j n starts found =
    let e = entry_name-class c rest starts in rw e (ground arith)
