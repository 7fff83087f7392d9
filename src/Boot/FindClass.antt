-- ===== src/Boot/FindClass.antt =====
-- libexjlds/exj.c, `ndrxj_FindClass`: a class is looked up by its name in the form of JNI, with
-- slashes, through the loader that was started, whose classes have dots.
pub mod Dots
use endurox_java.Base.{
  ℕ, Bool, true, false, not, ◌&&◌, Option, none, some, List, map, if◌then◌else◌,
}
use endurox_java.Base.Bytes.{CString}
use endurox_java.Linker.Entry.{dot_of_slash}
use endurox_java.Boot.Jni.{Ref, name_str, found_class, load_class, Jni, Jvm, acquire, release_if}

-- `loader` says whether `M_classLoaderClass` is set, `memory` whether strdup succeeds. The result
-- holds the name under which the class was asked for; it is none when no class is asked for or
-- none is found. `loads` is the class loader.
unfoldable pub find_class :
    (loader memory : Bool)
    → Jni
    → (loads : CString → Bool) → (name : CString) → Jvm
    → Option CString × Jvm
find_class loader memory jni loads name j =
    let name_mod = map dot_of_slash name in
    let j' = acquire name_str j in
    let found = acquire found_class in
    if loader
    then (if not (memory && jni.has load_class)
        then (none, j)
        else if not (jni.gives name_str)
        then (none, j)
        else if loads name_mod
        then (some name_mod, release_if true name_str (found j'))
        else (none, release_if true name_str j'))
    else if loads name
    then (some name, found j)
    else (none, j)
