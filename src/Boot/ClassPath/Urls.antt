-- ===== src/Boot/ClassPath/Urls.antt =====
-- libexjlds/cp.c, `ndrxj_build_classpath_urls`: the Java array of the URLs of the class path.
use endurox_java.Base.{
  ℕ, ◌+◌, ◌-◌, ◌≡◌, ◌⊎◌, inl, inr, refl, Bool, Bool-cases, true, false, not, ◌&&◌, Option, none,
  some, List, [], ◌∷◌, ◌++◌, map, take, if◌then◌else◌,
}
use endurox_java.Base.Bytes.{CString, codes}
use endurox_java.Linker.Settings.{path_max}
use endurox_java.Boot.Jni.{
  url_class, url_string, url_object, cp_urls, url_init, Jni, Jvm, label, remove, acquire, release,
  release_if,
}

-- snprintf into `resource`.
unfoldable pub url_of : CString → CString
url_of qname = take (path_max - 1) (codes "file://" ++ qname)

-- Behind `out:`, but for the array.
unfoldable pub urls_out : (class_given str_given : Bool) → Jvm → Jvm
urls_out class_given str_given j =
    release_if str_given (url_string 0) (release_if class_given url_class j)

module _ (jni : Jni) where
  open jni use {gives, has}

  -- The loop over the elements from the `i`-th on: whether it reached the end, the elements that it
  -- stored, and whether `jstr` still holds a string.
  unfoldable pub urls_loop : (i : ℕ) → List CString → Jvm → Bool × List CString × Bool × Jvm
  urls_loop i [] j = (true, [], false, j)
  urls_loop i (qname ∷ list) j =
      let j1 = acquire (url_string i) j in
      let j2 = release (url_object i) (release (url_string i) (acquire (url_object i) j1)) in
      let (ok, urls, str_given, j3) = urls_loop (i + 1) list j2 in
      if not (gives (url_string i))
      then (false, [], false, j)
      else if not (gives (url_object i))
      then (false, [], true, j1)
      else (ok, url_of qname ∷ urls, str_given, j3)

  -- The elements of the array, or none for NULL.
  unfoldable pub build_classpath_urls : List CString → Jvm → Option (List CString) × Jvm
  build_classpath_urls list j =
      let j1 = acquire url_class j in
      let (ok, urls, str_given, j3) = urls_loop 0 list (acquire cp_urls j1) in
      if not (gives url_class)
      then (none, urls_out false false j)
      else if not (has url_init && gives cp_urls)
      then (none, urls_out true false j1)
      else if not ok
      then (none, release cp_urls (urls_out true str_given j3))
      else (some urls, urls_out true str_given j3)

  -- Whether the JVM gives the string and the object of each element from the `i`-th on.
  unfoldable pub all_given : (i : ℕ) → List CString → Bool
  all_given i [] = true
  all_given i (qname ∷ list) =
      gives (url_string i) && gives (url_object i) && all_given (i + 1) list

  urls_loop-given :
      (i : ℕ) (list : List CString) (j : Jvm)
      → all_given i list ≡ true
      → urls_loop i list j ≡ (true, map url_of list, false, j)
  unfolding urls_loop all_given acquire release remove label
  urls_loop-given i [] j h = refl
  urls_loop-given i (qname ∷ list) j h = elim (Bool-cases (gives (url_string i))) [
    | inr none_given ↦ cc (rw none_given at h)
    | inl string ↦ elim (Bool-cases (gives (url_object i))) [
      | inr none_given ↦ cc (rw (string, none_given) at h)
      | inl object ↦
          rw (string, object, urls_loop-given (i + 1) list j (rw (string, object) at h)) refl
    ]
  ]

  -- Where the loop stops, the string is held when it was the object that was not given.
  abbrev Stopped : Bool × List CString × Bool × Jvm → Jvm → Type 0
  Stopped r j =
      (r.0 ≡ false)
      × (((r.2 ≡ false) × (r.3 ≡ j)) ⊎ ((k : ℕ) × (r.2 ≡ true) × (r.3 ≡ acquire (url_string k) j)))

  urls_loop-Stopped :
      (i : ℕ) (list : List CString) (j : Jvm)
      → all_given i list ≡ false
      → Stopped (urls_loop i list j) j
  unfolding urls_loop all_given acquire release remove label
  urls_loop-Stopped i [] j h = cc
  urls_loop-Stopped i (qname ∷ list) j h = elim (Bool-cases (gives (url_string i))) [
    | inr none_given ↦ rw none_given (refl, inl (refl, refl))
    | inl string ↦ elim (Bool-cases (gives (url_object i))) [
      | inr none_given ↦ rw (string, none_given) (refl, inr (i, refl, refl))
      | inl object ↦
          rw (string, object) (urls_loop-Stopped (i + 1) list j (rw (string, object) at h))
    ]
  ]

  -- The array holds a URL for each element of the class path, cut at PATH_MAX, and one reference to
  -- it is left, when the JVM gives all that it is asked for; else the result is NULL and no
  -- reference is left.
  pub build_classpath_urls_lem :
      (list : List CString) (j : Jvm)
      → build_classpath_urls list j ≡ (
          if gives url_class && has url_init && gives cp_urls && all_given 0 list
          then (some (map url_of list), acquire cp_urls j)
          else (none, j))
  unfolding build_classpath_urls urls_out release_if acquire release remove label
  build_classpath_urls_lem list j =
      let held = acquire cp_urls (acquire url_class j) in
      elim (Bool-cases (gives url_class)) [
        | inr no_class ↦ rw no_class refl
        | inl class ↦ elim (Bool-cases (has url_init)) [
          | inr no_init ↦ rw (class, no_init) refl
          | inl init ↦ elim (Bool-cases (gives cp_urls)) [
            | inr no_array ↦ rw (class, init, no_array) refl
            | inl array ↦ elim (Bool-cases (all_given 0 list)) [
              | inl all ↦ rw (class, init, array, all, urls_loop-given 0 list held all) refl
              | inr failed ↦
                  let (stop, left) = urls_loop-Stopped 0 list held failed in
                  elim left [
                    | inl (no_str, e) ↦ rw (class, init, array, failed, stop, no_str, e) refl
                    | inr (k, str, e) ↦ rw (class, init, array, failed, stop, str, e) refl
                  ]
            ]
          ]
        ]
      ]
