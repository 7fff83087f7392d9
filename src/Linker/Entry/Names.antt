-- ===== src/Linker/Entry/Names.antt =====
-- Which name a file of the work directory gets, and the numbers of the generated files.
use mathlib.Core.List.{map-append, append-nil, append_assoc}
use native.Mathlib.Numerals.{add-one}
use endurox_java.Base.{
  ℕ, zero, suc, ◌+◌, ◌-◌, ◌<◌, ◌≡◌, ◌≢◌, inl, inr, refl, sym, ◌∙◌, Bool, true, false, List, [], ◌∷◌,
  ◌++◌, map, arith, if◌then◌else◌, length, length-append, take, drop, drop-append, take-append,
  length-map, Bool-cases,
}
use endurox_java.Base.Bytes.{CString, codes}
use endurox_java.Base.Bytes.Order.{str_eq_iff}
use endurox_java.Linker.Entry.{
  Hash, classes, embedded, Job, Walk, class_suffix, is_class_file, skip_dots, dot_of_slash,
  strip_suffix, entry_name, process_entry, Found, walk_start, walk,
}

-- Neither '.' nor '/', so that `skip_dots` stops there.
abbrev pub StartsName : ℕ → Type 0
StartsName c = (c ≢ b'.') × (c ≢ b'/')

drop-append_lem : (n : ℕ) (xs ys : CString) → n ≡ length xs → drop n (xs ++ ys) ≡ ys
drop-append_lem n xs ys e = rw e (drop-append xs ys)

take-append_lem : (n : ℕ) (xs ys : CString) → n ≡ length xs → take n (xs ++ ys) ≡ xs
take-append_lem n xs ys e = rw e (take-append xs ys)

is_class_file-suffix : (pre : CString) → 0 < length pre → is_class_file (pre ++ class_suffix) ≡ true
unfolding is_class_file
is_class_file-suffix pre h =
    let l : length (pre ++ class_suffix) ≡ length pre + 6 = length-append pre class_suffix in
    let d =
      drop-append_lem (length (pre ++ class_suffix) - 6) pre class_suffix (omega (arith, l)) in
    let same =
      (str_eq_iff (drop (length (pre ++ class_suffix) - 6) (pre ++ class_suffix)) class_suffix).1
        d in
    ground arith

strip_suffix-append : (pre suf : CString) → length suf ≡ 6 → strip_suffix (pre ++ suf) ≡ pre
unfolding strip_suffix
strip_suffix-append pre suf h =
    let l = length-append pre suf in
    let t = take-append_lem (length (pre ++ suf) - 6) pre suf (omega (arith, l)) in ground arith

skip_dots_prefix :
    (c : ℕ) (rest : CString) → StartsName c → skip_dots (codes "./" ++ c ∷ rest) ≡ c ∷ rest
unfolding skip_dots
skip_dots_prefix c rest h = ground arith

-- A class file below the work directory is recorded under its path without the suffix, dots for
-- slashes.
pub entry_name-class :
    (c : ℕ) (rest : CString)
    → StartsName c
    → entry_name (codes "./" ++ (c ∷ rest) ++ class_suffix) ≡ map dot_of_slash (c ∷ rest)
unfolding entry_name
entry_name-class c rest h =
    let is = is_class_file-suffix (codes "./" ++ (c ∷ rest)) (omega arith) in
    let skipped = skip_dots_prefix c (rest ++ class_suffix) h in
    rw (is, skipped, map-append dot_of_slash rest class_suffix)
      (strip_suffix-append (map dot_of_slash (c ∷ rest)) (map dot_of_slash class_suffix)
        (length-map dot_of_slash class_suffix))

-- Any other file is recorded under its path.
pub entry_name-resource :
    (c : ℕ) (rest : CString)
    → StartsName c
    → is_class_file (codes "./" ++ c ∷ rest) ≡ false
    → entry_name (codes "./" ++ c ∷ rest) ≡ c ∷ rest
unfolding entry_name
entry_name-resource c rest h other = rw (other, skip_dots_prefix c rest h)

-- The numbers of the jobs for one hash, in order.
abbrev pub ids_of : Hash → List Job → List ℕ
ids_of h [] = []
ids_of classes (j ∷ js) = elim j.head [
  | classes ↦ j.id ∷ ids_of classes js
  | embedded ↦ ids_of classes js
]
ids_of embedded (j ∷ js) = elim j.head [
  | embedded ↦ j.id ∷ ids_of embedded js
  | classes ↦ ids_of embedded js
]

-- 1, 2, …, n
abbrev pub up_to : ℕ → List ℕ
up_to zero = []
up_to (suc n) = up_to n ++ suc n ∷ []

ids_of-append : (h : Hash) (xs ys : List Job) → ids_of h (xs ++ ys) ≡ ids_of h xs ++ ids_of h ys
ids_of-append classes [] ys = refl
ids_of-append embedded [] ys = refl
ids_of-append classes (j ∷ xs) ys = ground (arith, ids_of-append classes xs ys)
ids_of-append embedded (j ∷ xs) ys = ground (arith, ids_of-append embedded xs ys)

-- The jobs of each hash are numbered from 1 without a gap.
abbrev pub IsNumbered : Walk → Type 0
IsNumbered w =
    (ids_of classes w.jobs ≡ up_to w.id_class) × (ids_of embedded w.jobs ≡ up_to w.id_res)

-- The names that the plain files among the entries get, in order.
abbrev pub file_names : List Found → List CString
file_names [] = []
file_names (f ∷ fs) = if f.is_file then entry_name f.path ∷ file_names fs else file_names fs

abbrev names : List Job → List CString
names js = map (λ (j : Job). j.resname) js

names-append : (xs ys : List Job) → names (xs ++ ys) ≡ names xs ++ names ys
names-append xs ys = map-append (λ (j : Job). j.resname) xs ys

process_entry-IsNumbered :
    (path : CString) (w : Walk) → IsNumbered w → IsNumbered (process_entry true true path w).1
unfolding process_entry
process_entry-IsNumbered path w h = elim (Bool-cases (is_class_file path)) [
  | inl class ↦ rw (class, ids_of-append, ids_of-append, h.0, h.1, add-one) (refl, append-nil _)
  | inr other ↦ rw (other, ids_of-append, ids_of-append, h.0, h.1, add-one) (append-nil _, refl)
]

process_entry-names :
    (path : CString) (w : Walk)
    → names (process_entry true true path w).1.jobs ≡ names w.jobs ++ entry_name path ∷ []
unfolding process_entry
process_entry-names path w = elim (Bool-cases (is_class_file path)) [
  | inl class ↦ rw (class, names-append)
  | inr other ↦ rw (other, names-append)
]

process_entry_other :
    (memory : Bool) (path : CString) (w : Walk) → process_entry false memory path w ≡ (true, w)
unfolding process_entry
process_entry_other memory path w = refl

process_entry_memory :
    (memory : Bool) (path : CString) (w : Walk) → (process_entry true memory path w).0 ≡ memory
unfolding process_entry
process_entry_memory true path w = refl
process_entry_memory false path w = refl

walk-jobs_from :
    (fs : List Found) (w : Walk)
    → IsNumbered w
    → (walk fs w).0 ≡ true
    → IsNumbered (walk fs w).1 × (names (walk fs w).1.jobs ≡ names w.jobs ++ file_names fs)
unfolding walk
walk-jobs_from [] w h ok = (h, sym (append-nil _))
walk-jobs_from (f ∷ fs) w h ok = elim (Bool-cases f.is_file) [
  | inr other ↦
      rw (other, process_entry_other f.memory f.path w)
        (walk-jobs_from fs w h (rw (other, process_entry_other f.memory f.path w) at ok))
  | inl file ↦ elim (Bool-cases f.memory) [
    | inr short ↦ cc (rw (file, short, process_entry_memory false f.path w) at ok)
    | inl enough ↦
        let ih =
          walk-jobs_from fs (process_entry true true f.path w).1
            (process_entry-IsNumbered f.path w h)
            (rw (file, enough, process_entry_memory true f.path w) at ok) in
        rw (file, enough, process_entry_memory true f.path w)
          (
            ih.0,
            ih.1
                ∙ rw (process_entry-names f.path w)
                    (append_assoc (names w.jobs) (entry_name f.path ∷ []) (file_names fs)),
          )
  ]
]

-- When the walk succeeds, there is one job for each plain file, in order and under its name, and
-- the jobs of each hash are numbered from 1 without a gap.
pub walk-jobs :
    (fs : List Found)
    → (walk fs walk_start).0 ≡ true
    → IsNumbered (walk fs walk_start).1
      × (map (λ (j : Job). j.resname) (walk fs walk_start).1.jobs ≡ file_names fs)
walk-jobs fs ok = walk-jobs_from fs walk_start (refl, refl) ok
