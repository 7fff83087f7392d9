-- ===== src/Linker/Resources/Serial.antt =====
-- The jobs done one after another: without an error every job is in its hash, once.
use mathlib.Core.List.{Mem, Nodup, Nodup-nil, append-nil, append_assoc}
use mathlib.Core.Path.{subst}
use endurox_java.Base.{
  ℕ, ◌≡◌, ◌⊎◌, inl, inr, refl, ap, sym, ◌∙◌, Bool, true, false, none, List, [], ◌∷◌, ◌++◌, map,
  arith, if◌then◌else◌,
}
use endurox_java.Base.Bytes.{CString}
use endurox_java.Linker.Resources.Keys
use endurox_java.Linker.Entry.{Hash, classes, embedded, Job}
use endurox_java.Linker.Resources.{
  Resource, resname_of, HashLib, Pool, head_of, with_head, res_find, element, Attempt, res_add_th,
  run_jobs, pool_start,
}

abbrev pub same_hash : Hash → Hash → Bool
same_hash classes classes = true
same_hash embedded embedded = true
same_hash _ _ = false

-- The jobs for one hash, in order.
abbrev pub jobs_of : Hash → List (Job × Attempt) → List Job
jobs_of h [] = []
jobs_of h ((j, a) ∷ js) = if same_hash h j.head then j ∷ jobs_of h js else jobs_of h js

module _ (H : HashLib Resource resname_of) (number : ℕ → CString) where
  open H use {Table, items, add_str, find_str, items-empty, items-add_str, find_str_none}

  -- Once an error is set it stays.
  res_add_th_error :
      (a : Attempt) (j : Job) (p : Pool H)
      → p.thpool_error ≡ true
      → (res_add_th H number a j p).thpool_error ≡ true
  unfolding res_add_th with_head
  res_add_th_error a j p e = ground arith

  run_jobs_error :
      (js : List (Job × Attempt)) (p : Pool H)
      → p.thpool_error ≡ true
      → (run_jobs H number js p).thpool_error ≡ true
  unfolding run_jobs
  run_jobs_error [] p e = e
  run_jobs_error ((j, a) ∷ js) p e =
      run_jobs_error js (res_add_th H number a j p) (res_add_th_error a j p e)

  -- A job sets the error, or adds its record under a name that was not there.
  res_add_th-cases :
      (a : Attempt) (j : Job) (p : Pool H)
      → ((res_add_th H number a j p).thpool_error ≡ true)
        ⊎ ((find_str j.resname (head_of H j.head p) ≡ none)
            × (res_add_th H number a j p
                ≡ with_head H j.head (add_str (element number j) (head_of H j.head p)) p))
  unfolding res_add_th res_find
  res_add_th-cases a j p = ground arith

  -- What the jobs `js` have done to a hash.
  record Added (js : List Job) (t t' : Table) : Type 0 where
    all : items t' ≡ items t ++ map (element number) js
    once : Nodup (map resname_of (items t)) → Nodup (map resname_of (items t'))

  Added-none : (t : Table) → Added [] t t
  Added-none t = record { all = sym (append-nil (items t)); once = λ h. h }

  pub Nodup-add_str :
      (j : Job) (t : Table)
      → ¬ Mem j.resname (map resname_of (items t))
      → Nodup (map resname_of (items t))
      → Nodup (map resname_of (items (add_str (element number j) t)))
  unfolding element
  Nodup-add_str j t new once = Keys.Nodup-add_str H (element number j) t new once

  Added-cons :
      (j : Job) (js : List Job) (t t' : Table)
      → find_str j.resname t ≡ none
      → Added js (add_str (element number j) t) t'
      → Added (j ∷ js) t t'
  Added-cons j js t t' new rest = record {
    all =
        rest.all
        ∙ rw (items-add_str (element number j) t)
            (append_assoc (items t) (element number j ∷ []) (map (element number) js));
    once = λ h. rest.once (Nodup-add_str j t (Keys.find_str_new H j.resname t new) h);
  }

  -- A write to one hash shows in that hash alone.
  pub head_of-with_head :
      (h g : Hash) (t : Table) (p : Pool H)
      → ((same_hash h g ≡ true)
          × (head_of H h (with_head H g t p) ≡ t)
          × (head_of H g p ≡ head_of H h p))
        ⊎ ((same_hash h g ≡ false) × (head_of H h (with_head H g t p) ≡ head_of H h p))
  unfolding head_of with_head
  head_of-with_head classes classes t p = inl (refl, refl, refl)
  head_of-with_head classes embedded t p = inr (refl, refl)
  head_of-with_head embedded classes t p = inr (refl, refl)
  head_of-with_head embedded embedded t p = inl (refl, refl, refl)

  run_jobs-Added :
      (h : Hash) (js : List (Job × Attempt)) (p : Pool H)
      → (run_jobs H number js p).thpool_error ≡ false
      → Added (jobs_of h js) (head_of H h p) (head_of H h (run_jobs H number js p))
  unfolding run_jobs
  run_jobs-Added h [] p ok = Added-none (head_of H h p)
  run_jobs-Added h ((j, a) ∷ js) p ok =
      let p' = res_add_th H number a j p in
      let ih = run_jobs-Added h js p' ok in
      elim (res_add_th-cases a j p) [
        | inl e ↦ cc (run_jobs_error js p' e)
        | inr (new, added) ↦
            let t = add_str (element number j) (head_of H j.head p) in
            elim (head_of-with_head h j.head t p) [
              | inl (same, here, there) ↦ rw same (
                  Added-cons j (jobs_of h js) (head_of H h p)
                    (head_of H h (run_jobs H number js p')) (rw (← there) new)
                    (subst (λ u. Added (jobs_of h js) u (head_of H h (run_jobs H number js p')))
                      (ap (head_of H h) added ∙ here ∙ ap (add_str (element number j)) there) ih))
              | inr (other, kept) ↦ rw other (
                  subst (λ u. Added (jobs_of h js) u (head_of H h (run_jobs H number js p')))
                    (ap (head_of H h) added ∙ kept) ih)
            ]
      ]

  pub head_of_start : (h : Hash) → items (head_of H h (pool_start H)) ≡ []
  unfolding head_of
  head_of_start classes = items-empty
  head_of_start embedded = items-empty

  -- When the jobs are done one after another and no error is set, each hash holds the records of
  -- all its jobs, in order, and no name twice.
  pub run_jobs_lem :
      (h : Hash) (js : List (Job × Attempt))
      → (run_jobs H number js (pool_start H)).thpool_error ≡ false
      → let t = head_of H h (run_jobs H number js (pool_start H)) in
        (items t ≡ map (element number) (jobs_of h js)) × Nodup (map resname_of (items t))
  run_jobs_lem h js ok =
      let d = run_jobs-Added h js (pool_start H) ok in
      let none_yet = head_of_start h in
      (
        d.all ∙ ap (λ l. l ++ map (element number) (jobs_of h js)) none_yet,
        d.once (rw none_yet Nodup-nil),
      )
