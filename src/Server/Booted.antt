-- ===== src/Server/Booted.antt =====
-- Every exit of the method that runs a server.
use endurox_java.Base.{
  ℕ, ◌+◌, ◌≡◌, refl, sym, ap, ◌∙◌, Bool, true, false, not, ◌&&◌, Bool-cases, inl, inr, Option, none,
  some, List, [], ◌∷◌, arith, if◌then◌else◌, ltb, length,
}
use endurox_java.Base.Bytes.{CString}
use endurox_java.Buffers.{Code}
use endurox_java.Server.{Boot, Ran, nulls, copy_args, free_args, elements, tp_run}

free_args-nulls : (es : List (Option (CString × Bool))) → free_args (nulls es) ≡ 0
unfolding free_args
free_args-nulls [] = refl
free_args-nulls (e ∷ es) = free_args-nulls es

-- The loop that frees meets just the strings that were copied.
free_args-copy_args :
    (system : Code) (es : List (Option (CString × Bool)))
    → let (slots, n, _, _) = copy_args system es in free_args slots ≡ n
unfolding free_args copy_args
free_args-copy_args system [] = refl
free_args-copy_args system (none ∷ es) = free_args-nulls es
free_args-copy_args system (some (s, true) ∷ es) = ap (λ n. n + 1) (free_args-copy_args system es)
free_args-copy_args system (some (s, false) ∷ es) = free_args-nulls es

-- The strings of an array that has them all, each copied.
abbrev pub given : List CString → List (Option (CString × Bool))
given [] = []
given (s ∷ ss) = some (s, true) ∷ given ss

abbrev pub strings : List CString → List (Option CString)
strings [] = []
strings (s ∷ ss) = some s ∷ strings ss

copy_args-given :
    (system : Code) (ss : List CString)
    → copy_args system (given ss) ≡ (strings ss, length ss, true, none)
unfolding copy_args
copy_args-given system [] = refl
copy_args-given system (s ∷ ss) =
    rw (copy_args-given system ss) (ap (λ n. (some s ∷ strings ss, n, true, none)) (omega arith))

-- What an exit has given back.
abbrev pub Balanced : Boot → Ran → Type 0
Balanced b r =
    (r.freed ≡ r.allocated) × (r.refs_deleted ≡ 1) × (r.refs_made ≡ (if b.known then 1 else 0))

-- Every exit frees just the memory that was allocated, and deletes one global reference, which it has
-- made if there is a context.
pub tp_run-Balanced : (system : Code) (b : Boot) → Balanced b (tp_run system b)
unfolding tp_run free_args
tp_run-Balanced system b =
    let freed : free_args (copy_args system (elements b.jargv)).0
        ≡ (copy_args system (elements b.jargv)).1 =
      free_args-copy_args system (elements b.jargv) in
    elim (Bool-cases b.known) [
      | inr unknown ↦ rw unknown (refl, refl, refl)
      | inl known ↦ elim (Bool-cases (not b.nocheck && ltb (length (elements b.jargv)) 4)) [
        | inl few ↦ rw (known, few) (refl, refl, refl)
        | inr enough ↦ elim (Bool-cases b.calloc_ok) [
          | inr no_memory ↦ rw (known, enough, no_memory) (refl, refl, refl)
          | inl slots ↦ elim (Bool-cases (copy_args system (elements b.jargv)).2) [
            | inr stopped ↦ rw (known, enough, slots, stopped) (omega (arith, freed), refl, refl)
            | inl all ↦ rw (known, enough, slots, all) (omega (arith, freed), refl, refl)
          ]
        ]
      ]
    ]

-- With a context, memory and enough arguments, the main function of the server is called with the name
-- of the program and the arguments of Java, its result is returned, and what was allocated is freed.
pub tp_run_lem :
    (system : Code) (b : Boot) (ss : List CString)
    → b.known ≡ true
    → b.calloc_ok ≡ true
    → (not b.nocheck && ltb (length (elements b.jargv)) 4) ≡ false
    → elements b.jargv ≡ given ss
    → let r = tp_run system b in
      (r.ok ≡ b.main_ok)
      × (r.argv ≡ some (some b.progname ∷ strings ss))
      × (r.freed ≡ length ss + 2)
unfolding tp_run free_args
tp_run_lem system b ss known slots enough args =
    let copied : copy_args system (elements b.jargv) ≡ (strings ss, length ss, true, none) =
      ap (copy_args system) args ∙ copy_args-given system ss in
    let all : free_args (strings ss) ≡ length ss =
      ap (λ (x : List (Option CString) × ℕ × Bool × Option Code). free_args x.0) (sym copied)
      ∙ free_args-copy_args system (elements b.jargv)
      ∙ ap (λ (x : List (Option CString) × ℕ × Bool × Option Code). x.1) copied in
    rw (tp_run, known, enough, slots, copied, all) (refl, refl, omega arith)
