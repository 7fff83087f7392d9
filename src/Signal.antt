-- ===== src/Signal.antt =====
-- libsrc/c/TermSigHandler.c: the thread that waits for the signals of shutdown, and the Java runner
-- that it calls.
pub mod Installs
use endurox_java.Base.{
  ℕ, ◌+◌, ◌-◌, Bool, true, false, not, Option, none, some, List, [], ◌∷◌, if◌then◌else◌,
}

-- The statics: `M_is_set`, which no code sets, the mutex, the signal threads that were started, the
-- number of the Java VM's global references that are live, and `M_runner`.
pub record Signals : Type 0 where
  pub is_set : Bool
  pub locked : Bool
  pub threads : ℕ
  pub runner_refs : ℕ
  pub runner : Option ℕ

-- A call of `installTermSigHandler`: whether the context is found and GetJavaVM succeeds, and the
-- runner, none for null.
pub record Install : Type 0 where
  pub ctx_found : Bool
  pub vm_found : Bool
  pub runner : Option ℕ

-- The exchange of the runner, with its global references.
unfoldable pub set_runner : Option ℕ → Signals → Signals
set_runner runner s =
    let released = elim s.runner as (λ (o : Option ℕ). Signals) [
      | none ↦ s
      | some r ↦ record s { runner_refs = s.runner_refs - 1 }
    ] in
    elim runner [
      | none ↦ record released { runner = none }
      | some r ↦ record released { runner = some r; runner_refs = released.runner_refs + 1 }
    ]

-- `installTermSigHandler`; the mutex is released behind `out:` when `have_lock` is set, which the
-- second of the two locks does not do. None: the call waits for a mutex that is never released.
unfoldable pub install : Install → Signals → Option Signals
install i s =
    if not i.ctx_found
    then some s
    else if s.locked
    then none
    else if s.is_set
    then some (record (set_runner i.runner s) { locked = true })
    else if i.vm_found
    then some (set_runner i.runner (record s { threads = s.threads + 1 }))
    else some s

-- Calls one after another.
unfoldable pub installs : List Install → Signals → Option Signals
installs [] s = some s
installs (i ∷ is) s = elim (install i s) [ none ↦ none | some s' ↦ installs is s' ]

-- `sig_thread` on a signal: whether the runner is called.
unfoldable pub on_signal : Signals → Bool
on_signal s = elim s.runner [ none ↦ false | some r ↦ true ]
