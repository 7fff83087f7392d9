-- ===== src/Signal/Installs.antt =====
-- What a sequence of installations does.
use endurox_java.Base.{
  ℕ, ◌+◌, ◌≡◌, refl, ap, ◌∙◌, Bool, Bool-cases, inl, inr, true, false, ◌&&◌, Option, none, some,
  List, [], ◌∷◌, arith, if◌then◌else◌,
}
use endurox_java.Signal.{Signals, Install, set_runner, install, installs}

-- The calls that reach the end.
abbrev pub effective : List Install → ℕ
effective [] = 0
effective (i ∷ is) = if i.ctx_found && i.vm_found then effective is + 1 else effective is

-- The runner of the last of them.
abbrev pub last_runner : List Install → Option ℕ → Option ℕ
last_runner [] r = r
last_runner (i ∷ is) r =
    if i.ctx_found && i.vm_found then last_runner is i.runner else last_runner is r

abbrev pub refs_of : Option ℕ → ℕ
refs_of none = 0
refs_of (some r) = 1

-- The runner in place has one global reference.
record Held (s : Signals) : Type 0 where
  unset : s.is_set ≡ false
  free : s.locked ≡ false
  refs : s.runner_refs ≡ refs_of s.runner

set_runner-Held :
    (r o : Option ℕ) (a b : Bool) (t n : ℕ)
    → a ≡ false
    → b ≡ false
    → n ≡ refs_of o
    → let s =
        set_runner r
          (record { is_set = a; locked = b; threads = t; runner_refs = n; runner = o }) in
      Held s × (s.runner ≡ r) × (s.threads ≡ t)
unfolding set_runner
set_runner-Held none none a b t n u f e = (record { unset = u; free = f; refs = e }, refl, refl)
set_runner-Held none (some x) a b t n u f e =
    (record { unset = u; free = f; refs = omega (arith, e) }, refl, refl)
set_runner-Held (some r) none a b t n u f e =
    (record { unset = u; free = f; refs = omega (arith, e) }, refl, refl)
set_runner-Held (some r) (some x) a b t n u f e =
    (record { unset = u; free = f; refs = omega (arith, e) }, refl, refl)

-- The two ends of a call on a mutex that is free.
install-ends :
    (i : Install) (s : Signals)
    → i.ctx_found ≡ true
    → s.locked ≡ false
    → s.is_set ≡ false
    → install i s
      ≡ some (if i.vm_found then set_runner i.runner (record s { threads = s.threads + 1 }) else s)
unfolding install
install-ends i s found free unset = ground arith

install-lost : (i : Install) (s : Signals) → i.ctx_found ≡ false → install i s ≡ some s
unfolding install
install-lost i s lost = ground arith

install-Held :
    (i : Install) (s : Signals)
    → Held s
    → (s' : Signals) × (install i s ≡ some s')
      × Held s'
      × (s'.runner ≡ (if i.ctx_found && i.vm_found then i.runner else s.runner))
      × (s'.threads ≡ (if i.ctx_found && i.vm_found then s.threads + 1 else s.threads))
install-Held i s h = elim (Bool-cases i.ctx_found) [
  | inr lost ↦ (s, install-lost i s lost, h, rw lost refl, rw lost refl)
  | inl found ↦ elim (Bool-cases i.vm_found) [
    | inr no_vm ↦ (
      s,
      install-ends i s found h.free h.unset ∙ rw no_vm refl,
      h,
      rw (found, no_vm) refl,
      rw (found, no_vm) refl,
    )
    | inl vm ↦
        let (held, runner, threads) =
          set_runner-Held i.runner s.runner s.is_set s.locked (s.threads + 1) s.runner_refs h.unset
            h.free h.refs in
        (
          set_runner i.runner (record s { threads = s.threads + 1 }),
          install-ends i s found h.free h.unset ∙ rw vm refl,
          held,
          rw (found, vm) runner,
          rw (found, vm) threads,
        )
  ]
]

-- From a start with the flag clear and the mutex free, every call returns and leaves the mutex free;
-- each call that reaches its end starts one more signal thread, the runner is that of the last such
-- call, and one global reference is held for it.
pub installs_lem :
    (is : List Install) (s : Signals)
    → s.is_set ≡ false
    → s.locked ≡ false
    → s.runner_refs ≡ refs_of s.runner
    → (s' : Signals) × (installs is s ≡ some s')
      × (s'.locked ≡ false)
      × (s'.threads ≡ s.threads + effective is)
      × (s'.runner ≡ last_runner is s.runner)
      × (s'.runner_refs ≡ refs_of (last_runner is s.runner))
unfolding installs
installs_lem [] s unset free refs = (s, refl, free, omega arith, refl, refs)
installs_lem (i ∷ is) s unset free refs =
    let (t, e, h, runner, threads) =
      install-Held i s (record { unset = unset; free = free; refs = refs }) in
    let (s', e', free', threads', runner', refs') = installs_lem is t h.unset h.free h.refs in
    elim (Bool-cases (i.ctx_found && i.vm_found)) [
      | inl ends ↦
          let r : t.runner ≡ i.runner = rw ends at runner in
          let n : t.threads ≡ s.threads + 1 = rw ends at threads in
          (
            s',
            rw (installs, e) e',
            free',
            rw ends (omega (arith, threads', n)),
            rw ends (runner' ∙ ap (last_runner is) r),
            rw ends (refs' ∙ ap (λ o. refs_of (last_runner is o)) r),
          )
      | inr stops ↦
          let r : t.runner ≡ s.runner = rw stops at runner in
          let n : t.threads ≡ s.threads = rw stops at threads in
          (
            s',
            rw (installs, e) e',
            free',
            rw stops (omega (arith, threads', n)),
            rw stops (runner' ∙ ap (last_runner is) r),
            rw stops (refs' ∙ ap (λ o. refs_of (last_runner is o)) r),
          )
    ]
