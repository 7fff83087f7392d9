-- ===== src/Ubf/Runs.antt =====
-- The parts of the methods of TypedUbf where the context of the object is there, with and without an
-- exception that was pending before.
use endurox_java.Base.{
  ◌≡◌, refl, ap, ◌∙◌, Bool, true, false, none, some, ℕ, if◌then◌else◌, set_at_same,
}
use endurox_java.Buffers.{Exception, World, unset_ctx, get_ctx, typed_buffer_get_ctx, get_buffer}
use endurox_java.Ubf.{JvmAnswers, UbfState, on_world, in_context, with_buffer}

-- The object of TypedUbf has its context.
abbrev pub reachable : JvmAnswers → JvmAnswers
reachable a = record a { holder = true; known = true }

got_ok :
    (object : ℕ) (w : World)
    → w.pending ≡ none
    → (get_buffer (some object) 0 false false false w).0.ok ≡ true
unfolding get_buffer
got_ok object w quiet = ap (λ p. elim p as (λ p. Bool) [ none ↦ true | some e ↦ false ]) quiet

got_failed :
    (object : ℕ) (w : World) {e : Exception}
    → w.pending ≡ some e
    → (get_buffer (some object) 0 false false false w).0.ok ≡ false
unfolding get_buffer
got_failed object w pending =
    ap (λ p. elim p as (λ p. Bool) [ none ↦ true | some e ↦ false ]) pending

module _ {B : Type 0} where
  abbrev pub set_ctx : UbfState B → UbfState B
  set_ctx s = on_world (λ w. record w { ctx_set = true }) s

  abbrev pub address : (object : ℕ) → UbfState B → ℕ
  address object s = (s.world.objects object).c_ptr

  pub in_context_runs :
      {R : Type 0} (a : JvmAnswers) (failed : R) (body : UbfState B → R × UbfState B)
      (s : UbfState B)
      → in_context (reachable a) failed body s
        ≡ ((body (set_ctx s)).0, on_world unset_ctx (body (set_ctx s)).1)
  unfolding in_context typed_buffer_get_ctx get_ctx
  in_context_runs a failed body s = refl

  -- The state behind ndrxj_atmi_TypedBuffer_get_buffer is the one before it.
  pub got_same :
      (object : ℕ) (s : UbfState B)
      → on_world (λ w. (get_buffer (some object) 0 false false false w).1) s ≡ s
  unfolding get_buffer
  got_same object s =
      ap (λ o. on_world (λ w. record w { objects = o }) s) (set_at_same s.world.objects object)

  pub with_buffer_runs :
      {R : Type 0} (object : ℕ) (failed : R) (call : ℕ → UbfState B → R × UbfState B)
      (s : UbfState B)
      → s.world.pending ≡ none
      → with_buffer (some object) failed call s ≡ call (address object s) s
  unfolding with_buffer get_buffer
  with_buffer_runs {R} object failed call s quiet =
      let t = on_world (λ w. (get_buffer (some object) 0 false false false w).1) s in
      ap {A = Bool} {B = R × UbfState B} (λ b. if b then call (address object s) t else (failed, t))
        (got_ok object s.world quiet)
      ∙ ap (call (address object s)) (got_same object s)

  pub with_buffer_fails :
      {R : Type 0} (object : ℕ) (failed : R) (call : ℕ → UbfState B → R × UbfState B)
      (s : UbfState B) {e : Exception}
      → s.world.pending ≡ some e
      → with_buffer (some object) failed call s ≡ (failed, s)
  unfolding with_buffer get_buffer
  with_buffer_fails {R} object failed call s pending =
      let t = on_world (λ w. (get_buffer (some object) 0 false false false w).1) s in
      ap {A = Bool} {B = R × UbfState B} (λ b. if b then call (address object s) t else (failed, t))
        (got_failed object s.world pending)
      ∙ ap (λ u. (failed, u)) (got_same object s)

  -- What stands in a context, or behind a buffer, matters only where M_cb_ubf is what it was.
  pub in_context_cong :
      {R : Type 0} (a : JvmAnswers) (failed : R) (body other : UbfState B → R × UbfState B)
      (s : UbfState B)
      → ((t : UbfState B) → t.cb_ubf ≡ s.cb_ubf → body t ≡ other t)
      → in_context a failed body s ≡ in_context a failed other s
  unfolding in_context
  in_context_cong {R} a failed body other s same =
      let got = typed_buffer_get_ctx a.holder a.known true s.world in
      let t = record s { world = got.1 } in
      ap {A = R × UbfState B} {B = R × UbfState B}
        (λ r. if got.0 then (r.0, on_world unset_ctx r.1) else (failed, t)) (same t refl)

  pub with_buffer_cong :
      {R : Type 0} (object : ℕ) (failed : R) (call other : ℕ → UbfState B → R × UbfState B)
      (s : UbfState B)
      → ((p : ℕ) (t : UbfState B) → t.cb_ubf ≡ s.cb_ubf → call p t ≡ other p t)
      → with_buffer (some object) failed call s ≡ with_buffer (some object) failed other s
  unfolding with_buffer
  with_buffer_cong {R} object failed call other s same =
      let got = get_buffer (some object) 0 false false false s.world in
      let t = record s { world = got.1 } in
      ap {A = R × UbfState B} {B = R × UbfState B} (λ r. if got.0.ok then r else (failed, t))
        (same got.0.buf t refl)
