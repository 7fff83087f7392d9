-- ===== src/Ubf/Leaves.antt =====
-- What the parts of the methods of TypedUbf leave as it was; the child modules say it of the methods.
pub mod Buffers
pub mod Questions
pub mod Values
use endurox_java.Base.{
  set_at, ◌≡◌, ◌≢◌, refl, sym, ◌∙◌, ap, ℕ, Bool, true, false, none, some, inl, inr, set_at_same,
  set_at_other, Bool-cases, either, arith,
}
use endurox_java.Buffers.{
  World, UbfCode, out_of_memory, ubf_throw, get_buffer, typed_buffer_get_ctx, get_ctx, atmi_throw,
  unset_ctx,
}
use endurox_java.Ubf.{
  Status, JvmAnswers, UbfState, on_world, left_open, take_elements, release_elements, in_context,
  with_buffer, apply,
}

-- From `s` to `s'` no buffer but the one at `p` has changed, no object, and nothing of Java or of C is
-- held that was not held before.
pub record Leaves {B : Type 0} (p : ℕ) (s s' : UbfState B) : Type 0 where
  pub elsewhere : (i : ℕ) → i ≢ p → s'.content i ≡ s.content i
  pub objects : s'.world.objects ≡ s.world.objects
  pub copies : s'.copies ≡ s.copies
  pub blocks : s'.blocks ≡ s.blocks
  pub trees : s'.trees ≡ s.trees

typed_buffer_get_ctx_objects :
    (holder known : Bool) (w : World)
    → (typed_buffer_get_ctx holder known true w).1.objects ≡ w.objects
unfolding typed_buffer_get_ctx get_ctx atmi_throw
typed_buffer_get_ctx_objects true true w = refl
typed_buffer_get_ctx_objects true false w = refl
typed_buffer_get_ctx_objects false known w = refl

module _ {B : Type 0} where
  abbrev pub At : (object p : ℕ) → UbfState B → Type 0
  At object p s = (s.world.objects object).c_ptr ≡ p

  pub Leaves-refl : (p : ℕ) (s : UbfState B) → Leaves p s s
  Leaves-refl p s = record {
    elsewhere = λ i ne. refl;
    objects = refl;
    copies = refl;
    blocks = refl;
    trees = refl;
  }

  pub Leaves-trans : {p : ℕ} {s t u : UbfState B} → Leaves p s t → Leaves p t u → Leaves p s u
  Leaves-trans l m = record {
    elsewhere = λ i ne. m.elsewhere i ne ∙ l.elsewhere i ne;
    objects = m.objects ∙ l.objects;
    copies = m.copies ∙ l.copies;
    blocks = m.blocks ∙ l.blocks;
    trees = m.trees ∙ l.trees;
  }

  pub on_world-Leaves :
      (p : ℕ) (f : World → World) (s : UbfState B)
      → (f s.world).objects ≡ s.world.objects
      → Leaves p s (on_world f s)
  on_world-Leaves p f s e = record {
    elsewhere = λ i ne. refl;
    objects = e;
    copies = refl;
    blocks = refl;
    trees = refl;
  }

  pub throw-Leaves :
      (p : ℕ) (err : UbfCode) (s : UbfState B) → Leaves p s (on_world (ubf_throw err) s)
  unfolding ubf_throw
  throw-Leaves p err s = on_world-Leaves p (ubf_throw err) s refl

  pub open-Leaves : (p : ℕ) (s : UbfState B) → Leaves p s (left_open s)
  open-Leaves p s = on_world-Leaves p (λ w. record w { undefined = true }) s refl

  -- An exception of the JVM.
  pub jvm-Leaves :
      (p : ℕ) (s : UbfState B)
      → Leaves p s (on_world (λ w. record w { pending = some out_of_memory }) s)
  jvm-Leaves p s = on_world-Leaves p (λ w. record w { pending = some out_of_memory }) s refl

  -- A change of the buffer at `p` alone.
  pub content-Leaves :
      (p : ℕ) (b : B) (s : UbfState B) → Leaves p s (record s { content = set_at s.content p b })
  content-Leaves p b s = record {
    elsewhere = λ i ne. set_at_other s.content p i b (λ e. ne (sym e));
    objects = refl;
    copies = refl;
    blocks = refl;
    trees = refl;
  }

  pub apply-Leaves : (p : ℕ) (result : Status × B) (s : UbfState B) → Leaves p s (apply p result s)
  unfolding apply ubf_throw
  apply-Leaves p (none, b) s = content-Leaves p b s
  apply-Leaves p (some err, b) s = Leaves-trans (content-Leaves p b s) (throw-Leaves p err _)

  pub with_buffer-Leaves :
      {R : Type 0} (p object : ℕ) (failed : R) (call : ℕ → UbfState B → R × UbfState B)
      (s : UbfState B)
      → ((t : UbfState B)
          → t.world.objects ≡ s.world.objects
          → Leaves p t (call (s.world.objects object).c_ptr t).1)
      → Leaves p s (with_buffer (some object) failed call s).1
  unfolding with_buffer get_buffer
  with_buffer-Leaves {R} p object failed call s keeps =
      let t = on_world (λ w. (get_buffer (some object) 0 false false false w).1) s in
      let same = set_at_same s.world.objects object in
      let first =
        on_world-Leaves p (λ w. (get_buffer (some object) 0 false false false w).1) s same in
      either {A = R × UbfState B} (λ r. Leaves p s r.1)
        (get_buffer (some object) 0 false false false s.world).0.ok
        (Leaves-trans first (keeps t same)) first

  -- The same for the buffer whose address is known.
  pub own_buffer-Leaves :
      {R : Type 0} (p object : ℕ) (failed : R) (call : ℕ → UbfState B → R × UbfState B)
      (s : UbfState B)
      → At object p s
      → ((t : UbfState B) → t.world.objects ≡ s.world.objects → Leaves p t (call p t).1)
      → Leaves p s (with_buffer (some object) failed call s).1
  own_buffer-Leaves p object failed call s own keeps =
      with_buffer-Leaves p object failed call s λ t e. rw own (keeps t e)

  pub At-same :
      {object p : ℕ} (s t : UbfState B)
      → At object p s
      → t.world.objects ≡ s.world.objects
      → At object p t
  At-same {object} s t own e = ap (λ o. (o object).c_ptr) e ∙ own

  pub in_context-Leaves :
      {R : Type 0} (p : ℕ) (a : JvmAnswers) (failed : R) (body : UbfState B → R × UbfState B)
      (s : UbfState B)
      → ((t : UbfState B) → t.world.objects ≡ s.world.objects → Leaves p t (body t).1)
      → Leaves p s (in_context a failed body s).1
  unfolding in_context unset_ctx
  in_context-Leaves {R} p a failed body s keeps =
      let got = typed_buffer_get_ctx a.holder a.known true s.world in
      let same = typed_buffer_get_ctx_objects a.holder a.known s.world in
      let first = on_world-Leaves p (λ w. got.1) s same in
      let ran = Leaves-trans first (keeps (record s { world = got.1 }) same) in
      either {A = R × UbfState B} (λ r. Leaves p s r.1) got.0
        (Leaves-trans ran (on_world-Leaves p unset_ctx _ refl)) first

  -- Elements that are taken and released.
  pub elements-Leaves :
      (p : ℕ) (a : JvmAnswers) (s t : UbfState B)
      → Leaves p (take_elements a s) t
      → Leaves p s (release_elements a t)
  unfolding take_elements release_elements
  elements-Leaves p a s t l = record {
    elsewhere = λ i ne. l.elsewhere i ne;
    objects = l.objects;
    copies = elim (Bool-cases a.copy) [
      | inl copied ↦ let e = l.copies in rw copied (ground arith)
      | inr pinned ↦ let e = l.copies in rw pinned (ground arith)
    ];
    blocks = l.blocks;
    trees = l.trees;
  }
