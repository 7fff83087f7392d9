-- ===== src/Ubf/Stream/Written.antt =====
-- What Bwrite returns.
use endurox_java.Base.{
  ◌≡◌, refl, ap, ◌∙◌, Bool, true, false, none, some, List, [], ◌∷◌, ◌++◌, ℕ, ◌+◌, ◌-◌, ◌==◌,
  if◌then◌else◌, length, take, arith, length-append,
}
use endurox_java.Buffers.{UbfCode, unset_ctx}
use endurox_java.Ubf.{Jint, Status, JvmAnswers, UbfState, on_world, exfail, at}
use endurox_java.Ubf.Runs.{reachable, set_ctx, address, in_context_runs, with_buffer_runs}
use endurox_java.Ubf.Stream.{Stream, start, bwrite_writef, bwrite_out, bwrite}
use endurox_java.Ubf.Values.{made_object}
use mathlib.Core.List.{append-nil, append_assoc}
use native.Mathlib.Nat.{zero-add}

abbrev pub is_length : Jint → ℕ → Bool
is_length exfail n = false
is_length (at m) n = m == n

abbrev pub concat : List (List ℕ) → List ℕ
concat [] = []
concat (c ∷ cs) = c ++ concat cs

take-length : (xs : List ℕ) → take (length xs) xs ≡ xs
take-length [] = refl
take-length (x ∷ xs) = ap (λ ys. x ∷ ys) (take-length xs)

pub same_length : (n : ℕ) → is_length (at n) n ≡ true
same_length n = ground arith

module _ {B : Type 0} where
  -- The calls of a callback with one part after the other, up to the first that does not take all.
  unfoldable pub hand_out :
      (List ℕ → Stream B → Jint × Stream B)
      → (err : UbfCode) → List (List ℕ)
      → Stream B
      → Status × Stream B
  hand_out writef err [] st = (none, st)
  hand_out writef err (part ∷ parts) st =
      let (n, st') = writef part st in
      let rest = hand_out writef err parts st' in
      if is_length n (length part) then rest else (some err, st')

  abbrev pub written : (size : ℕ) → List ℕ → UbfState B → Stream B
  written size bytes s = record {
    ctl = record { offset = length bytes; buf = some bytes; size = size };
    state = s;
  }

  grown :
      (part bytes : List ℕ) (size : ℕ) (s : UbfState B)
      → bwrite_writef (λ n. true) part (written size bytes s)
        ≡ (at (length part), written size (bytes ++ part) s)
  unfolding bwrite_writef
  grown part bytes size s = rw (take-length bytes, length-append bytes part) refl

  -- Where realloc gives what it is asked for, the parts are behind one another in the block.
  appended :
      (err : UbfCode) (parts : List (List ℕ)) (bytes : List ℕ) (size : ℕ) (s : UbfState B)
      → hand_out (bwrite_writef (λ n. true)) err parts (written size bytes s)
        ≡ (none, written size (bytes ++ concat parts) s)
  unfolding hand_out
  appended err [] bytes size s = rw (append-nil bytes) refl
  appended err (part ∷ parts) bytes size s =
      rw
        (
          grown part bytes size s,
          same_length (length part),
          appended err parts (bytes ++ part) size s,
          append_assoc bytes part (concat parts),
        )
        refl

  first_grown :
      (part : List ℕ) (s : UbfState B)
      → bwrite_writef (λ n. true) part (start none 0 s)
        ≡ (at (length part), written 0 part (record s { blocks = s.blocks + 1 }))
  unfolding bwrite_writef
  first_grown part s = rw (zero-add (length part)) refl

  -- What stands behind the calls for all parts.
  handed_out :
      (err : UbfCode) (parts : List (List ℕ)) (a : JvmAnswers) (s : UbfState B)
      → bwrite_out
          (record a { made = true })
          (hand_out (bwrite_writef (λ n. true)) err parts (start none 0 s))
        ≡ (some (concat parts), s)
  unfolding hand_out bwrite_out made_object
  handed_out err [] a s = refl
  handed_out err (part ∷ parts) a s =
      let freed : s.blocks + 1 - 1 ≡ s.blocks = omega arith in
      rw
        (
          first_grown part s,
          same_length (length part),
          appended err parts part 0 (record s { blocks = s.blocks + 1 }),
          take-length (part ++ concat parts),
        )
        (ap (λ n. (some (part ++ concat parts), record s { blocks = n })) freed)

-- Bwritecb hands the buffer out in parts, and fails when the callback does not take one.
pub record Writes {B : Type 0}
    (bwritecb : (List ℕ → Stream B → Jint × Stream B) → B → Stream B → Status × Stream B)
    : Type 0 where
  pub parts : B → List (List ℕ)
  pub failure : UbfCode
  pub hands_out :
      (writef : List ℕ → Stream B → Jint × Stream B) (b : B) (st : Stream B)
      → bwritecb writef b st ≡ hand_out writef failure (parts b) st

module _ {B : Type 0} where
  -- With a context, nothing pending, and what malloc, realloc and the JVM are asked for, Bwrite returns
  -- the parts of the buffer behind one another, in the state before it: its block is freed.
  pub bwrite_lem :
      (bwritecb : (List ℕ → Stream B → Jint × Stream B) → B → Stream B → Status × Stream B)
      (W : Writes bwritecb) (a : JvmAnswers) (object : ℕ) (s : UbfState B)
      → s.world.pending ≡ none
      → bwrite bwritecb (λ n. true) (record (reachable a) { made = true }) object s
        ≡ (some (concat (W.parts (s.content (address object s)))), on_world unset_ctx (set_ctx s))
  unfolding bwrite
  bwrite_lem bwritecb W a object s quiet =
      let b = s.content (address object s) in
      in_context_runs (record a { made = true }) none _ s
      ∙ ap (λ r. (r.0, on_world unset_ctx r.1))
          (with_buffer_runs object none _ (set_ctx s) quiet
            ∙ ap (bwrite_out (record (reachable a) { made = true }))
                (W.hands_out (bwrite_writef (λ n. true)) b (start none 0 (set_ctx s)))
            ∙ handed_out W.failure (W.parts b) (reachable a) (set_ctx s))
