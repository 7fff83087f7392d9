-- ===== src/Ubf/Stream/Reread.antt =====
-- That Bread hands to the library what Bwrite returned.
use endurox_java.Base.{
  ◌≡◌, refl, sym, ap, ◌∙◌, ◌≢◌, Bool, true, false, none, some, List, [], ◌∷◌, ◌++◌, ℕ, ◌+◌, ◌-◌,
  ltb, ◌==◌, if◌then◌else◌, length, set_at, set_at_self, arith, length-append, drop-append,
  take-append,
}
use endurox_java.Buffers.{UbfCode, unset_ctx}
use endurox_java.Ubf.{
  Jint, Status, JvmAnswers, UbfState, on_world, take_elements, release_elements, apply, at,
}
use endurox_java.Ubf.Runs.{reachable, set_ctx, address, in_context_runs, with_buffer_runs}
use endurox_java.Ubf.Stream.{Stream, start, bread_readf, bread, bwrite}
use endurox_java.Ubf.Stream.Written.{is_length, concat, same_length, Writes, bwrite_lem}
use mathlib.Core.List.{append-nil}

given_back :
    (copy : Bool) (n : ℕ)
    → (if copy then (if copy then n + 1 else n) - 1 else if copy then n + 1 else n) ≡ n
given_back true n = omega arith
given_back false n = refl

module _ {B : Type 0} where
  -- Two calls of a callback, for a header and for what it asks for.
  unfoldable pub ask_twice :
      (ℕ → Stream B → (Jint × List ℕ) × Stream B)
      → (header : ℕ) → (needed : List ℕ → ℕ) → (build : List ℕ → List ℕ → Status × B)
      → (err : UbfCode) → B
      → Stream B
      → (Status × B) × Stream B
  ask_twice readf header needed build err b st =
      let ((n, head), st1) = readf header st in
      let ((m, body), st2) = readf (needed head) st1 in
      if is_length n header
      then if is_length m (needed head) then (build head body, st2) else ((some err, b), st2)
      else ((some err, b), st1)

-- Breadcb asks for `header` bytes, and then for as many as it reads in them, and builds the buffer from
-- both; it fails when the callback gives it another number.
pub record Reads {B : Type 0}
    (breadcb : (ℕ → Stream B → (Jint × List ℕ) × Stream B) → B → Stream B → (Status × B) × Stream B)
    : Type 0 where
  pub header : ℕ
  pub needed : List ℕ → ℕ
  pub build : List ℕ → List ℕ → Status × B
  pub failure : UbfCode
  pub asks :
      (readf : ℕ → Stream B → (Jint × List ℕ) × Stream B) (b : B) (st : Stream B)
      → breadcb readf b st ≡ ask_twice readf header needed build failure b st

module _ {B : Type 0} where
  bread_first :
      (head body : List ℕ) (s : UbfState B)
      → bread_readf (length head) (start (some (head ++ body)) (length (head ++ body)) s) ≡ (
        (at (length head), head),
        record {
          ctl = record {
            offset = length head;
            buf = some (head ++ body);
            size = length (head ++ body);
          };
          state = s;
        },
      )
  unfolding bread_readf
  bread_first head body s =
      let enough : ltb (length (head ++ body)) (length head) ≡ false =
        rw (length-append head body) (ground arith) in
      rw (enough, take-append head body) refl

  bread_second :
      (head body : List ℕ) (s : UbfState B)
      → length head ≢ 0
      → bread_readf (length body) (record {
        ctl = record {
          offset = length head;
          buf = some (head ++ body);
          size = length (head ++ body);
        };
        state = s;
      })
        ≡ (
          (at (length body), body),
          record {
            ctl = record {
              offset = length head;
              buf = some (head ++ body);
              size = length (head ++ body);
            };
            state = s;
          },
        )
  unfolding bread_readf
  bread_second head body s some_header =
      let behind : (length head == 0) ≡ false = ground arith in
      let left : length (head ++ body) - length head ≡ length body =
        omega (arith, length-append head body) in
      let whole : ltb (length body) (length body) ≡ false = ground arith in
      rw (behind, left, whole, drop-append head body) refl

  asked_twice :
      (head body : List ℕ) (needed : List ℕ → ℕ) (build : List ℕ → List ℕ → Status × B)
      (err : UbfCode) (b : B) (s : UbfState B)
      → length head ≢ 0
      → needed head ≡ length body
      → ask_twice bread_readf
          (length head)
          needed
          build
          err
          b
          (start (some (head ++ body)) (length (head ++ body)) s)
        ≡ (
          build head body,
          record {
            ctl = record {
              offset = length head;
              buf = some (head ++ body);
              size = length (head ++ body);
            };
            state = s;
          },
        )
  unfolding ask_twice
  asked_twice head body needed build err b s some_header need =
      rw
        (
          bread_first head body s,
          need,
          bread_second head body s some_header,
          same_length (length head),
          same_length (length body),
        )
        refl

  bread_lem :
      (breadcb : (ℕ → Stream B → (Jint × List ℕ) × Stream B)
        → B
        → Stream B
        → (Status × B) × Stream B)
      (R : Reads breadcb) (a : JvmAnswers) (object : ℕ) (head body : List ℕ) (b : B)
      (s : UbfState B)
      → s.world.pending ≡ none
      → length head ≡ R.header
      → length head ≢ 0
      → R.needed head ≡ length body
      → R.build head body ≡ (none, b)
      → bread breadcb (reachable a) object (head ++ body) s
        ≡ on_world unset_ctx (
            release_elements (reachable a) (record (take_elements (reachable a) (set_ctx s)) {
              content = set_at s.content (address object s) b;
            }))
  unfolding bread take_elements apply
  bread_lem breadcb R a object head body b s quiet header some_header need builds =
      let taken = take_elements (reachable a) (set_ctx s) in
      let p = address object s in
      let read : breadcb bread_readf (s.content p)
            (start (some (head ++ body)) (length (head ++ body)) taken)
          ≡ _ =
        R.asks bread_readf (s.content p) (start (some (head ++ body)) (length (head ++ body)) taken)
        ∙ ap
            (λ n.
              ask_twice bread_readf n R.needed R.build R.failure (s.content p)
                (start (some (head ++ body)) (length (head ++ body)) taken))
            (sym header)
        ∙ asked_twice head body R.needed R.build R.failure (s.content p) taken some_header need in
      ap (λ r. r.1) (in_context_runs a tt _ (take_elements (reachable a) s))
      ∙ ap (λ r. on_world unset_ctx (release_elements (reachable a) r.1))
          (with_buffer_runs object tt _ taken quiet)
      ∙ ap (λ r. on_world unset_ctx (release_elements (reachable a) (apply p r.0 r.1.state))) read
      ∙ ap (λ r. on_world unset_ctx (release_elements (reachable a) (apply p r taken))) builds

  -- Where the library writes a buffer as a header and a body, and builds it from both again: what Bwrite
  -- returns makes Bread give the buffer of its object the same content, without an exception, a write
  -- behind the library's memory or a copy kept, when both contexts are there, nothing is pending, and
  -- malloc, realloc and the JVM give what they are asked for.
  pub bwrite-bread :
      (bwritecb : (List ℕ → Stream B → Jint × Stream B) → B → Stream B → Status × Stream B)
      (breadcb : (ℕ → Stream B → (Jint × List ℕ) × Stream B)
        → B
        → Stream B
        → (Status × B) × Stream B)
      (W : Writes bwritecb) (R : Reads breadcb) (a a' : JvmAnswers) (from to : ℕ)
      (head body : List ℕ) (s u : UbfState B)
      → s.world.pending ≡ none
      → u.world.pending ≡ none
      → W.parts (s.content (address from s)) ≡ head ∷ body ∷ []
      → length head ≡ R.header
      → length head ≢ 0
      → R.needed head ≡ length body
      → R.build head body ≡ (none, s.content (address from s))
      → (bytes : List ℕ) × ((bwrite bwritecb
            (λ n. true)
            (record (reachable a) { made = true })
            from
            s).0
          ≡ some bytes)
        × ((bread breadcb (reachable a') to bytes u).content (address to u)
            ≡ s.content (address from s))
        × ((bread breadcb (reachable a') to bytes u).world ≡ record u.world { ctx_set = false })
        × ((bread breadcb (reachable a') to bytes u).copies ≡ u.copies)
  unfolding unset_ctx release_elements take_elements
  bwrite-bread bwritecb breadcb W R a a' from to head body s u quiet quiet' parts header some_header
        need builds =
      let b = s.content (address from s) in
      let read = bread_lem breadcb R a' to head body b u quiet' header some_header need builds in
      (
        head ++ body,
        ap (λ r. r.0) (bwrite_lem bwritecb W a from s quiet)
            ∙ ap (λ ps. some (concat ps)) parts
            ∙ ap (λ bs. some (head ++ bs)) (append-nil body),
        ap (λ r. r.content (address to u)) read ∙ set_at_self u.content (address to u) b,
        ap (λ r. r.world) read,
        ap (λ r. r.copies) read ∙ given_back a'.copy u.copies,
      )
