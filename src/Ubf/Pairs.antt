-- ===== src/Ubf/Pairs.antt =====
-- The methods of libsrc/c/TypedUbf_Proj.c on two buffers: a change of one by the other, and
-- comparisons.
use endurox_java.Base.{ℕ, Bool, true, false, some, if◌then◌else◌}
use endurox_java.Buffers.{UbfCode, bminval, beinval, beunix, other_berror, ubf_throw}
use endurox_java.Ubf.{
  Status, UbfLib, Jint, exfail, at, JvmAnswers, UbfState, on_world, in_context, with_buffer, apply,
}

abbrev pub is_bminval : UbfCode → Bool
is_bminval bminval = true
is_bminval beinval = false
is_bminval beunix = false
is_bminval (other_berror n) = false

abbrev pub is_exfail : Jint → Bool
is_exfail exfail = true
is_exfail (at n) = false

module _ {B : Type 0} where
  -- The two buffers, between the context and `out:`.
  unfoldable pub with_buffers :
      {R : Type 0}
      → JvmAnswers
      → (object src : ℕ) → (failed unset : R) → (ℕ → ℕ → UbfState B → R × UbfState B)
      → UbfState B
      → R × UbfState B
  with_buffers a object src failed unset call s =
      in_context a unset
        (λ s1.
          with_buffer (some object) failed
            (λ dst s2. with_buffer (some src) failed (λ from s3. call dst from s3) s2) s1)
        s

  -- The body that the methods which change `object` share.
  unfoldable pub pair_call :
      ((dst src : B) → Status × B) → JvmAnswers → (object src : ℕ) → UbfState B → UbfState B
  pair_call function a object src s =
      (with_buffers a object src tt tt
        (λ dst from s1. (tt, apply dst (function (s1.content dst) (s1.content from)) s1)) s).1

  unfoldable pub bconcat : UbfLib B → JvmAnswers → (object src : ℕ) → UbfState B → UbfState B
  bconcat L = pair_call L.bconcat

  unfoldable pub bcpy : UbfLib B → JvmAnswers → (object src : ℕ) → UbfState B → UbfState B
  bcpy L = pair_call L.bcpy

  unfoldable pub bupdate : UbfLib B → JvmAnswers → (object src : ℕ) → UbfState B → UbfState B
  bupdate L = pair_call L.bupdate

  unfoldable pub bjoin : UbfLib B → JvmAnswers → (object src : ℕ) → UbfState B → UbfState B
  bjoin L = pair_call L.bjoin

  unfoldable pub bojoin : UbfLib B → JvmAnswers → (object src : ℕ) → UbfState B → UbfState B
  bojoin L = pair_call L.bojoin

  -- Bcmp may return -1 without an error, so Berror is tested.
  unfoldable pub bcmp : UbfLib B → JvmAnswers → (object src : ℕ) → UbfState B → Jint × UbfState B
  bcmp L a object src = with_buffers a object src exfail (at 0) (λ dst from s.
      let (ret, berror) = L.bcmp (s.content dst) (s.content from) in
      if is_bminval berror then (ret, s) else (exfail, on_world (ubf_throw berror) s))

  -- `(jboolean)ret`, with EXFAIL cast like the rest.
  unfoldable pub bsubset : UbfLib B → JvmAnswers → (object src : ℕ) → UbfState B → Jint × UbfState B
  bsubset L a object src = with_buffers a object src exfail (at 0) (λ dst from s.
      let (ret, berror) = L.bsubset (s.content dst) (s.content from) in
      if is_exfail ret then (exfail, on_world (ubf_throw berror) s) else (ret, s))
