-- ===== src/Ubf/Info.antt =====
-- libsrc/c/TypedUbf_Util.c and BNextResult.c: questions about a buffer, its initialisation, and JSON;
-- and `Bprint` of TypedUbf_Bprint.c.
use endurox_java.Base.{
  ℕ, ◌+◌, ◌*◌, Bool, false, Option, none, some, inl, inr, if◌then◌else◌, ◌⊎◌, set_at,
}
use endurox_java.Base.Bytes.{CString}
use endurox_java.Buffers.{Code, beunix, atmi_throw, ubf_throw, unset_ctx}
use endurox_java.Ubf.{
  Next, Status, UbfLib, Jint, exfail, at, next_error, next_end, next_field, JvmAnswers, UbfState,
  on_world, take_elements, release_elements, in_context, with_buffer, apply,
}
use endurox_java.Ubf.Pairs.{is_exfail}
use endurox_java.Ubf.Values.{made_object}

module _ {B : Type 0} where
  -- A question, between the context and `out:`.
  unfoldable pub query :
      {R : Type 0}
      → JvmAnswers
      → (object : ℕ) → (failed : R) → (ℕ → UbfState B → R × UbfState B)
      → UbfState B
      → R × UbfState B
  query a object failed call = in_context a failed (with_buffer (some object) failed call)

  -- A question whose answer is returned as it is.
  unfoldable pub ask :
      {R : Type 0}
      → JvmAnswers
      → (object : ℕ) → (failed : R) → (B → R)
      → UbfState B
      → R × UbfState B
  ask a object failed function = query a object failed (λ p s. (function (s.content p), s))

  unfoldable pub bpres :
      UbfLib B → JvmAnswers → (object bfldid occ : ℕ) → UbfState B → Bool × UbfState B
  bpres L a object bfldid occ = ask a object false (L.bpres bfldid occ)

  unfoldable pub bisubf : UbfLib B → JvmAnswers → (object : ℕ) → UbfState B → Bool × UbfState B
  bisubf L a object = ask a object false L.bisubf

  unfoldable pub blen :
      UbfLib B → JvmAnswers → (object bfldid occ : ℕ) → UbfState B → Jint × UbfState B
  blen L a object bfldid occ = query a object exfail (λ p s.
      let (ret, berror) = L.blen bfldid occ (s.content p) in
      (ret, if is_exfail ret then on_world (ubf_throw berror) s else s))

  -- What is made of the answer of Bnext; `none` is NULL.
  unfoldable pub next_result : JvmAnswers → Next → UbfState B → Option (ℕ × ℕ × ℕ) × UbfState B
  next_result a (next_error err) s = (none, on_world (ubf_throw err) s)
  next_result a next_end s = (none, s)
  next_result a (next_field bfldid occ len) s = made_object a (some (bfldid, occ, len), s)

  -- Only the first call starts at BFIRSTFLDID.
  unfoldable pub bnext :
      UbfLib B
      → JvmAnswers
      → (object : ℕ) → (first : Bool) → UbfState B
      → Option (ℕ × ℕ × ℕ) × UbfState B
  bnext L a object first = query a object none (λ p s.
      let (found, b) = L.bnext (if first then 0 else 1) (s.content p) in
      next_result a found (record s { content = set_at s.content p b }))

  unfoldable pub boccur :
      UbfLib B → JvmAnswers → (object bfldid : ℕ) → UbfState B → Jint × UbfState B
  boccur L a object bfldid = ask a object exfail (L.boccur bfldid)

  unfoldable pub bsizeof : UbfLib B → JvmAnswers → (object : ℕ) → UbfState B → Jint × UbfState B
  bsizeof L a object = ask a object exfail (λ b. (L.bsizeof b).0)

  unfoldable pub bunused : UbfLib B → JvmAnswers → (object : ℕ) → UbfState B → Jint × UbfState B
  bunused L a object = ask a object exfail L.bunused

  unfoldable pub bused : UbfLib B → JvmAnswers → (object : ℕ) → UbfState B → Jint × UbfState B
  bused L a object = ask a object exfail L.bused

  unfoldable pub bnum : UbfLib B → JvmAnswers → (object : ℕ) → UbfState B → Jint × UbfState B
  bnum L a object = ask a object exfail L.bnum

  -- When the second call fails, its size is returned all the same.
  unfoldable pub binit : UbfLib B → JvmAnswers → (object : ℕ) → UbfState B → Jint × UbfState B
  binit L a object = query a object exfail (λ p s.
      let (ret, berror) = L.bsizeof (s.content p) in
      if is_exfail ret
      then (ret, on_world (ubf_throw berror) s)
      else (ret, apply p (L.binit ret (s.content p)) s))

  unfoldable pub throw_failed : Status → UbfState B → UbfState B
  throw_failed none s = s
  throw_failed (some err) s = on_world (ubf_throw err) s

  unfoldable pub bprint : UbfLib B → JvmAnswers → (object : ℕ) → UbfState B → UbfState B
  bprint L a object s =
      (query a object tt (λ p s1. (tt, throw_failed (L.bprint (s1.content p)) s1)) s).1

  unfoldable pub atmi_failed : (object : ℕ) → Option Code → UbfState B → UbfState B
  atmi_failed object none s = s
  atmi_failed object (some err) s = on_world (atmi_throw (some object) false err) s

  -- The characters are taken in front of the context, and without one the exit is `out:` too.
  unfoldable pub tpjsontoubf :
      UbfLib B → JvmAnswers → (object : ℕ) → CString → UbfState B → UbfState B
  tpjsontoubf L a object json s =
      let converted =
        (query a object tt
          (λ p s1.
            let (failed, b) = L.tpjsontoubf json (s1.content p) in
            (tt, atmi_failed object failed (record s1 { content = set_at s1.content p b })))
          (take_elements a s)).1 in
      on_world unset_ctx (release_elements a converted)

  -- The text that is built in the block, or the throw.
  unfoldable pub built_json :
      (object : ℕ) → Code ⊎ CString → UbfState B → Option CString × UbfState B
  built_json object (inl err) s = (none, on_world (atmi_throw (some object) false err) s)
  built_json object (inr json) s = (some json, s)

  -- The block has ten times the size of the buffer. A size of -1 makes a request that malloc refuses.
  unfoldable pub json_block :
      UbfLib B → JvmAnswers → (object p : ℕ) → Jint → UbfState B → Option CString × UbfState B
  json_block L a object p exfail s = (none, on_world (ubf_throw beunix) s)
  json_block L a object p (at size) s =
      if a.memory
      then built_json object (L.tpubftojson (size * 10) (s.content p))
          (record s { blocks = s.blocks + 1 })
      else (none, on_world (ubf_throw beunix) s)

  -- The string is made without a context. The block is not freed.
  unfoldable pub tpubftojson :
      UbfLib B → JvmAnswers → (object : ℕ) → UbfState B → Option CString × UbfState B
  tpubftojson L a object s =
      let (text, s') =
        query a object none (λ p s1. json_block L a object p (L.bsizeof (s1.content p)).0 s1) s in
      made_object a (text, on_world unset_ctx s')

  -- What is printed is outside the model.
  unfoldable pub tplogprintubf : JvmAnswers → (object : ℕ) → UbfState B → UbfState B
  tplogprintubf a object s =
      on_world unset_ctx
        (query a object tt (λ p s1. (tt, release_elements a (take_elements a s1))) s).1
