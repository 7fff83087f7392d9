-- ===== src/Ubf/Json.antt =====
-- The block that `tpubftojson` allocates for its text.
use endurox_java.Base.{◌≡◌, refl, ◌⊎◌, inl, inr, true, false, Option, none, some, ℕ, ◌+◌, either}
use endurox_java.Base.Bytes.{CString}
use endurox_java.Buffers.{Code, unset_ctx, typed_buffer_get_ctx, get_buffer}
use endurox_java.Ubf.{
  Jint, UbfLib, JvmAnswers, UbfState, on_world, in_context, with_buffer, exfail, at,
}
use endurox_java.Ubf.Info.{query, built_json, json_block, tpubftojson}
use endurox_java.Ubf.Values.{made_object}

module _ {B : Type 0} where
  -- A text comes with one block more than `n`, and without one there are `n` or one more.
  abbrev pub Keeps : (n : ℕ) → Option CString × UbfState B → Type 0
  Keeps n (some json, s) = s.blocks ≡ n + 1
  Keeps n (none, s) = (s.blocks ≡ n) ⊎ (s.blocks ≡ n + 1)

  built_json-Keeps :
      (object : ℕ) (built : Code ⊎ CString) (s : UbfState B)
      → Keeps s.blocks (built_json object built (record s { blocks = s.blocks + 1 }))
  unfolding built_json
  built_json-Keeps object (inl err) s = inr refl
  built_json-Keeps object (inr json) s = refl

  json_block-Keeps :
      (L : UbfLib B) (a : JvmAnswers) (object p : ℕ) (size : Jint) (s : UbfState B)
      → Keeps s.blocks (json_block L a object p size s)
  unfolding json_block
  json_block-Keeps L a object p exfail s = inl refl
  json_block-Keeps L a object p (at size) s =
      either (Keeps s.blocks) a.memory (built_json-Keeps object _ s) (inl refl)

  made_object-Keeps :
      (n : ℕ) (a : JvmAnswers) (r : Option CString × UbfState B)
      → Keeps n r
      → Keeps n (made_object a r)
  unfolding made_object
  made_object-Keeps n a (none, s) kept = kept
  made_object-Keeps n a (some json, s) kept = either (Keeps n) a.made kept (inr kept)

  unset-Keeps :
      (n : ℕ) (r : Option CString × UbfState B) → Keeps n r → Keeps n (r.0, on_world unset_ctx r.1)
  unset-Keeps n (none, s) kept = kept
  unset-Keeps n (some json, s) kept = kept

  query-Keeps :
      (a : JvmAnswers) (object : ℕ) (function : ℕ → UbfState B → Option CString × UbfState B)
      (s : UbfState B)
      → ((p : ℕ) (t : UbfState B) → Keeps t.blocks (function p t))
      → Keeps s.blocks (query a object none function s)
  unfolding query in_context with_buffer
  query-Keeps a object function s kept =
      let got = typed_buffer_get_ctx a.holder a.known true s.world in
      let t = record s { world = got.1 } in
      let found = get_buffer (some object) 0 false false false got.1 in
      let u = record s { world = found.1 } in
      either (Keeps s.blocks) got.0
        (unset-Keeps s.blocks _
          (either (Keeps s.blocks) found.0.ok (kept found.0.buf u) (inl refl)))
        (inl refl)

  -- Each text that tpubftojson returns has cost a block that nothing frees: there is one more behind the
  -- call. Without a text there is one more or none.
  pub tpubftojson-Keeps :
      (L : UbfLib B) (a : JvmAnswers) (object : ℕ) (s : UbfState B)
      → Keeps s.blocks (tpubftojson L a object s)
  unfolding tpubftojson
  tpubftojson-Keeps L a object s = made_object-Keeps s.blocks a _ (
      unset-Keeps s.blocks _ (
        query-Keeps a object _ s
          λ p t. json_block-Keeps L a object p (L.bsizeof (t.content p)).0 t))
