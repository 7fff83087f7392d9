-- ===== src/Tests/Ubf.antt =====
-- The theorems on TypedUbf, applied with a small library: a buffer is the list of the values of one field
-- of type long.
use endurox_java.Tests.Calls.{start}
use endurox_java.Base.{
  ap, get_elem?, ◌≡◌, refl, ◌⊎◌, inl, inr, true, false, none, some, List, [], ◌∷◌, ◌++◌, ℕ, ◌+◌,
  ltb, ◌==◌, length, arith,
}
use endurox_java.Base.Bytes.{codes}
use endurox_java.Buffers.{
  UbfCode, atmi_throw, ubf_throw, unset_ctx, get_ctx, typed_buffer_get_ctx, get_buffer, typed_ubf,
  bminval, other_berror, ubf_exception,
}
use endurox_java.Ubf.{
  FieldType, Value, Jint, Status, UbfLib, JvmAnswers, UbfState, take_elements, release_elements,
  in_context, with_buffer, apply, bfld_short, bfld_long, bfld_char, bfld_float, bfld_double,
  bfld_string, bfld_carray, at, next_end,
}
use endurox_java.Ubf.Calls.{run_ubf, run_ubf-Leaves, bproj_of}
use endurox_java.Ubf.Expressions.{Callback, Evaluation, named, on_object, bbool_callback_function}
use endurox_java.Ubf.Expressions.Bound.{run_program, Runs, result, asks}
use endurox_java.Ubf.Fields.{Block, copy_fields, read_fields, get_elem?-append, copy_fields_lem}
use endurox_java.Ubf.Info.{tpubftojson}
use endurox_java.Ubf.Json.{Keeps, tpubftojson-Keeps}
use endurox_java.Ubf.Project.{fields_call}
use endurox_java.Ubf.Project.Listed.{Alike, fields_call_lem}
use endurox_java.Ubf.Runs.{reachable}
use endurox_java.Ubf.Stream.{Stream, bread_readf, bread, bwrite_writef, bwrite_out, bwrite}
use endurox_java.Ubf.Stream.Reread.{ask_twice, Reads, bwrite-bread}
use endurox_java.Ubf.Stream.Written.{hand_out, Writes}
use endurox_java.Ubf.Values.{
  change, ubf_cbadd, with_value, badd, made_object, bget, bget_object, jlong,
}
use endurox_java.Ubf.Values.Returned.{KeepsValues, badd-bget}

abbrev unsupported : UbfCode
unsupported = other_berror 11

abbrev kept : List ℕ → List ℕ → Status × List ℕ
kept [] b = (none, [])
kept (id ∷ ids) b = (none, b)

abbrev added : (t : FieldType) → Value t → List ℕ → Status × List ℕ
added bfld_long v b = (none, b ++ v ∷ [])
added bfld_short v b = (some unsupported, b)
added bfld_char v b = (some unsupported, b)
added bfld_float v b = (some unsupported, b)
added bfld_double v b = (some unsupported, b)
added bfld_string v b = (some unsupported, b)
added bfld_carray v b = (some unsupported, b)

abbrev looked_up : ℕ → (t : FieldType) → List ℕ → UbfCode ⊎ Value t
looked_up n bfld_long b = elim (get_elem? b n) as (λ v. UbfCode ⊎ ℕ) [
  | none ↦ inl unsupported
  | some v ↦ inr v
]
looked_up n bfld_short b = inl unsupported
looked_up n bfld_char b = inl unsupported
looked_up n bfld_float b = inl unsupported
looked_up n bfld_double b = inl unsupported
looked_up n bfld_string b = inl unsupported
looked_up n bfld_carray b = inl unsupported

abbrev one_field : UbfLib (List ℕ)
one_field = record {
  bproj = kept;
  bdelete = λ ids b. (none, []);
  bprojcpy = λ ids dst src. kept ids src;
  bconcat = λ dst src. (none, dst ++ src);
  bcpy = λ dst src. (none, src);
  bupdate = λ dst src. (none, src);
  bjoin = λ dst src. (none, src);
  bojoin = λ dst src. (none, src);
  bcmp = λ b c. (at 0, bminval);
  bsubset = λ b c. (at 1, bminval);
  bdel = λ id n b. (some unsupported, b);
  bdelall = λ id b. (none, []);
  cbadd = λ id. added;
  cbchg = λ id n t v b. (some unsupported, b);
  cbfind = λ id n t b. looked_up n t b;
  bfldtype = λ id. bfld_long;
  bpres = λ id n b. ltb n (length b);
  bisubf = λ b. true;
  blen = λ id n b. (at 8, bminval);
  bnext = λ id b. (next_end, b);
  boccur = λ id b. at (length b);
  bsizeof = λ b. (at 100, bminval);
  bunused = λ b. at 0;
  bused = λ b. at 100;
  bnum = λ b. at (length b);
  binit = λ n b. (none, []);
  bprint = λ b. none;
  tpjsontoubf = λ json b. (none, []);
  tpubftojson = λ n b. inr (codes "{}");
  baddfast = λ id t v loc b. (some unsupported, loc, b);
}

one_field-KeepsValues : KeepsValues one_field
one_field-KeepsValues = record { found = found }
  where
    found :
        (bfldid n : ℕ) (t : FieldType) (v : Value t) (b b' : List ℕ)
        → bfld_long ≡ t
        → at (length b) ≡ at n
        → added t v b ≡ (none, b')
        → looked_up n t b' ≡ inr v
    found bfldid n bfld_long v b b' type occurs did =
        let length_b : n ≡ length b = cc in
        let appended : b ++ v ∷ [] ≡ b' = cc in
        rw (← appended, length_b)
          (ap (λ o. elim o as (λ u. UbfCode ⊎ ℕ) [ none ↦ inl unsupported | some u ↦ inr u ])
            (get_elem?-append b v []))
    found bfldid n bfld_short v b b' type occurs did = cc
    found bfldid n bfld_char v b b' type occurs did = cc
    found bfldid n bfld_float v b b' type occurs did = cc
    found bfldid n bfld_double v b b' type occurs did = cc
    found bfldid n bfld_string v b b' type occurs did = cc
    found bfldid n bfld_carray v b b' type occurs did = cc

-- Buffers at 7 and 8, held by the objects 0 and 1.
abbrev two : UbfState (List ℕ)
two = record {
  world = record start {
    objects = λ i. record { clazz = typed_ubf; do_finalize = true; c_ptr = i + 7; len = 100 };
    pending = none;
  };
  content = λ p. p ∷ [];
  copies = 0;
  blocks = 0;
  cb_ubf = none;
  trees = 0;
}

abbrev all_given : JvmAnswers
all_given = record { holder = true; known = true; copy = true; memory = true; made = true }

copy_fields_lem_example :
    (barra : Block) × (copy_fields (3 ∷ 5 ∷ []) ≡ some barra)
    × (length barra ≡ 3)
    × (read_fields barra ≡ some (3 ∷ 5 ∷ []))
copy_fields_lem_example = copy_fields_lem (3 ∷ 5 ∷ [])

fields_call_lem_example :
    Alike (fields_call kept all_given 0 (3 ∷ []) two) (change (kept (3 ∷ [])) all_given 0 two)
fields_call_lem_example = fields_call_lem kept all_given 0 (3 ∷ []) two refl

run_ubf-Leaves_example :
    ((run_ubf one_field
          (record { object = 0; answers = all_given; call = bproj_of (3 ∷ []) } ∷ [])
          two).content
        9
      ≡ 9 ∷ [])
    × ((run_ubf one_field
          (record { object = 0; answers = all_given; call = bproj_of (3 ∷ []) } ∷ [])
          two).world.objects
        ≡ two.world.objects)
    × ((run_ubf one_field
          (record { object = 0; answers = all_given; call = bproj_of (3 ∷ []) } ∷ [])
          two).copies
        ≡ 0)
    × ((run_ubf one_field
          (record { object = 0; answers = all_given; call = bproj_of (3 ∷ []) } ∷ [])
          two).blocks
        ≡ 0)
    × ((run_ubf one_field
          (record { object = 0; answers = all_given; call = bproj_of (3 ∷ []) } ∷ [])
          two).trees
        ≡ 0)
run_ubf-Leaves_example =
    run_ubf-Leaves one_field
      (record { object = 0; answers = all_given; call = bproj_of (3 ∷ []) } ∷ []) 9 two
      (omega arith, tt)

tpubftojson-Keeps_example : Keeps 0 (tpubftojson one_field all_given 0 two)
tpubftojson-Keeps_example = tpubftojson-Keeps one_field all_given 0 two

badd_quiet : (badd one_field (reachable all_given) 0 3 (jlong 42) two).world.pending ≡ none
unfolding badd with_value ubf_cbadd change in_context typed_buffer_get_ctx get_ctx with_buffer
    get_buffer apply unset_ctx
badd_quiet = refl

badd-bget_example :
    ((bget one_field
        (reachable all_given)
        0
        3
        1
        bfld_long
        (badd one_field (reachable all_given) 0 3 (jlong 42) two)).0
      ≡ some 42)
    × ((bget_object one_field
          (record (reachable all_given) { made = true })
          0
          3
          1
          bfld_long
          (badd one_field (reachable all_given) 0 3 (jlong 42) two)).0
        ≡ some 42)
badd-bget_example =
    badd-bget one_field one_field-KeepsValues all_given all_given 0 3 1 bfld_long 42 two refl refl
      badd_quiet

abbrev write_cb :
    (List ℕ → Stream (List ℕ) → Jint × Stream (List ℕ))
    → List ℕ
    → Stream (List ℕ)
    → Status × Stream (List ℕ)
write_cb writef b st = hand_out writef unsupported ((length b ∷ []) ∷ b ∷ []) st

abbrev write_cb-Writes : Writes write_cb
write_cb-Writes = record {
  parts = λ b. (length b ∷ []) ∷ b ∷ [];
  failure = unsupported;
  hands_out = λ f b st. refl;
}

abbrev body_length : List ℕ → ℕ
body_length [] = 0
body_length (n ∷ ns) = n

abbrev read_cb :
    (ℕ → Stream (List ℕ) → (Jint × List ℕ) × Stream (List ℕ))
    → List ℕ
    → Stream (List ℕ)
    → (Status × List ℕ) × Stream (List ℕ)
read_cb readf b st = ask_twice readf 1 body_length (λ head body. (none, body)) unsupported b st

abbrev read_cb-Reads : Reads read_cb
read_cb-Reads = record {
  header = 1;
  needed = body_length;
  build = λ head body. (none, body);
  failure = unsupported;
  asks = λ f b st. refl;
}

bwrite-bread_example :
    (bytes : List ℕ) × ((bwrite write_cb
        (λ n. true)
        (record (reachable all_given) { made = true })
        0
        two).0
      ≡ some bytes)
    × ((bread read_cb (reachable all_given) 1 bytes two).content 8 ≡ 7 ∷ [])
    × ((bread read_cb (reachable all_given) 1 bytes two).world
        ≡ record two.world { ctx_set = false })
    × ((bread read_cb (reachable all_given) 1 bytes two).copies ≡ 0)
bwrite-bread_example =
    bwrite-bread write_cb read_cb write_cb-Writes read_cb-Reads all_given all_given 0 1 (1 ∷ [])
      (7 ∷ []) two two refl refl refl refl (omega arith) refl refl

abbrev ask_one : Evaluation (List ℕ)
ask_one callback tree b s = run_program callback (asks (codes "f") (λ ret. result ret bminval)) s

-- A function of Java behind which an evaluation on its own object has set the variable.
abbrev own : ℕ → Callback (List ℕ)
own object funcname s = (at object, record s { cb_ubf = some object })

-- A function of Java that evaluates on another object: the next function is called on that one.
abbrev nested : ℕ → Callback (List ℕ)
nested object funcname s = (at object, record s { cb_ubf = some 0 })

abbrev ask_two : Evaluation (List ℕ)
ask_two callback tree b s =
    run_program callback (asks (codes "f") (λ _. asks (codes "g") (λ ret. result ret bminval))) s

nested_astray :
    (ask_two (bbool_callback_function nested all_given) 5 [] (record two { cb_ubf = some 1 })).0
    ≡ (at 0, bminval)
unfolding run_program bbool_callback_function named on_object unset_ctx
nested_astray = refl

-- Bread of fewer bytes than the header throws, and the error of the library follows.
read_short : (bread read_cb all_given 1 [] two).world.pending ≡ some (ubf_exception unsupported)
unfolding bread bread_readf ask_twice in_context typed_buffer_get_ctx get_ctx with_buffer get_buffer
    apply unset_ctx take_elements release_elements ubf_throw
read_short = refl

-- More bytes than the library asks for are written behind its buffer.
read_long : (bread read_cb all_given 1 (1 ∷ 7 ∷ 7 ∷ []) two).world.undefined ≡ true
unfolding bread bread_readf ask_twice in_context typed_buffer_get_ctx get_ctx with_buffer get_buffer
    apply unset_ctx take_elements release_elements ubf_throw
read_long = refl

-- When realloc fails, the block of the first part stays allocated.
write_fails : (bwrite write_cb (λ n. n == 1) all_given 0 two).1.blocks ≡ 1
unfolding bwrite bwrite_out bwrite_writef hand_out in_context typed_buffer_get_ctx get_ctx
    with_buffer get_buffer unset_ctx ubf_throw made_object
write_fails = refl

-- Without a context Bread keeps the copy of its array.
read_keeps : (bread read_cb (record all_given { known = false }) 1 (1 ∷ 7 ∷ []) two).copies ≡ 1
unfolding bread in_context typed_buffer_get_ctx get_ctx take_elements atmi_throw
read_keeps = refl
