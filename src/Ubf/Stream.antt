-- ===== src/Ubf/Stream.antt =====
-- libsrc/c/TypedUbf_Bprint.c: `Bread`, `Bwrite` and `Bextread`, which hand callbacks to the library.
-- Breadcb, Bwritecb and Bextreadcb are arguments, functions of the callback and of its state.
pub mod Reread
pub mod Written
use endurox_java.Base.{
  ℕ, ◌+◌, ◌-◌, Bool, true, not, ◌||◌, Option, none, some, List, [], ◌∷◌, ◌++◌, ltb, ◌==◌,
  if◌then◌else◌, take, drop, length,
}
use endurox_java.Base.Bytes.{CString, fit}
use endurox_java.Ubf.Values.{made_object}
use endurox_java.Buffers.{beinval, beunix, out_of_memory, ubf_throw}
use endurox_java.Ubf.{
  Status, Jint, exfail, at, JvmAnswers, UbfState, on_world, take_elements, release_elements,
  in_context, with_buffer, apply,
}

-- `rw_data_t`; `buf` is `none` for NULL.
pub record RwData : Type 0 where
  pub offset : ℕ
  pub buf : Option (List ℕ)
  pub size : ℕ

-- What `dataptr1` leads to: `rw_data_t`, and the state behind the JNI environment.
pub record Stream (B : Type 0) : Type 0 where
  pub ctl : RwData
  pub state : UbfState B

-- A line of the reader of Java, or the exception in its place.
pub data Line : Type 0 where
  line : CString → Line
  read_fails : Line

pub record Reader (B : Type 0) : Type 0 where
  pub lines : List Line
  pub local_refs : ℕ
  pub state : UbfState B

abbrev pub bytes_of : Option (List ℕ) → List ℕ
bytes_of none = []
bytes_of (some bytes) = bytes

module _ {B : Type 0} where
  abbrev pub start : (buf : Option (List ℕ)) → (size : ℕ) → UbfState B → Stream B
  start buf size s = record { ctl = record { offset = 0; buf = buf; size = size }; state = s }

  abbrev pub undefined_if : Bool → UbfState B → UbfState B
  undefined_if b s = on_world (λ w. record w { undefined = b || w.undefined }) s

  -- `Bread_readf`: what it returns and the bytes that it writes to `buffer`, which has `bufsz` bytes.
  unfoldable pub bread_readf : (bufsz : ℕ) → Stream B → (Jint × List ℕ) × Stream B
  bread_readf bufsz st =
      let ctl = st.ctl in
      let bytes = bytes_of ctl.buf in
      let left = ctl.size - ctl.offset in
      if not (ctl.offset == 0)
      then (
        (at left, drop ctl.offset bytes),
        record st { state = undefined_if (ltb bufsz left) st.state },
      )
      else if ltb ctl.size bufsz
      then ((exfail, []), record st { state = on_world (ubf_throw beinval) st.state })
      else ((at bufsz, take bufsz bytes), record st { ctl = record ctl { offset = bufsz } })

  -- `Bread`. The elements are taken in front of the context, and the return without one keeps them.
  unfoldable pub bread :
      ((ℕ → Stream B → (Jint × List ℕ) × Stream B) → B → Stream B → (Status × B) × Stream B)
      → JvmAnswers
      → (object : ℕ) → List ℕ
      → UbfState B
      → UbfState B
  bread breadcb a object jb s =
      (in_context a tt
        (λ s1. (
          tt,
          release_elements a
              (with_buffer (some object) tt
                (λ p s2.
                  let (result, st) =
                    breadcb bread_readf (s2.content p) (start (some jb) (length jb) s2) in
                  (tt, apply p result st.state))
                s1).1,
        ))
        (take_elements a s)).1

  -- `Bwrite_writef`; `grows` says of which sizes malloc and realloc give a block. When realloc fails,
  -- the block that was there is kept nowhere.
  unfoldable pub bwrite_writef : (grows : ℕ → Bool) → (buffer : List ℕ) → Stream B → Jint × Stream B
  bwrite_writef grows buffer st =
      let ctl = st.ctl in
      let s = st.state in
      let bufsz = length buffer in
      let newsz = ctl.offset + bufsz in
      let grown : List ℕ → RwData =
        λ bytes. record ctl { offset = newsz; buf = some (take ctl.offset bytes ++ buffer) } in
      let lost : Stream B = record {
        ctl = record ctl { buf = none };
        state = on_world (ubf_throw beunix) s;
      } in
      elim ctl.buf as (λ b. Jint × Stream B) [
        | none ↦
            if grows bufsz
            then (
              at bufsz,
              record {
                ctl = grown [];
                state = undefined_if (not (ctl.offset == 0)) (record s { blocks = s.blocks + 1 });
              },
            )
            else (exfail, lost)
        | some bytes ↦
            if grows newsz
            then (at bufsz, record { ctl = grown bytes; state = s })
            else (exfail, lost)
      ]

  -- `if (NULL!=ctl.buf) NDRX_FREE(ctl.buf)`
  abbrev pub free_buf : Option (List ℕ) → UbfState B → UbfState B
  free_buf none s = s
  free_buf (some bytes) s = record s { blocks = s.blocks - 1 }

  -- `Bwrite` behind the call of Bwritecb: the throw, or the array of Java; `none` is NULL.
  unfoldable pub bwrite_out : JvmAnswers → Status × Stream B → Option (List ℕ) × UbfState B
  bwrite_out a (some err, st) = (none, free_buf st.ctl.buf (on_world (ubf_throw err) st.state))
  bwrite_out a (none, st) =
      let (ret, s) = made_object a (some (take st.ctl.offset (bytes_of st.ctl.buf)), st.state) in
      (ret, free_buf st.ctl.buf s)

  -- `Bwrite`
  unfoldable pub bwrite :
      ((List ℕ → Stream B → Jint × Stream B) → B → Stream B → Status × Stream B)
      → (grows : ℕ → Bool) → JvmAnswers
      → (object : ℕ) → UbfState B
      → Option (List ℕ) × UbfState B
  bwrite bwritecb grows a object = in_context a none (
      with_buffer (some object) none
        (λ p s. bwrite_out a (bwritecb (bwrite_writef grows) (s.content p) (start none 0 s))))

  -- `Bextread_readf`: the context is put aside around the call of Java and set behind it. The string
  -- that Java returned is a local reference, which stays.
  unfoldable pub bextread_readf : JvmAnswers → (bufsz : ℕ) → Reader B → (Jint × CString) × Reader B
  bextread_readf a bufsz r =
      let s = on_world (λ w. record w { ctx_set = true }) r.state in
      elim r.lines as (λ l. (Jint × CString) × Reader B) [
        | [] ↦ ((at 0, []), record r { state = s })
        | ◌∷◌ l rest ↦ elim l as (λ x. (Jint × CString) × Reader B) [
          | read_fails ↦ (
            (exfail, []),
            record r {
              lines = rest;
              state = on_world (λ w. record w { pending = some out_of_memory }) s;
            },
          )
          | line text ↦ (
            (at (length (fit bufsz text) + 1), fit bufsz text),
            record {
              lines = rest;
              local_refs = r.local_refs + 1;
              state = release_elements a (take_elements a s);
            },
          )
        ]
      ]

  -- `Bextread`
  unfoldable pub bextread :
      ((ℕ → Reader B → (Jint × CString) × Reader B) → B → Reader B → (Status × B) × Reader B)
      → JvmAnswers
      → (object : ℕ) → List Line
      → UbfState B
      → UbfState B
  bextread bextreadcb a object lines s =
      (in_context a tt
        (λ s1.
          with_buffer (some object) tt
            (λ p s2.
              let (result, r) =
                bextreadcb (bextread_readf a) (s2.content p)
                  (record { lines = lines; local_refs = 0; state = s2 }) in
              (tt, apply p result r.state))
            s1)
        s).1
