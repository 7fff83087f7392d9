-- ===== src/Exceptions/Backtrace.antt =====
-- libsrc/c/exceptions.c, `backtrace_recursive`: the text of an exception with its causes.
use mathlib.Core.List.{append_assoc, append-nil}
use endurox_java.Base.{
  ℕ, ◌+◌, ◌-◌, ◌≡◌, sym, ap, ap₂, ◌∙◌, inl, inr, Option, Option-cases, none, some, List, [], ◌∷◌,
  ◌++◌, arith,
}
use endurox_java.Base.Bytes.{CString, codes}

-- What the JVM gives for one exception: the frames of its stack, each or its text missing, and the
-- text of the exception.
pub record Trace : Type 0 where
  pub frames : Option (List (Option (Option CString)))
  pub message : Option CString

-- An exception with or without a cause.
pub data Throwable : Type 0 where
  uncaused : Trace → Throwable
  caused_by : Trace → Throwable → Throwable

-- The string that is built, and the local references that are held.
pub record Built : Type 0 where
  pub text : CString
  pub refs : ℕ

abbrev pub hold : Built → Built
hold o = record o { refs = o.refs + 1 }

abbrev pub drop_ref : Built → Built
drop_ref o = record o { refs = o.refs - 1 }

-- The text of a Java string, and a newline.
unfoldable pub print_string : Option CString → Built → Built
print_string none o = o
print_string (some m) o = drop_ref (record (hold o) { text = (o.text ++ m) ++ codes "\n" })

-- The loop over the frames; a frame that is NULL is passed over.
unfoldable pub print_frames : List (Option (Option CString)) → Built → Built
unfolding print_string
print_frames [] o = o
print_frames (none ∷ fs) o = print_frames fs o
print_frames (some m ∷ fs) o = print_frames fs (drop_ref (print_string m (hold o)))

-- `backtrace_recursive`
unfoldable pub backtrace_recursive : Throwable → Built → Built
unfolding print_string print_frames
backtrace_recursive (uncaused t) o = elim t.frames as (λ fs. Built) [
  | none ↦ o
  | some fs ↦ drop_ref (print_frames fs (print_string t.message (hold o)))
]
backtrace_recursive (caused_by t cause) o = elim t.frames as (λ fs. Built) [
  | none ↦ o
  | some fs ↦ drop_ref (
      drop_ref
        (backtrace_recursive cause (hold (print_frames fs (print_string t.message (hold o))))))
]

-- `ndrxj_exception_backtrace` of the exception that is passed, or else of the pending one, and the
-- local references that are held; without both the JNI is called with NULL, which it leaves open.
unfoldable pub exception_backtrace :
    (exc_in pending : Option Throwable) → (refs : ℕ) → Option CString × ℕ
unfolding backtrace_recursive
exception_backtrace (some exc) pending refs =
    let o = drop_ref (backtrace_recursive exc (record { text = []; refs = refs })) in
    (some o.text, o.refs)
exception_backtrace none (some exc) refs =
    let o = drop_ref (backtrace_recursive exc (record { text = []; refs = refs + 1 })) in
    (some o.text, o.refs)
exception_backtrace none none refs = (none, refs)

-- A text with a newline, for each text that is there.
abbrev pub line : Option CString → CString
line none = []
line (some m) = m ++ codes "\n"

abbrev pub frame_lines : List (Option (Option CString)) → CString
frame_lines [] = []
frame_lines (none ∷ fs) = frame_lines fs
frame_lines (some m ∷ fs) = line m ++ frame_lines fs

-- The lines of an exception and of its causes, down to the first without a stack.
abbrev pub all_lines : Throwable → CString
all_lines (uncaused t) = elim t.frames as (λ fs. CString) [
  | none ↦ []
  | some fs ↦ line t.message ++ frame_lines fs
]
all_lines (caused_by t cause) =
    let rest = all_lines cause in
    elim t.frames as (λ fs. CString) [
      | none ↦ []
      | some fs ↦ (line t.message ++ frame_lines fs) ++ rest
    ]

abbrev built : CString → ℕ → Built
built text refs = record { text = text; refs = refs }

print_string_lem :
    (m : Option CString) (o : Built) → print_string m o ≡ built (o.text ++ line m) o.refs
unfolding print_string
print_string_lem none o = ap (λ t. built t o.refs) (sym (append-nil o.text))
print_string_lem (some m) o = ap₂ built (append_assoc o.text m (codes "\n")) (omega arith)

print_frames_lem :
    (fs : List (Option (Option CString))) (o : Built)
    → print_frames fs o ≡ built (o.text ++ frame_lines fs) o.refs
unfolding print_frames
print_frames_lem [] o = ap (λ t. built t o.refs) (sym (append-nil o.text))
print_frames_lem (none ∷ fs) o = print_frames_lem fs o
print_frames_lem (some m ∷ fs) o =
    print_frames_lem fs (drop_ref (print_string m (hold o)))
    ∙ rw (print_string_lem m (hold o))
        (ap₂ built (append_assoc o.text (line m) (frame_lines fs)) (omega arith))

own_lines :
    (m : Option CString) (fs : List (Option (Option CString))) (o : Built)
    → print_frames fs (print_string m o) ≡ built (o.text ++ (line m ++ frame_lines fs)) o.refs
own_lines m fs o =
    print_frames_lem fs (print_string m o)
    ∙ rw (print_string_lem m o)
        (ap (λ t. built t o.refs) (append_assoc o.text (line m) (frame_lines fs)))

-- The backtrace of an exception appends the lines of the exception and of its causes, in order, down to
-- the first without a stack, and leaves the local references as they were.
pub backtrace_recursive_lem :
    (exc : Throwable) (o : Built)
    → backtrace_recursive exc o ≡ record { text = o.text ++ all_lines exc; refs = o.refs }
unfolding backtrace_recursive
backtrace_recursive_lem (uncaused t) o = elim (Option-cases t.frames) [
  | inl e ↦ rw (backtrace_recursive, e) (ap (λ x. built x o.refs) (sym (append-nil o.text)))
  | inr (fs, e) ↦
      rw (backtrace_recursive, e)
        (ap drop_ref (own_lines t.message fs (hold o))
          ∙ ap (built (o.text ++ (line t.message ++ frame_lines fs))) (omega arith))
]
backtrace_recursive_lem (caused_by t cause) o = elim (Option-cases t.frames) [
  | inl e ↦ rw (backtrace_recursive, e) (ap (λ x. built x o.refs) (sym (append-nil o.text)))
  | inr (fs, e) ↦
      let own = line t.message ++ frame_lines fs in
      let o' : Built = built (o.text ++ own) (o.refs + 1 + 1) in
      rw (backtrace_recursive, e)
        (ap (λ (x : Built). drop_ref (drop_ref (backtrace_recursive cause (hold x))))
            (own_lines t.message fs (hold o))
          ∙ ap (λ (x : Built). drop_ref (drop_ref x)) (backtrace_recursive_lem cause o')
          ∙ ap₂ built (append_assoc o.text own (all_lines cause)) (omega arith))
]
