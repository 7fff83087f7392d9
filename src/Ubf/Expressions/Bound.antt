-- ===== src/Ubf/Expressions/Bound.antt =====
-- The object that the functions of Java are called on, which goes through a variable of the thread.
use endurox_java.Buffers.{UbfCode}
use endurox_java.Base.{◌≡◌, some, ℕ}
use endurox_java.Base.Bytes.{CString}
use endurox_java.Ubf.{Jint, JvmAnswers, UbfState}
use endurox_java.Ubf.Expressions.{Callback, Evaluation, bbool_callback_function}
use endurox_java.Ubf.Values.{}

-- What a tree does on a buffer: its result, or a call of a function and what follows each answer.
pub data Program : Type 0 where
  result : Jint → UbfCode → Program
  asks : CString → (Jint → Program) → Program

module _ {B : Type 0} where
  unfoldable pub run_program : Callback B → Program → UbfState B → (Jint × UbfCode) × UbfState B
  run_program callback (result ret err) s = ((ret, err), s)
  run_program callback (asks funcname next) s =
      let (ret, s') = callback funcname s in run_program callback (next ret) s'

  -- The callback with its object as an argument.
  unfoldable pub bound : (ℕ → Callback B) → JvmAnswers → (object : ℕ) → Callback B
  bound dispatch a object funcname s =
      bbool_callback_function dispatch a funcname (record s { cb_ubf = some object })

  -- A function of Java that is called while the variable holds its object leaves it there: it evaluates
  -- nothing on another object, or its own object last.
  abbrev pub KeepsObject : (ℕ → Callback B) → Type 0
  KeepsObject dispatch =
      (object : ℕ) (funcname : CString) (s : UbfState B)
      → s.cb_ubf ≡ some object
      → (dispatch object funcname s).1.cb_ubf ≡ some object

-- The library runs the program of the tree on the buffer.
pub record Runs {B : Type 0} (eval : Evaluation B) : Type 0 where
  pub program : ℕ → B → Program
  pub runs :
      (callback : Callback B) (tree : ℕ) (b : B) (s : UbfState B)
      → eval callback tree b s ≡ run_program callback (program tree b) s
