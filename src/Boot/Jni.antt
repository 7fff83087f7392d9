-- ===== src/Boot/Jni.antt =====
-- The part of the Java Native Interface that libexjlds/ uses: local references, which live
-- until they are deleted, method look-ups and calls that may throw. What the JVM answers is an
-- argument.
use endurox_java.Base.{ℕ, ◌+◌, Bool, List, [], ◌∷◌, ◌==◌, if◌then◌else◌}

-- The local references, named for the variables that hold them; `arg_string i` is that of argument i,
-- `url_string i` and `url_object i` are what one variable each holds for element i of the class path.
pub data Ref : Type 0 where
  class_class loader_class str_class args main_class run_str thread_class cur_thread cp_urls
        name_str :
      Ref
  found_class url_class : Ref
  arg_string url_string url_object : ℕ → Ref

unfoldable pub label : Ref → ℕ
label class_class = 0
label loader_class = 1
label str_class = 2
label args = 3
label main_class = 4
label run_str = 5
label thread_class = 6
label cur_thread = 7
label cp_urls = 8
label name_str = 9
label found_class = 10
label url_class = 11
label (url_string i) = 12
label (url_object i) = 13
label (arg_string i) = i + 14

pub data Method : Type 0 where
  load_class run_method current_thread set_context url_init : Method
  set_element : ℕ → Method

-- The answers of the JVM: whether a call gives a reference, whether a method is there, and whether
-- an exception is pending after a call.
pub record Jni : Type 0 where
  pub gives : Ref → Bool
  pub has : Method → Bool
  pub throws : Method → Bool

-- The live local references, whether an unset variable was used, and how often the Java main ran.
pub record Jvm : Type 0 where
  pub live : List Ref
  pub undefined : Bool
  pub mains : ℕ

unfoldable pub remove : Ref → List Ref → List Ref
unfolding label
remove r [] = []
remove r (s ∷ l) = let rest = remove r l in if label r == label s then l else s ∷ rest

unfoldable pub acquire : Ref → Jvm → Jvm
acquire r j = record j { live = r ∷ j.live }

-- DeleteLocalRef
unfoldable pub release : Ref → Jvm → Jvm
unfolding remove
release r j = record j { live = remove r j.live }

-- `if (NULL != x) DeleteLocalRef(x)`
unfoldable pub release_if : Bool → Ref → Jvm → Jvm
unfolding release
release_if b r j = if b then release r j else j
