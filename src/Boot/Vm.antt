-- ===== src/Boot/Vm.antt =====
-- libexjlds/exj.c, `ndrxj_ldr_getvm` and `ndrxj_run_main`: the JVM is configured from the section
-- [@java] and from CLASSPATH, created, and given its class loader.
pub mod Start
use endurox_java.Base.{
  ℕ, suc, ◌+◌, ◌-◌, Bool, true, false, not, ◌&&◌, ◌||◌, Option, none, some, List, [], ◌∷◌, ◌++◌,
  if◌then◌else◌, take,
}
use endurox_java.Base.Bytes.{CString, codes, str_eq}
use endurox_java.Boot.Index.{Tables, ClassIndex}
use endurox_java.Boot.ClassPath.{cp_proc}
use endurox_java.Boot.Jni.{Jni, Jvm}
use endurox_java.Boot.Handler.{run_ldr_main}

-- `ndrx_inicfg_section_keyval_t`
pub record KeyVal : Type 0 where
  pub key : CString
  pub val : CString

-- `0 == strncmp(val->key, "opts", 4)`
unfoldable pub is_opts : KeyVal → Bool
is_opts kv = str_eq (take 4 kv.key) (codes "opts")

-- What the function allocates.
pub data Holding : Type 0 where
  options_array section config class_path : Holding

-- The answers: the configuration, CLASSPATH, the JVM and its loader. `config_read` is none when it
-- cannot be loaded, and holds none when there is no configuration.
pub record Setup : Type 0 where
  pub config_read : Option Bool
  pub java_section : Option (List KeyVal)
  pub memory : Bool
  pub cp_env : Option CString
  pub jvm_created : Bool
  pub loader_ok : Bool
  pub exception : Bool

-- The statics of exj.c, the options handed to JNI_CreateJavaVM, whether a JVM runs, and what is
-- allocated.
pub record Vm : Type 0 where
  pub tables : Tables
  pub classpath_url : List CString
  pub options : List CString
  pub running : Bool
  pub held : List Holding
  -- whether `M_classpath_url` points to a list that was freed
  pub dangling : Bool

abbrev pub is_empty : List CString → Bool
is_empty [] = true
is_empty (x ∷ xs) = false

module _ (split_add : List CString → CString → Option (List CString)) where
  -- The loop over the section.
  unfoldable pub opts_loop : List KeyVal → Vm → Bool × Vm
  opts_loop [] v = (true, v)
  opts_loop (kv ∷ kvs) v =
      let (ok, urls) = cp_proc split_add v.classpath_url kv.val in
      let v' = record v { options = v.options ++ kv.val ∷ []; classpath_url = urls } in
      let taken = opts_loop kvs v' in
      let passed = opts_loop kvs v in
      if not (is_opts kv) then passed else if ok then taken else (false, v')

  -- The options from the configuration.
  unfoldable pub read_config : Setup → Vm → Bool × Vm
  read_config s v = elim s.config_read [
    | none ↦ (false, v)
    | some false ↦ (true, v)
    | some true ↦
        let v1 = record v { held = config ∷ v.held } in
        elim s.java_section [
          | none ↦ (false, v1)
          | some out ↦
              let v2 = record v1 { held = section ∷ v1.held } in
              if s.memory
              then opts_loop out (record v2 { held = options_array ∷ v2.held })
              else (false, v2)
        ]
  ]

  -- The class path from the environment.
  unfoldable pub read_env : Setup → Vm → Bool × Vm
  read_env s v = elim s.cp_env [
    | none ↦ (true, v)
    | some cp_env ↦ elim (split_add v.classpath_url cp_env) [
      | none ↦ (false, v)
      | some urls ↦ (true, record v { classpath_url = urls })
    ]
  ]

  -- JNI_CreateJavaVM, `create_loader`, and the test for a pending exception.
  unfoldable pub create : Setup → Vm → Bool × Vm
  create s v =
      if s.jvm_created
      then (s.loader_ok && not s.exception, record v { running = true })
      else (false, v)

  -- Behind `out:` each pointer that is not NULL is freed; `M_classpath_url` keeps its value.
  unfoldable pub free_all : Vm → Vm
  free_all v = record v { held = []; dangling = v.dangling || not (is_empty v.classpath_url) }

  -- `ndrxj_ldr_getvm`; true is a result other than NULL.
  unfoldable pub getvm : Tables → Setup → Vm → Bool × Vm
  getvm tables s v =
      let (ok1, v1) = read_config s (record v { tables = tables; options = [] }) in
      let (ok2, v2) = read_env s v1 in
      let (ok3, v3) = create s v2 in
      if not ok1
      then (false, free_all v1)
      else if not ok2
      then (false, free_all v2)
      else (ok3, free_all v3)

  -- `ndrxj_run_main`, argc counting the name of the program.
  unfoldable pub run_main :
      (argc : ℕ) → Tables → (test_mode : Bool) → Setup → Jni → Vm → Jvm → Bool × Vm × Jvm
  run_main argc tables test_mode s jni v j =
      let (got, v') = getvm tables s v in
      let (ok, j') = run_ldr_main jni (argc - 1) test_mode j in
      if not got then (false, v', j) else (ok, record v' { running = false }, j')
