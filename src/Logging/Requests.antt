-- ===== src/Logging/Requests.antt =====
-- libsrc/c/logging.c, from `tplogsetreqfile` to `tplogconfig`: the files that requests are logged to.
-- The functions of Enduro/X enter as `RequestLib`, over a type `L` of what they keep.
pub mod Kept
use endurox_java.Base.{if◌then◌else◌, ℕ, ◌⊎◌, inl, inr, Bool, false, true, Option, none, some}
use endurox_java.Base.Bytes.{CString}
use endurox_java.Buffers.{
  World, Code, out_of_memory, get_ctx, unset_ctx, atmi_throw, nullptr_throw, get_buffer,
}
use endurox_java.Logging.{Chars, Logs, take_given, release_chars}

-- The functions of the library; the first gives the address of the buffer behind it.
pub record RequestLib (L : Type 0) : Type 0 where
  pub set_file : (buf : ℕ) → (filename filesvc : Option CString) → L → Option Code × ℕ × L
  pub buffer_file : (buf : ℕ) → L → Code ⊎ CString
  pub delete_file : (buf : ℕ) → L → Option Code × L
  pub current_file : L → Option CString
  pub set_direct : CString → L → L
  pub close_file : L → L
  pub config :
      (logger lev : ℕ) → (debug_string module_code new_file : Option CString) → L → Option Code × L

pub record Files (L : Type 0) : Type 0 where
  pub logs : Logs
  pub files : L

-- The pointer, or NULL.
abbrev pub text_of : Option Chars → Option CString
text_of none = none
text_of (some c) = some c.bytes

-- The methods, with what they are called with, `known` excepted.
pub data FileCall : Type 0 where
  tplogsetreqfile : (data_of : Option ℕ) → (filename filesvc : Option Chars) → FileCall
  tploggetbufreqfile : (memory : Bool) → (data_of : Option ℕ) → FileCall
  tplogdelbufreqfile : (data_of : Option ℕ) → FileCall
  tploggetreqfile : (memory : Bool) → FileCall
  tplogsetreqfile_direct : (filename : Option Chars) → FileCall
  tplogclosereqfile : FileCall
  tplogconfig : (logger lev : ℕ) → (debug_string module_code new_file : Option Chars) → FileCall

module _ {L : Type 0} where
  abbrev pub on_world : (World → World) → Files L → Files L
  on_world f s = record s { logs = record s.logs { world = f s.logs.world } }

  unfoldable pub take_file : Option Chars → Files L → Files L
  take_file c s = record s { logs = take_given c s.logs }

  unfoldable pub release_file : Option Chars → Files L → Files L
  release_file c s = record s { logs = release_chars c s.logs }

  -- The context up to the switch back behind `out:`.
  unfoldable pub with_ctx :
      (known : Bool)
      → (body : Files L → Option CString × Files L) → Files L
      → Option CString × Files L
  with_ctx known body s =
      let (got, w) = get_ctx known true s.logs.world in
      let t = on_world (λ v. w) s in
      let (name, u) = body t in
      if got then (name, on_world unset_ctx u) else (none, on_world unset_ctx t)

  -- `ndrxj_atmi_TypedBuffer_get_buffer` and what follows it up to `out:`.
  unfoldable pub with_data :
      (data_of : Option ℕ)
      → (body : ℕ → Files L → Option CString × Files L) → Files L
      → Option CString × Files L
  with_data data_of body s =
      let (g, w) = get_buffer data_of 0 false false false s.logs.world in
      let t = on_world (λ v. w) s in if g.ok then body g.buf t else (none, t)

  -- The throw when the call has failed.
  unfoldable pub checked : (data_of : Option ℕ) → Option Code → Files L → Option CString × Files L
  checked data_of none s = (none, s)
  checked data_of (some err) s = (none, on_world (atmi_throw data_of false err) s)

  -- NewStringUTF, when there is a name.
  unfoldable pub name_string : (memory : Bool) → Option CString → Files L → Option CString × Files L
  name_string memory none s = (none, s)
  name_string memory (some name) s =
      if memory
      then (some name, s)
      else (none, on_world (λ w. record w { pending = some out_of_memory }) s)

  -- `tplogsetreqfile`; the address that the library gives back is dropped.
  unfoldable pub set_reqfile :
      RequestLib L
      → (data_of : Option ℕ) → (filename filesvc : Option Chars) → Files L
      → Option CString × Files L
  set_reqfile R data_of filename filesvc = with_data data_of (λ buf s.
      let t = take_file filesvc (take_file filename s) in
      let (failed, moved, files) = R.set_file buf (text_of filename) (text_of filesvc) t.files in
      let (name, u) = checked data_of failed (record t { files = files }) in
      (name, release_file filesvc (release_file filename u)))

  -- `tploggetbufreqfile`
  unfoldable pub got_name :
      (memory : Bool) → (data_of : Option ℕ) → Code ⊎ CString → Files L → Option CString × Files L
  got_name memory data_of (inl err) s = checked data_of (some err) s
  got_name memory data_of (inr name) s = name_string memory (some name) s

  unfoldable pub get_buf_reqfile :
      RequestLib L → (memory : Bool) → (data_of : Option ℕ) → Files L → Option CString × Files L
  get_buf_reqfile R memory none s = (none, on_world nullptr_throw s)
  get_buf_reqfile R memory (some i) s =
      with_data (some i) (λ buf t. got_name memory (some i) (R.buffer_file buf t.files) t) s

  -- `tplogdelbufreqfile`
  unfoldable pub del_buf_reqfile :
      RequestLib L → (data_of : Option ℕ) → Files L → Option CString × Files L
  del_buf_reqfile R none s = (none, on_world nullptr_throw s)
  del_buf_reqfile R (some i) s =
      with_data (some i)
        (λ buf t.
          let (failed, files) = R.delete_file buf t.files in
          checked (some i) failed (record t { files = files }))
        s

  -- `tplogsetreqfile_direct`
  unfoldable pub set_reqfile_direct :
      RequestLib L → (filename : Option Chars) → Files L → Option CString × Files L
  set_reqfile_direct R none s = (none, on_world nullptr_throw s)
  set_reqfile_direct R (some c) s =
      let t = take_file (some c) s in
      (none, release_file (some c) (record t { files = R.set_direct c.bytes t.files }))

  -- `tplogconfig`
  unfoldable pub set_config :
      RequestLib L
      → (logger lev : ℕ) → (debug_string module_code new_file : Option Chars) → Files L
      → Option CString × Files L
  set_config R logger lev debug_string module_code new_file s =
      let t = take_file new_file (take_file module_code (take_file debug_string s)) in
      let (failed, files) =
        R.config logger lev (text_of debug_string) (text_of module_code) (text_of new_file)
          t.files in
      let (name, u) = checked none failed (record t { files = files }) in
      (name, release_file new_file (release_file module_code (release_file debug_string u)))

  -- A method, between the context and `out:`.
  unfoldable pub file_body : RequestLib L → FileCall → Files L → Option CString × Files L
  file_body R (tplogsetreqfile o f g) = set_reqfile R o f g
  file_body R (tploggetbufreqfile memory o) = get_buf_reqfile R memory o
  file_body R (tplogdelbufreqfile o) = del_buf_reqfile R o
  file_body R (tploggetreqfile memory) = λ s. name_string memory (R.current_file s.files) s
  file_body R (tplogsetreqfile_direct f) = set_reqfile_direct R f
  file_body R tplogclosereqfile = λ s. (none, record s { files = R.close_file s.files })
  file_body R (tplogconfig logger lev d m f) = set_config R logger lev d m f

  unfoldable pub run_file :
      RequestLib L → (known : Bool) → FileCall → Files L → Option CString × Files L
  run_file R known c = with_ctx known (file_body R c)
