-- ===== src/Logging/Requests/Kept.antt =====
-- What the methods for request files leave as it was.
use endurox_java.Logging.Requests.{
  tplogclosereqfile, tplogconfig, tplogsetreqfile_direct, tploggetreqfile, tplogdelbufreqfile,
  tploggetbufreqfile, text_of, tplogsetreqfile, set_config, set_reqfile_direct, del_buf_reqfile,
  got_name, get_buf_reqfile, set_reqfile, run_file, FileCall, file_body, on_world, release_file,
  take_file, RequestLib, name_string, checked, with_ctx, Files, with_data,
}
use endurox_java.Base.{
  ◌⊎◌, ℕ, ◌≡◌, refl, ap, ◌∙◌, Bool, true, false, Option, none, some, inl, inr, List, [], ◌∷◌,
  set_at_same, either, arith,
}
use endurox_java.Base.Bytes.{CString}
use endurox_java.Buffers.{World, Code, get_ctx, unset_ctx, atmi_throw, nullptr_throw, get_buffer}
use endurox_java.Logging.{Chars, take_chars, take_given, release_chars}

-- The methods in turn, each with whether its object holds a context.
abbrev pub run_files : {L : Type 0} → RequestLib L → List (Bool × FileCall) → Files L → Files L
run_files R [] s = s
run_files R ((known, c) ∷ cs) s = run_files R cs (run_file R known c s).1

-- No entry is written, no copy is kept and no object has changed.
pub record FilesKeep {L : Type 0} (s t : Files L) : Type 0 where
  pub entries : t.logs.entries ≡ s.logs.entries
  pub copies : t.logs.copies ≡ s.logs.copies
  pub objects : t.logs.world.objects ≡ s.logs.world.objects

get_ctx_objects : (known : Bool) (w : World) → (get_ctx known true w).1.objects ≡ w.objects
unfolding get_ctx atmi_throw
get_ctx_objects true w = refl
get_ctx_objects false w = refl

module _ {L : Type 0} where
  FilesKeep-refl : (s : Files L) → FilesKeep s s
  FilesKeep-refl s = record { entries = refl; copies = refl; objects = refl }

  FilesKeep-trans : {s t u : Files L} → FilesKeep s t → FilesKeep t u → FilesKeep s u
  FilesKeep-trans k l = record {
    entries = l.entries ∙ k.entries;
    copies = l.copies ∙ k.copies;
    objects = l.objects ∙ k.objects;
  }

  on_world-FilesKeep :
      (f : World → World) (s : Files L)
      → (f s.logs.world).objects ≡ s.logs.world.objects
      → FilesKeep s (on_world f s)
  on_world-FilesKeep f s e = record { entries = refl; copies = refl; objects = e }

  with_ctx-FilesKeep :
      (known : Bool) (body : Files L → Option CString × Files L) (s : Files L)
      → ((t : Files L) → FilesKeep t (body t).1)
      → FilesKeep s (with_ctx known body s).1
  unfolding with_ctx unset_ctx
  with_ctx-FilesKeep known body s keeps =
      let (got, w) = get_ctx known true s.logs.world in
      let first = on_world-FilesKeep (λ v. w) s (get_ctx_objects known s.logs.world) in
      let ran = FilesKeep-trans first (keeps (on_world (λ v. w) s)) in
      either {A = Option CString × Files L} (λ r. FilesKeep s r.1) got
        (FilesKeep-trans ran (on_world-FilesKeep unset_ctx _ refl))
        (FilesKeep-trans first (on_world-FilesKeep unset_ctx _ refl))

  with_data-FilesKeep :
      (data_of : Option ℕ) (body : ℕ → Files L → Option CString × Files L) (s : Files L)
      → ((buf : ℕ) (t : Files L) → FilesKeep t (body buf t).1)
      → FilesKeep s (with_data data_of body s).1
  unfolding with_data get_buffer
  with_data-FilesKeep none body s keeps = keeps 0 s
  with_data-FilesKeep (some i) body s keeps =
      let (g, w) = get_buffer (some i) 0 false false false s.logs.world in
      let first = on_world-FilesKeep (λ v. w) s (set_at_same s.logs.world.objects i) in
      either {A = Option CString × Files L} (λ r. FilesKeep s r.1) g.ok
        (FilesKeep-trans first (keeps g.buf (on_world (λ v. w) s))) first

  checked-FilesKeep :
      (data_of : Option ℕ) (failed : Option Code) (s : Files L)
      → FilesKeep s (checked data_of failed s).1
  unfolding checked atmi_throw
  checked-FilesKeep data_of none s = FilesKeep-refl s
  checked-FilesKeep data_of (some err) s = on_world-FilesKeep (atmi_throw data_of false err) s refl

  null-FilesKeep : (s : Files L) → FilesKeep s (on_world nullptr_throw s)
  unfolding nullptr_throw
  null-FilesKeep s = on_world-FilesKeep nullptr_throw s refl

  name_string-FilesKeep :
      (memory : Bool) (name : Option CString) (s : Files L)
      → FilesKeep s (name_string memory name s).1
  unfolding name_string
  name_string-FilesKeep memory none s = FilesKeep-refl s
  name_string-FilesKeep true (some name) s = FilesKeep-refl s
  name_string-FilesKeep false (some name) s = record {
    entries = refl;
    copies = refl;
    objects = refl;
  }

  -- Characters around a body that keeps what it finds.
  chars-FilesKeep :
      (c : Option Chars) (s t : Files L)
      → FilesKeep (take_file c s) t
      → FilesKeep s (release_file c t)
  unfolding take_file release_file take_given take_chars release_chars
  chars-FilesKeep none s t k = k
  chars-FilesKeep (some c) s t k =
      let e = k.copies in record { entries = k.entries; copies = ground arith; objects = k.objects }

  release_swap :
      (c d : Option Chars) (s : Files L)
      → release_file d (release_file c s) ≡ release_file c (release_file d s)
  unfolding release_file release_chars
  release_swap none d s = refl
  release_swap (some c) none s = refl
  release_swap (some c) (some d) s =
      ap (λ n. record s { logs = record s.logs { copies = n } }) (ground arith)

  library-FilesKeep : (files : L) (s : Files L) → FilesKeep s (record s { files = files })
  library-FilesKeep files s = record { entries = refl; copies = refl; objects = refl }

  -- A call of the library and its throw.
  called-FilesKeep :
      (data_of : Option ℕ) (failed : Option Code) (files : L) (s : Files L)
      → FilesKeep s (checked data_of failed (record s { files = files })).1
  called-FilesKeep data_of failed files s =
      FilesKeep-trans (library-FilesKeep files s) (checked-FilesKeep data_of failed _)

  module _ (R : RequestLib L) where
    set_config-FilesKeep :
        (logger lev : ℕ) (d m f : Option Chars) (s : Files L)
        → FilesKeep s (set_config R logger lev d m f s).1
    unfolding set_config
    set_config-FilesKeep logger lev d m f s =
        let t = take_file f (take_file m (take_file d s)) in
        let (failed, files) = R.config logger lev (text_of d) (text_of m) (text_of f) t.files in
        let (name, u) = checked none failed (record t { files = files }) in
        rw (release_swap d m u, release_swap d f (release_file m u), release_swap m f u)
          (chars-FilesKeep d s _ (
            chars-FilesKeep m (take_file d s) _
              (chars-FilesKeep f (take_file m (take_file d s)) _ (called-FilesKeep none _ _ t))))

    set_reqfile-FilesKeep :
        (data_of : Option ℕ) (f g : Option Chars) (s : Files L)
        → FilesKeep s (set_reqfile R data_of f g s).1
    unfolding set_reqfile
    set_reqfile-FilesKeep data_of f g s = with_data-FilesKeep data_of _ s λ buf t.
        rw (release_swap f g _) (
          chars-FilesKeep f t _
            (chars-FilesKeep g (take_file f t) _ (called-FilesKeep data_of _ _ _)))

    got_name-FilesKeep :
        (memory : Bool) (data_of : Option ℕ) (answer : Code ⊎ CString) (s : Files L)
        → FilesKeep s (got_name memory data_of answer s).1
    unfolding got_name
    got_name-FilesKeep memory data_of (inl err) s = checked-FilesKeep data_of (some err) s
    got_name-FilesKeep memory data_of (inr name) s = name_string-FilesKeep memory (some name) s

    body-FilesKeep : (c : FileCall) (s : Files L) → FilesKeep s (file_body R c s).1
    unfolding file_body get_buf_reqfile del_buf_reqfile set_reqfile_direct
    body-FilesKeep (tplogsetreqfile o f g) s = set_reqfile-FilesKeep o f g s
    body-FilesKeep (tploggetbufreqfile memory none) s = null-FilesKeep s
    body-FilesKeep (tploggetbufreqfile memory (some i)) s =
        with_data-FilesKeep (some i) _ s λ buf t. got_name-FilesKeep memory (some i) _ t
    body-FilesKeep (tplogdelbufreqfile none) s = null-FilesKeep s
    body-FilesKeep (tplogdelbufreqfile (some i)) s =
        with_data-FilesKeep (some i) _ s λ buf t. called-FilesKeep (some i) _ _ t
    body-FilesKeep (tploggetreqfile memory) s =
        name_string-FilesKeep memory (R.current_file s.files) s
    body-FilesKeep (tplogsetreqfile_direct none) s = null-FilesKeep s
    body-FilesKeep (tplogsetreqfile_direct (some c)) s =
        chars-FilesKeep (some c) s _ (library-FilesKeep _ _)
    body-FilesKeep tplogclosereqfile s = library-FilesKeep _ s
    body-FilesKeep (tplogconfig logger lev d m f) s = set_config-FilesKeep logger lev d m f s

    run_files-FilesKeep :
        (cs : List (Bool × FileCall)) (s : Files L) → FilesKeep s (run_files R cs s)
    unfolding run_file
    run_files-FilesKeep [] s = FilesKeep-refl s
    run_files-FilesKeep ((known, c) ∷ cs) s =
        FilesKeep-trans (with_ctx-FilesKeep known (file_body R c) s (body-FilesKeep c))
          (run_files-FilesKeep cs _)
