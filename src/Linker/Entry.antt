-- ===== src/Linker/Entry.antt =====
-- exjld/findclasses.c: the walk over the extracted JAR files. Each file becomes a job for the
-- thread pool: a class under its dotted name, anything else as a resource under its path.
pub mod Names
use endurox_java.Base.{
  ℕ, suc, ◌+◌, ◌-◌, Bool, true, false, ◌&&◌, ◌||◌, Option, none, some, List, [], ◌∷◌, ◌++◌, map,
  ltb, leb, ◌==◌, if◌then◌else◌, length, take, drop,
}
use endurox_java.Base.Bytes.{CString, codes, str_eq}

-- The two hashes that `data->head` can point to.
pub data Hash : Type 0 where
  classes embedded : Hash

-- `resgen_thread_data_t`
pub record Job : Type 0 where
  pub head : Hash
  pub resname : CString
  pub id : ℕ
  pub respath : CString
  pub emb_pfx : CString

-- The statics of `process_entry`, `M_was_file`, and the work given to `ndrx_G_thpool`.
pub record Walk : Type 0 where
  pub id_class : ℕ
  pub id_res : ℕ
  pub was_file : Bool
  pub jobs : List Job

abbrev pub class_suffix : CString
class_suffix = codes ".class"

-- `len > 6 && 0==strcmp(filepath + (len - 6), ".class")`
unfoldable pub is_class_file : CString → Bool
is_class_file filepath =
    ltb 6 (length filepath) && str_eq (drop (length filepath - 6) filepath) class_suffix

-- `while (*p=='.' || *p=='/') p++;`
unfoldable pub skip_dots : CString → CString
skip_dots [] = []
skip_dots (c ∷ p) = if (c == b'.') || (c == b'/') then skip_dots p else c ∷ p

-- The loop that writes '.' over '/'.
unfoldable pub dot_of_slash : ℕ → ℕ
dot_of_slash c = if c == b'/' then b'.' else c

-- `p[len-6] = EXEOS`: with fewer than six bytes left behind `p` the write falls before `p`, into
-- the part of `tmp` that was skipped, and `p` stays.
unfoldable pub strip_suffix : CString → CString
strip_suffix p = if leb 6 (length p) then take (length p - 6) p else p

-- `p` after the rewriting.
unfoldable pub entry_name : CString → CString
entry_name filepath =
    let p = skip_dots filepath in
    if is_class_file filepath then strip_suffix (map dot_of_slash p) else p

-- `type_is_file` is `FTW_F == typeflag`, `memory` says whether the allocations succeed. nftw passes
-- paths shorter than PATH_MAX, so the copy into `tmp` is whole.
unfoldable pub process_entry : (type_is_file memory : Bool) → CString → Walk → Bool × Walk
process_entry false memory filepath w = (true, w)
process_entry true memory filepath w =
    let is_class = is_class_file filepath in
    let w' =
      if is_class
      then record w { id_class = w.id_class + 1 }
      else record w { id_res = w.id_res + 1 } in
    let job : Job =
      if is_class
      then record {
        head = classes;
        resname = entry_name filepath;
        id = w'.id_class;
        respath = filepath;
        emb_pfx = codes "class";
      }
      else record {
        head = embedded;
        resname = entry_name filepath;
        id = w'.id_res;
        respath = filepath;
        emb_pfx = codes "emb";
      } in
    if memory
    then (true, record w' { was_file = true; jobs = w'.jobs ++ job ∷ [] })
    else (false, w')

-- What nftw meets: the path of an entry, whether it is a plain file, and whether the allocations
-- of the callback succeed.
pub record Found : Type 0 where
  pub path : CString
  pub is_file : Bool
  pub memory : Bool

abbrev pub walk_start : Walk
walk_start = record { id_class = 0; id_res = 0; was_file = false; jobs = [] }

-- `nftw("./", process_entry, …)`: the callback on each entry, until it fails.
unfoldable pub walk : List Found → Walk → Bool × Walk
walk [] w = (true, w)
walk (f ∷ fs) w =
    let (ok, w') = process_entry f.is_file f.memory f.path w in
    let rest = walk fs w' in if ok then rest else (false, w')
