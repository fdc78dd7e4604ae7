-- ===== src/Storage.antt =====
-- EaFileStorage (src/ea_file_storage.cpp) over the files of the operating system: the directories,
-- the settings and the session's file. The object keeps only the path of its directory, `dir`.
pub mod Directories
pub mod Settings
pub mod Sessions
use embed_agent.Base.{
  ℕ, zero, suc, Bool, true, false, not, ◌&&◌, ◌||◌, [], ◌∷◌, ◌++◌, Option, none, some, Text, codes,
  is_empty, if◌then◌else◌, leb, ◌==◌, length,
}
use embed_agent.Files.{FileSystem, Kind, Made, Written}
use embed_agent.Cppev.{JsonCodec}
use embed_agent.Session.{Session}
use embed_agent.Session.Codec.{SessionSnapshot, apply_session_snapshot}
use embed_agent.Session.Json.{serialize_session, load_session_snapshot}

-- `path.substr(0, slash)` where the last slash stands at an index above 0.
unfoldable pub parent_of : Text → Option Text
parent_of [] = none
parent_of (c ∷ cs) =
    let rest = parent_of cs in
    elim rest [
      | some p ↦ some (c ∷ p)
      | none ↦ elim cs [ [] ↦ none | d ∷ ds ↦ if d == b'/' then some (c ∷ []) else none ]
    ]

-- A character of a file name that stays as it is.
abbrev pub is_safe : ℕ → Bool
is_safe c =
    (leb b'a' c && leb c b'z')
    || ((leb b'A' c && leb c b'Z') || ((leb b'0' c && leb c b'9') || (c == b'-' || c == b'_')))

unfoldable pub sanitize_key : Text → Text
sanitize_key [] = []
sanitize_key (c ∷ cs) = let rest = sanitize_key cs in if is_safe c then c ∷ rest else b'_' ∷ rest

unfoldable pub kv_path : Text → Text → Text
unfolding sanitize_key
kv_path dir key = dir ++ (codes "/kv/" ++ (sanitize_key key ++ codes ".txt"))

abbrev pub session_path : Text → Text
session_path dir = dir ++ codes "/session.json"

abbrev pub is_directory : Option Kind → Bool
is_directory (some Kind.directory) = true
is_directory _ = false

abbrev pub is_whole : Written → Bool
is_whole Written.whole = true
is_whole _ = false

abbrev pub is_open : Written → Bool
is_open Written.unopened = false
is_open _ = true

module _ (F : FileSystem) where
  open F use {State, good_before_flush, stat, mkdir, read_file, write_file, rename}

  -- After mkdir.
  abbrev pub made_directory : Text → State × Made → State × Bool
  made_directory path (s, Made.made) = (s, true)
  made_directory path (s, Made.exists) = (s, is_directory (stat s path))
  made_directory path (s, Made.failed) = (s, false)

  -- mkdirRecursive of a path that is not there; `next` is mkdirRecursive.
  abbrev pub make_missing :
      (State → Text → State × Bool) → State → Text → Option Text → State × Bool
  make_missing next s path none = made_directory path (mkdir s path)
  make_missing next s path (some parent) =
      let r = next s parent in
      if not r.1 then (r.0, false) else made_directory path (mkdir r.0 path)

  unfoldable pub make_unless_there :
      (State → Text → State × Bool) → State → Text → Option Kind → State × Bool
  unfolding parent_of
  make_unless_there next s path none = make_missing next s path (parent_of path)
  make_unless_there next s path (some k) = (s, is_directory (some k))

  -- Each round is for a shorter path.
  unfoldable pub mkdir_recursive : ℕ → State → Text → State × Bool
  unfolding make_unless_there
  mkdir_recursive zero s path = (s, false)
  mkdir_recursive (suc fuel) s path =
      if is_empty path
      then (s, false)
      else make_unless_there (mkdir_recursive fuel) s path (stat s path)

  unfoldable pub make_path : State → Text → State × Bool
  unfolding mkdir_recursive
  make_path s path = mkdir_recursive (suc (length path)) s path

  unfoldable pub ensure_data_dir : State → Text → State × Bool
  unfolding make_path
  ensure_data_dir s dir =
      if is_empty dir
      then (s, false)
      else (let r = make_path s dir in
          if not r.1 then (r.0, false) else make_path r.0 (dir ++ codes "/kv"))

  -- The text goes to a second file, which takes the place of the first.
  unfoldable pub replace_file : State → Text → Text → State × Bool
  replace_file s path text =
      let w = write_file s (path ++ codes ".tmp") text in
      if not (is_whole w.1) then (w.0, false) else rename w.0 (path ++ codes ".tmp") path

  unfoldable pub get_string : State → Text → Text → Option Text
  unfolding kv_path
  get_string s dir key = if is_empty key then none else read_file s (kv_path dir key)

  -- The stream is asked before its buffer is flushed.
  unfoldable pub put_string : State → Text → Text → Text → State × Bool
  unfolding ensure_data_dir kv_path
  put_string s dir key value =
      if is_empty key
      then (s, false)
      else (let r = ensure_data_dir s dir in
          if not r.1
          then (r.0, false)
          else (let w = write_file r.0 (kv_path dir key) value in
              (w.0, is_open w.1 && good_before_flush r.0 (kv_path dir key) value)))

module _ (F : FileSystem) (J : JsonCodec) where
  open F use {State, read_file}

  unfoldable pub apply_loaded : Session → Option SessionSnapshot → Session × Bool
  unfolding apply_session_snapshot
  apply_loaded session none = (session, false)
  apply_loaded session (some snap) = (apply_session_snapshot snap session, true)

  unfoldable pub load_text : Session → Option Text → Session × Bool
  unfolding load_session_snapshot apply_loaded
  load_text session none = (session, false)
  load_text session (some text) =
      if is_empty text
      then (session, false)
      else apply_loaded session (load_session_snapshot J text)

  unfoldable pub load_session : State → Text → Session → Session × Bool
  unfolding load_text
  load_session s dir session = load_text session (read_file s (session_path dir))

  unfoldable pub save_text : State → Text → Option Text → State × Bool
  unfolding replace_file
  save_text s dir none = (s, false)
  save_text s dir (some text) = replace_file F s (session_path dir) text

  unfoldable pub save_session : State → Text → Session → State × Bool
  unfolding ensure_data_dir save_text
  save_session s dir session =
      let r = ensure_data_dir F s dir in
      if not r.1 then (r.0, false) else save_text r.0 dir (serialize_session J session)
