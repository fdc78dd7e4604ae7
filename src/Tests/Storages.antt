-- ===== src/Tests/Storages.antt =====
-- Examples for the properties of EaFileStorage, over files in memory.
use embed_agent.Base.{◌≡◌, ◌⊎◌, refl, true, false, [], ◌∷◌, none, some, Text, codes, text_eq, arith}
use embed_agent.Cppev.{text_field}
use embed_agent.Files.{Kind}
use embed_agent.Session.{approx_token_count, front_is_system, user_message}
use embed_agent.Session.Suffix.{within_budget}
use embed_agent.Session.Codec.{non_system_messages, session_snapshot}
use embed_agent.Session.Json.{
  IsReadBack, option_fields, session_fields, serialize_session, load_session_snapshot,
  load-serialize_session,
}
use embed_agent.Storage.{
  parent_of, sanitize_key, kv_path, session_path, make_unless_there, mkdir_recursive, make_path,
  ensure_data_dir, replace_file, get_string, put_string, load_session, save_text, save_session,
}
use embed_agent.Storage.Directories.{ensure_data_dir_lem}
use embed_agent.Storage.Settings.{get_string-put_string}
use embed_agent.Storage.Sessions.{save_session-Replaces, load_session-save_session}
use embed_agent.Tests.Codec.{fields_code, chunk_json, chunk_json-IsRead, messages_read-chunk_json}
use embed_agent.Tests.Data.{crowded_session, roomy_session}
use embed_agent.Tests.Disk.{Disk, disk, disk-IsFileSystem, update}

abbrev no_files : Disk
no_files = λ p. none

ensure_data_dir_lem_example :
    let r = ensure_data_dir disk no_files (codes "a/b") in
    ((r.1 ≡ false)
      ⊎ ((disk.stat r.0 (codes "a/b") ≡ some Kind.directory)
          × (disk.stat r.0 (codes "a/b/kv") ≡ some Kind.directory)))
    × ((disk.stat no_files (codes "a") ≡ none)
        ⊎ (disk.stat r.0 (codes "a") ≡ disk.stat no_files (codes "a")))
    × (disk.read_file r.0 (codes "a") ≡ disk.read_file no_files (codes "a"))
ensure_data_dir_lem_example =
    ensure_data_dir_lem disk disk-IsFileSystem no_files (codes "a/b") (codes "a")

get_string-put_string_example :
    get_string disk
      (put_string disk no_files (codes "d") (codes "a/b") (codes "v")).0
      (codes "d")
      (codes "a_b")
    ≡ some (codes "v")
unfolding put_string ensure_data_dir make_path mkdir_recursive make_unless_there parent_of update
    text_eq sanitize_key kv_path
get_string-put_string_example =
    get_string-put_string disk disk-IsFileSystem no_files (codes "d") (codes "a/b") (codes "v")
      (codes "a_b") refl refl refl refl

abbrev messages_text : Text
messages_text = fields_code (text_field (codes "user") (codes "a") ∷ [])

abbrev options_text : Text
options_text = fields_code (option_fields roomy_session.opts)

abbrev session_text : Text
session_text = fields_code (session_fields roomy_session options_text messages_text)

roomy_session-IsReadBack : IsReadBack chunk_json roomy_session session_text
unfolding non_system_messages option_fields text_eq
roomy_session-IsReadBack = record {
  messages_json = messages_text;
  opts_json = options_text;
  members = chunk_json-IsRead _ _;
  opts = chunk_json-IsRead _ _;
  messages_written = refl;
  messages_read = messages_read-chunk_json (user_message (codes "a") ∷ []);
}

load-serialize_session_example :
    (serialize_session chunk_json roomy_session ≡ some session_text)
    × (load_session_snapshot chunk_json session_text ≡ some (session_snapshot roomy_session))
load-serialize_session_example =
    load-serialize_session chunk_json roomy_session session_text roomy_session-IsReadBack
      (omega arith) (omega arith) (omega arith) (omega arith)

save_session-Replaces_example :
    let r = save_session disk chunk_json no_files (codes "d") roomy_session in
    ((r.1 ≡ false)
      × (disk.read_file r.0 (session_path (codes "d"))
          ≡ disk.read_file no_files (session_path (codes "d"))))
    ⊎ ((r.1 ≡ true) × (disk.read_file r.0 (session_path (codes "d")) ≡ some session_text))
unfolding serialize_session text_eq
save_session-Replaces_example =
    save_session-Replaces disk disk-IsFileSystem chunk_json no_files (codes "d") session_text
      roomy_session refl

load_session-save_session_example :
    load_session disk chunk_json
      (save_session disk chunk_json no_files (codes "d") roomy_session).0
      (codes "d")
      crowded_session
    ≡ (roomy_session, true)
unfolding within_budget approx_token_count front_is_system text_eq save_session serialize_session
    save_text replace_file ensure_data_dir make_path mkdir_recursive make_unless_there parent_of
    update
load_session-save_session_example =
    load_session-save_session disk disk-IsFileSystem chunk_json no_files (codes "d") session_text
      roomy_session crowded_session roomy_session-IsReadBack (refl, refl) refl (omega arith) refl
      (omega arith) (omega arith) (omega arith) (omega arith) refl
