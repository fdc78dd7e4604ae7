-- ===== src/Secret/Store.antt =====
-- EaFileSecretStore and EaEnvSecretStore (src/ea_file_secret_store.cpp, src/ea_env_secret_store.cpp):
-- an API key in a file, over the files of the operating system, and one in the environment.
use embed_agent.Base.{
  Bool, true, false, not, [], ◌∷◌, ◌++◌, Option, none, some, Text, codes, is_empty, if◌then◌else◌,
}
use embed_agent.Files.{FileSystem, Kind, Made}
use embed_agent.Storage.{is_directory, is_open, ensure_data_dir}
use embed_agent.Secret.Obfuscator.{encode, decode}

-- `secretPath`.
abbrev pub secret_path : Text → Text
secret_path dir = dir ++ codes "/secrets/api_key.enc"

abbrev pub is_regular : Option Kind → Bool
is_regular (some Kind.regular) = true
is_regular _ = false

-- `machine_id` is the text of /etc/machine-id.
module _ (F : FileSystem) (machine_id : Option Text) where
  open F use {State, stat, mkdir, read_file, write_file, chmod, rename, remove}

  abbrev secrets_made : State × Made → State × Bool
  secrets_made (s, Made.made) = (s, true)
  secrets_made (s, Made.exists) = (s, false)
  secrets_made (s, Made.failed) = (s, false)

  abbrev secrets_there : State → Text → Option Kind → State × Bool
  secrets_there s dir (some k) = (s, is_directory (some k))
  secrets_there s dir none = secrets_made (mkdir s (dir ++ codes "/secrets"))

  unfoldable pub ensure_secrets_dir : State → Text → State × Bool
  unfolding ensure_data_dir
  ensure_secrets_dir s dir =
      let r = ensure_data_dir F s dir in
      if not r.1 then (r.0, false) else secrets_there r.0 dir (stat r.0 (dir ++ codes "/secrets"))

  unfoldable pub has_api_key : State → Text → Bool
  has_api_key s dir = is_regular (stat s (secret_path dir))

  abbrev pub decode_file : Option Text → Option Text
  decode_file none = none
  decode_file (some encoded) = if is_empty encoded then none else decode machine_id encoded

  unfoldable pub load_api_key : State → Text → Option Text
  unfolding has_api_key
  load_api_key s dir =
      if not (has_api_key s dir) then none else decode_file (read_file s (secret_path dir))

  -- The write itself is not checked: only the opening of the file is.
  unfoldable pub replace_secret : State → Text → Text → State × Bool
  replace_secret s path text =
      let w = write_file s (path ++ codes ".tmp") text in
      if not (is_open w.1)
      then (w.0, false)
      else (let c = chmod w.0 (path ++ codes ".tmp") in
          if not c.1 then (c.0, false) else rename c.0 (path ++ codes ".tmp") path)

  unfoldable pub save_api_key : State → Text → Text → State × Bool
  unfolding ensure_secrets_dir replace_secret encode
  save_api_key s dir key =
      if is_empty key
      then (s, false)
      else (let r = ensure_secrets_dir s dir in
          if not r.1
          then (r.0, false)
          else replace_secret r.0 (secret_path dir) (encode machine_id key ++ 10 ∷ []))

  unfoldable pub delete_api_key : State → Text → State × Bool
  unfolding has_api_key
  delete_api_key s dir = if not (has_api_key s dir) then (s, true) else remove s (secret_path dir)

-- `value` is the variable of the environment, `none` where it is not set.
unfoldable pub env_load_api_key : Option Text → Option Text
env_load_api_key none = none
env_load_api_key (some value) = if is_empty value then none else some value

abbrev env_save_api_key : Text → Bool
env_save_api_key key = false

unfoldable env_has_api_key : Option Text → Bool
env_has_api_key none = false
env_has_api_key (some value) = not (is_empty value)

abbrev env_delete_api_key : Bool
env_delete_api_key = false
