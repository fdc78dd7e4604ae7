-- ===== src/Secret/Resolver.antt =====
-- EaSecretResolver and EaRuntimeConfig (src/ea_secret_resolver.cpp, src/ea_runtime_config.cpp): where
-- an API key is looked for, and what a program does with it when it starts.
use embed_agent.Base.{Bool, not, ◌&&◌, [], Option, none, some, Text, is_empty, if◌then◌else◌}
use embed_agent.Files.{FileSystem}
use embed_agent.Storage.{ensure_data_dir}
use embed_agent.Secret.Store.{load_api_key, save_api_key, env_load_api_key}

-- EaSecretSource.
pub data SecretSource : Type 0 where
  from_none from_cli from_env from_file : SecretSource

-- EaSecretResolver, with the directory of its file store.
pub record SecretResolver : Type 0 where
  pub cli_override : Text
  pub data_dir : Text

abbrev pub new_resolver : Text → SecretResolver
new_resolver data_dir = record { cli_override = []; data_dir = data_dir }

abbrev pub set_cli_override : SecretResolver → Text → SecretResolver
set_cli_override r key = record r { cli_override = key }

-- EaRuntimeConfigOptions.
pub record RuntimeConfigOptions : Type 0 where
  pub data_dir : Text
  pub cli_api_key : Text
  pub save_api_key : Bool
  pub persist_session : Bool

-- EaRuntimeConfig.
pub record RuntimeConfig : Type 0 where
  pub storage_dir : Text
  pub secrets : SecretResolver
  pub persist_session : Bool

module _ (F : FileSystem) (machine_id : Option Text) where
  open F use {State}

  abbrev pub from_file_store : Option Text → Option Text × SecretSource
  from_file_store none = (none, from_none)
  from_file_store (some key) = (some key, from_file)

  abbrev pub from_env_store : Option Text → Option Text × SecretSource → Option Text × SecretSource
  from_env_store none otherwise = otherwise
  from_env_store (some key) otherwise = (some key, from_env)

  -- resolveApiKey, with the value of the environment's variable: the key where it returns true, and
  -- the source.
  unfoldable pub resolve_api_key : SecretResolver → State → Option Text → Option Text × SecretSource
  unfolding load_api_key env_load_api_key
  resolve_api_key r s env =
      if not (is_empty r.cli_override)
      then (some r.cli_override, from_cli)
      else from_env_store (env_load_api_key env)
          (from_file_store (load_api_key F machine_id s r.data_dir))

  abbrev save_api_key_to_file : SecretResolver → State → Text → State × Bool
  save_api_key_to_file r s key = save_api_key F machine_id s r.data_dir key

  -- The constructor of EaRuntimeConfig.
  unfoldable pub new_runtime_config : State → RuntimeConfigOptions → State × RuntimeConfig
  unfolding save_api_key ensure_data_dir
  new_runtime_config s opts =
      let fresh = new_resolver opts.data_dir in
      let secrets =
        if not (is_empty opts.cli_api_key)
        then set_cli_override fresh opts.cli_api_key
        else fresh in
      let saved =
        if opts.save_api_key && not (is_empty opts.cli_api_key)
        then (save_api_key_to_file secrets s opts.cli_api_key).0
        else s in
      (
        (ensure_data_dir F saved opts.data_dir).0,
        record {
          storage_dir = opts.data_dir;
          secrets = secrets;
          persist_session = opts.persist_session;
        },
      )
