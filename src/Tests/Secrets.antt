-- ===== src/Tests/Secrets.antt =====
-- Examples for the properties of the API key's stores, over files in memory.
use embed_agent.Base.{◌≡◌, refl, true, Option, none, some, Text, codes, text_eq, arith, IsBytes}
use embed_agent.Storage.{parent_of, make_unless_there, mkdir_recursive, make_path, ensure_data_dir}
use embed_agent.Secret.Obfuscator.{encode, decode}
use embed_agent.Secret.Cipher.{HasBytes, decode-encode}
use embed_agent.Secret.Store.{
  ensure_secrets_dir, has_api_key, load_api_key, replace_secret, save_api_key, env_load_api_key,
}
use embed_agent.Secret.Resolver.{
  from_cli, from_file, new_resolver, resolve_api_key, RuntimeConfigOptions, new_runtime_config,
}
use embed_agent.Secret.Kept.{load_api_key-save_api_key}
use embed_agent.Secret.Lookup.{resolve_api_key-new_runtime_config}
use embed_agent.Tests.Disk.{Disk, disk, disk-IsFileSystem, update}

abbrev sample_key : Text
sample_key = codes "sk-1"

abbrev machine : Option Text
machine = some (codes "0123456789abcdef0123")

abbrev no_files : Disk
no_files = λ p. none

sample_key-IsBytes : IsBytes sample_key
sample_key-IsBytes = ground arith

machine-HasBytes : HasBytes machine
machine-HasBytes = ground arith

decode-encode_example : decode machine (encode machine sample_key) ≡ some sample_key
decode-encode_example = decode-encode machine sample_key machine-HasBytes sample_key-IsBytes refl

load_api_key-save_api_key_example :
    let s = (save_api_key disk machine no_files (codes "d") sample_key).0 in
    (has_api_key disk machine s (codes "d") ≡ true)
    × (load_api_key disk machine s (codes "d") ≡ some sample_key)
unfolding save_api_key ensure_secrets_dir ensure_data_dir make_path mkdir_recursive
    make_unless_there parent_of replace_secret update text_eq
load_api_key-save_api_key_example =
    load_api_key-save_api_key disk disk-IsFileSystem machine no_files (codes "d") sample_key
      machine-HasBytes sample_key-IsBytes refl refl

abbrev sample_options : RuntimeConfigOptions
sample_options = record {
  data_dir = codes "d";
  cli_api_key = sample_key;
  save_api_key = true;
  persist_session = true;
}

resolve_api_key-new_runtime_config_example :
    let r = new_runtime_config disk machine no_files sample_options in
    (resolve_api_key disk machine r.1.secrets r.0 (some (codes "e")) ≡ (some sample_key, from_cli))
    × (resolve_api_key disk machine (new_resolver (codes "d")) r.0 none
        ≡ (some sample_key, from_file))
unfolding save_api_key ensure_secrets_dir ensure_data_dir make_path mkdir_recursive
    make_unless_there parent_of replace_secret update text_eq env_load_api_key
resolve_api_key-new_runtime_config_example =
    resolve_api_key-new_runtime_config disk disk-IsFileSystem machine no_files sample_options none
      (some (codes "e")) machine-HasBytes sample_key-IsBytes refl refl refl refl refl
