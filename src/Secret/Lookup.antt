-- ===== src/Secret/Lookup.antt =====
-- The order in which an API key is looked for (src/ea_secret_resolver.cpp, src/ea_runtime_config.cpp).
use embed_agent.Base.{
  ◌≡◌, refl, ap, ◌∙◌, Bool, true, false, not, [], ◌∷◌, ◌++◌, Option, none, some, Text, codes,
  is_empty, IsBytes, if◌then◌else◌,
}
use embed_agent.Files.{FileSystem, IsFileSystem, Kind, Written}
use embed_agent.Storage.{ensure_data_dir}
use embed_agent.Storage.Directories.{ensure_data_dir-Ensures}
use embed_agent.Secret.Obfuscator.{encode}
use embed_agent.Secret.Cipher.{HasBytes}
use embed_agent.Secret.Store.{
  is_regular, secret_path, ensure_secrets_dir, has_api_key, decode_file, load_api_key, save_api_key,
  env_load_api_key,
}
use embed_agent.Secret.Kept.{load_api_key-save_api_key}
use embed_agent.Secret.Resolver.{
  from_cli, from_file, new_resolver, resolve_api_key, RuntimeConfigOptions, new_runtime_config,
  from_file_store, from_env_store,
}

module _ (F : FileSystem) (L : IsFileSystem F) (m : Option Text) where
  open F use {State, stat, read_file, write_file}

  -- Directories that are made leave the file store's key as it was.
  load_api_key-ensure_data_dir :
      (s : State) (dir key other : Text)
      → load_api_key F m s dir ≡ some key
      → load_api_key F m (ensure_data_dir F s other).0 dir ≡ some key
  unfolding load_api_key has_api_key
  load_api_key-ensure_data_dir s dir key other e = by_stat (stat s (secret_path dir)) refl e
    where
      by_stat :
          (k : Option Kind)
          → stat s (secret_path dir) ≡ k
          → (if not (is_regular k) then none else decode_file F m (read_file s (secret_path dir)))
            ≡ some key
          → load_api_key F m (ensure_data_dir F s other).0 dir ≡ some key
      by_stat none e h = cc
      by_stat (some Kind.directory) e h = cc
      by_stat (some Kind.other) e h = cc
      by_stat (some Kind.regular) e h =
          let E = ensure_data_dir-Ensures F L s other in
          rw (E.kept (secret_path dir) Kind.regular e, E.unread (secret_path dir)) h

  started :
      (s : State) (dir key : Text) (saves persists : Bool)
      → is_empty key ≡ false
      → saves ≡ true
      → new_runtime_config F m s (record {
        data_dir = dir;
        cli_api_key = key;
        save_api_key = saves;
        persist_session = persists;
      })
        ≡ (
          (ensure_data_dir F (save_api_key F m s dir key).0 dir).0,
          record {
            storage_dir = dir;
            secrets = record { cli_override = key; data_dir = dir };
            persist_session = persists;
          },
        )
  unfolding new_runtime_config
  started s dir [] saves persists given e = cc
  started s dir (c ∷ cs) true persists given e = refl
  started s dir (c ∷ cs) false persists given e = cc

  from_override :
      (s : State) (dir key : Text) (env : Option Text)
      → is_empty key ≡ false
      → resolve_api_key F m (record { cli_override = key; data_dir = dir }) s env
        ≡ (some key, from_cli)
  unfolding resolve_api_key
  from_override s dir [] env given = cc
  from_override s dir (c ∷ cs) env given = refl

  found_in_file :
      (s : State) (dir key : Text) (env : Option Text)
      → env_load_api_key env ≡ none
      → load_api_key F m s dir ≡ some key
      → resolve_api_key F m (new_resolver dir) s env ≡ (some key, from_file)
  unfolding resolve_api_key
  found_in_file s dir key env unset e =
      ap (λ o. from_env_store F m o (from_file_store F m (load_api_key F m s dir))) unset
      ∙ ap (from_file_store F m) e

  -- A program is started with an API key of bytes on its command line and with saveApiKey, the file
  -- store says that it saved the key, and its file was written whole: then this program uses the key
  -- of its command line, whatever its environment holds, and a program that is started later without
  -- one, in an environment that gives none, finds the key in the file.
  pub resolve_api_key-new_runtime_config :
      (s : State) (opts : RuntimeConfigOptions) (env now : Option Text)
      → HasBytes m
      → IsBytes opts.cli_api_key
      → is_empty opts.cli_api_key ≡ false
      → opts.save_api_key ≡ true
      → (save_api_key F m s opts.data_dir opts.cli_api_key).1 ≡ true
      → (write_file
          (ensure_secrets_dir F m s opts.data_dir).0
          (secret_path opts.data_dir ++ codes ".tmp")
          (encode m opts.cli_api_key ++ 10 ∷ [])).1
        ≡ Written.whole
      → env_load_api_key env ≡ none
      → let r = new_runtime_config F m s opts in
        (resolve_api_key F m r.1.secrets r.0 now ≡ (some opts.cli_api_key, from_cli))
        × (resolve_api_key F m (new_resolver opts.data_dir) r.0 env
            ≡ (some opts.cli_api_key, from_file))
  resolve_api_key-new_runtime_config s opts env now hm h given saves saved whole unset =
      rw
        (started s opts.data_dir opts.cli_api_key opts.save_api_key opts.persist_session given
          saves)
        (
          from_override _ opts.data_dir opts.cli_api_key now given,
          found_in_file _ opts.data_dir opts.cli_api_key env unset (
              load_api_key-ensure_data_dir _ opts.data_dir opts.cli_api_key opts.data_dir
                (load_api_key-save_api_key F L m s opts.data_dir opts.cli_api_key hm h saved
                  whole).1),
        )
