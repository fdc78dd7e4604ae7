-- ===== src/Secret/Kept.antt =====
-- An API key that was saved is found again (src/ea_file_secret_store.cpp, src/ea_secret_resolver.cpp).
use embed_agent.Base.{
  ℕ, ◌≡◌, refl, ◌∙◌, Bool, true, false, not, [], ◌∷◌, ◌++◌, Option, none, some, Text, codes,
  is_empty, IsBytes, if◌then◌else◌,
}
use embed_agent.Files.{FileSystem, IsFileSystem, Kind, Written}
use embed_agent.Storage.{is_open}
use embed_agent.Secret.Base64Text.{newline-IsBlank}
use embed_agent.Secret.Obfuscator.{encode}
use embed_agent.Secret.Cipher.{HasBytes, decode-append}
use embed_agent.Secret.Store.{
  secret_path, ensure_secrets_dir, has_api_key, load_api_key, replace_secret, save_api_key,
  delete_api_key,
}

module _ (F : FileSystem) (L : IsFileSystem F) (m : Option Text) where
  open F use {State, stat, read_file, write_file, chmod, rename}

  -- The file is regular and holds the text.
  abbrev pub Holds : State → Text → Text → Type 0
  Holds s path text = (stat s path ≡ some Kind.regular) × (read_file s path ≡ some text)

  replace_secret-Holds :
      (s : State) (path text : Text)
      → (replace_secret F m s path text).1 ≡ true
      → (write_file s (path ++ codes ".tmp") text).1 ≡ Written.whole
      → Holds (replace_secret F m s path text).0 path text
  unfolding replace_secret
  replace_secret-Holds s path text ok whole = by_write (write_file s tmp text).1 refl whole ok
    where
      tmp : Text
      tmp = path ++ codes ".tmp"

      w : State
      w = (write_file s tmp text).0

      renamed : (c : State × Bool) → State × Bool
      renamed c = if not c.1 then (c.0, false) else rename c.0 tmp path

      by_chmod :
          (b : Bool)
          → Holds (chmod w tmp).0 tmp text
          → (renamed ((chmod w tmp).0, b)).1 ≡ true
          → Holds (renamed ((chmod w tmp).0, b)).0 path text
      by_chmod false h ok = cc
      by_chmod true h ok =
          let c = (chmod w tmp).0 in
          (L.stat-rename c tmp path ok ∙ h.0, L.read_file-rename c tmp path ok ∙ h.1)

      by_write :
          (r : Written)
          → (write_file s tmp text).1 ≡ r
          → r ≡ Written.whole
          → (if not (is_open r) then (w, false) else renamed (chmod w tmp)).1 ≡ true
          → Holds (if not (is_open r) then (w, false) else renamed (chmod w tmp)).0 path text
      by_write Written.unopened e h ok = cc
      by_write Written.short e h ok = cc
      by_write Written.whole e h ok =
          by_chmod (chmod w tmp).1
            (
              L.stat-chmod w tmp tmp ∙ L.stat-write_file s tmp text (e ∙ h),
              L.read_file-chmod w tmp tmp ∙ L.read_file-write_file s tmp text (e ∙ h),
            )
            ok

  loads :
      (s : State) (dir : Text) (c : ℕ) (cs : Text)
      → HasBytes m
      → IsBytes (c ∷ cs)
      → Holds s (secret_path dir) (encode m (c ∷ cs) ++ 10 ∷ [])
      → (has_api_key F m s dir ≡ true) × (load_api_key F m s dir ≡ some (c ∷ cs))
  unfolding has_api_key load_api_key
  loads s dir c cs hm h (regular, text) = (
    rw regular refl,
    rw (regular, text, append-some (encode m (c ∷ cs)))
        (decode-append m c cs (10 ∷ []) hm h newline-IsBlank),
  )
    where
      append-some : (t : Text) → is_empty (t ++ 10 ∷ []) ≡ false
      append-some [] = refl
      append-some (a ∷ t) = refl

  -- A file store that says it saved an API key of bytes, and whose file was written whole, gives
  -- that key when it is asked for it, and says that it has one.
  pub load_api_key-save_api_key :
      (s : State) (dir key : Text)
      → HasBytes m
      → IsBytes key
      → (save_api_key F m s dir key).1 ≡ true
      → (write_file
          (ensure_secrets_dir F m s dir).0
          (secret_path dir ++ codes ".tmp")
          (encode m key ++ 10 ∷ [])).1
        ≡ Written.whole
      → (has_api_key F m (save_api_key F m s dir key).0 dir ≡ true)
        × (load_api_key F m (save_api_key F m s dir key).0 dir ≡ some key)
  unfolding save_api_key
  load_api_key-save_api_key s dir [] hm h ok whole = cc
  load_api_key-save_api_key s dir (c ∷ cs) hm h ok whole =
      by_dir (ensure_secrets_dir F m s dir) ok whole
    where
      text : Text
      text = encode m (c ∷ cs) ++ 10 ∷ []

      by_dir :
          (r : State × Bool)
          → let saved : State × Bool =
              if not r.1 then (r.0, false) else replace_secret F m r.0 (secret_path dir) text in
            saved.1 ≡ true
            → (write_file r.0 (secret_path dir ++ codes ".tmp") text).1 ≡ Written.whole
            → (has_api_key F m saved.0 dir ≡ true) × (load_api_key F m saved.0 dir ≡ some (c ∷ cs))
      by_dir (s', false) ok whole = cc
      by_dir (s', true) ok whole =
          loads (replace_secret F m s' (secret_path dir) text).0 dir c cs hm h
            (replace_secret-Holds s' (secret_path dir) text ok whole)

  without_key :
      (s : State) (dir : Text)
      → has_api_key F m s dir ≡ false
      → (has_api_key F m s dir ≡ false) × (load_api_key F m s dir ≡ none)
  unfolding load_api_key
  without_key s dir e = (e, rw e refl)

  deleted :
      (s : State) (dir : Text) (there : Bool)
      → has_api_key F m s dir ≡ there
      → let r : State × Bool = if not there then (s, true) else F.remove s (secret_path dir) in
        r.1 ≡ true → has_api_key F m r.0 dir ≡ false
  unfolding has_api_key
  deleted s dir false e ok = e
  deleted s dir true e ok = rw (L.stat-remove s (secret_path dir) ok) refl

  -- After deleteApiKey returned true the file store has no API key and gives none.
  load_api_key-delete_api_key :
      (s : State) (dir : Text)
      → (delete_api_key F m s dir).1 ≡ true
      → (has_api_key F m (delete_api_key F m s dir).0 dir ≡ false)
        × (load_api_key F m (delete_api_key F m s dir).0 dir ≡ none)
  unfolding delete_api_key
  load_api_key-delete_api_key s dir ok =
      without_key (delete_api_key F m s dir).0 dir (deleted s dir (has_api_key F m s dir) refl ok)
