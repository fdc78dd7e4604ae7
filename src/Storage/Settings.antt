-- ===== src/Storage/Settings.antt =====
-- getString and putString of EaFileStorage (src/ea_file_storage.cpp).
use embed_agent.Base.{
  ◌≡◌, ◌⊎◌, refl, inl, inr, Bool, true, false, not, ◌&&◌, [], ◌∷◌, ◌++◌, some, Text, codes,
  is_empty, if◌then◌else◌, length, arith, Bool-cases,
}
use embed_agent.Files.{FileSystem, IsFileSystem, Written}
use embed_agent.Storage.{
  is_safe, sanitize_key, kv_path, is_open, ensure_data_dir, get_string, put_string,
}

-- Every character is a letter, a digit, a dash or an underscore.
abbrev is_safe_name : Text → Bool
is_safe_name [] = true
is_safe_name (c ∷ cs) = is_safe c && is_safe_name cs

sanitize_key-safe : (key : Text) → is_safe_name (sanitize_key key) ≡ true
unfolding sanitize_key
sanitize_key-safe [] = refl
sanitize_key-safe (c ∷ cs) = ground (arith, sanitize_key-safe cs)

sanitize_key-length : (key : Text) → length (sanitize_key key) ≡ length key
unfolding sanitize_key
sanitize_key-length [] = refl
sanitize_key-length (c ∷ cs) = ground (arith, sanitize_key-length cs)

sanitize_key-kept : (key : Text) → is_safe_name key ≡ true → sanitize_key key ≡ key
unfolding sanitize_key
sanitize_key-kept [] h = refl
sanitize_key-kept (c ∷ cs) h = ground (arith, sanitize_key-kept cs)

-- The file name of a key has no character but letters, digits, dashes and underscores, so no slash
-- and no dot; it is as long as the key, and it is the key unless that has other characters.
sanitize_key_lem :
    (key : Text)
    → (is_safe_name (sanitize_key key) ≡ true)
      × (length (sanitize_key key) ≡ length key)
      × ((is_safe_name key ≡ false) ⊎ (sanitize_key key ≡ key))
sanitize_key_lem key = (
  sanitize_key-safe key,
  sanitize_key-length key,
  elim (Bool-cases (is_safe_name key)) [
    | inl safe ↦ inr (sanitize_key-kept key safe)
    | inr unsafe ↦ inl unsafe
  ],
)

module _ (F : FileSystem) (L : IsFileSystem F) where
  open F use {State, read_file, write_file}

  -- A value that putString reports as written, and whose text the file system wrote whole, is what
  -- getString gives for every key with the same file name.
  pub get_string-put_string :
      (s : State) (dir key value other : Text)
      → (put_string F s dir key value).1 ≡ true
      → (write_file (ensure_data_dir F s dir).0 (kv_path dir key) value).1 ≡ Written.whole
      → is_empty other ≡ false
      → sanitize_key other ≡ sanitize_key key
      → get_string F (put_string F s dir key value).0 dir other ≡ some value
  unfolding get_string put_string kv_path
  get_string-put_string s dir [] value other ok whole named same = cc
  get_string-put_string s dir (c ∷ cs) value other ok whole named same =
      rw (named, same) (by_dir (ensure_data_dir F s dir) ok whole)
    where
      path : Text
      path = dir ++ (codes "/kv/" ++ (sanitize_key (c ∷ cs) ++ codes ".txt"))

      by_dir :
          (r : State × Bool)
          → let p : State × Bool = if not r.1 then (r.0, false) else (
            (write_file r.0 path value).0,
            is_open (write_file r.0 path value).1 && F.good_before_flush r.0 path value,
          ) in
            p.1 ≡ true
            → (write_file r.0 path value).1 ≡ Written.whole
            → read_file p.0 path ≡ some value
      by_dir (s', false) ok whole = cc
      by_dir (s', true) ok whole = L.read_file-write_file s' path value whole
