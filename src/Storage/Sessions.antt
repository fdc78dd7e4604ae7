-- ===== src/Storage/Sessions.antt =====
-- saveSession and loadSession of EaFileStorage (src/ea_file_storage.cpp).
use embed_agent.Base.{
  ◌+◌, ◌^◌, ◌<◌, ◌≡◌, ◌⊎◌, refl, ap, ◌∙◌, inl, inr, Bool, true, false, not, [], ◌∷◌, ◌++◌, some,
  Text, codes, if◌then◌else◌, text_eq, length, arith,
}
use embed_agent.Cppev.{JsonCodec}
use embed_agent.Files.{FileSystem, IsFileSystem, Written}
use embed_agent.Session.{Session, front_is_system}
use embed_agent.Session.Prompt.{IsWellFormed}
use embed_agent.Session.Suffix.{within_budget}
use embed_agent.Session.Trim.{head_part, history}
use embed_agent.Session.Codec.{session_snapshot, apply_session_snapshot-session_snapshot}
use embed_agent.Session.Json.{
  IsReadBack, serialize_session, load_session_snapshot, load-serialize_session,
}
use embed_agent.Storage.{
  is_whole, session_path, replace_file, ensure_data_dir, load_session, load_text, apply_loaded,
  save_session, save_text,
}
use embed_agent.Storage.Directories.{ensure_data_dir-Ensures}

tmp-other : (path : Text) → text_eq (path ++ codes ".tmp") path ≡ false
unfolding text_eq
tmp-other [] = refl
tmp-other (c ∷ path) = ground (arith, tmp-other path)

module _ (F : FileSystem) (L : IsFileSystem F) where
  open F use {State, read_file, write_file, rename}

  is_whole-whole : (w : Written) → is_whole w ≡ true → w ≡ Written.whole
  is_whole-whole Written.whole h = refl
  is_whole-whole Written.short h = cc
  is_whole-whole Written.unopened h = cc

  -- The file holds its old text and the call returned false, or the new text and it returned true.
  abbrev Replaces : Text → Text → State → State × Bool → Type 0
  Replaces path text s r =
      ((r.1 ≡ false) × (read_file r.0 path ≡ read_file s path))
      ⊎ ((r.1 ≡ true) × (read_file r.0 path ≡ some text))

  -- A file is replaced as a whole or not at all.
  replace_file-Replaces :
      (s : State) (path text : Text) → Replaces path text s (replace_file F s path text)
  unfolding replace_file
  replace_file-Replaces s path text = by_write (write_file s tmp text).1 refl
    where
      tmp : Text
      tmp = path ++ codes ".tmp"

      s' : State
      s' = (write_file s tmp text).0

      unread : read_file s' path ≡ read_file s path
      unread = L.read_file-write_file_other s tmp text path (tmp-other path)

      by_rename :
          (w : Written)
          → (write_file s tmp text).1 ≡ w
          → w ≡ Written.whole
          → (b : Bool) → (rename s' tmp path).1 ≡ b
          → Replaces path text s ((rename s' tmp path).0, b)
      by_rename w e e' true r =
          inr (refl, L.read_file-rename s' tmp path r ∙ L.read_file-write_file s tmp text (e ∙ e'))
      by_rename w e e' false r = inl (refl, L.read_file-rename_failed s' tmp path path r ∙ unread)

      by_write :
          (w : Written)
          → (write_file s tmp text).1 ≡ w
          → Replaces path text s (if not (is_whole w) then (s', false) else rename s' tmp path)
      by_write Written.unopened e = inl (refl, unread)
      by_write Written.short e = inl (refl, unread)
      by_write Written.whole e = by_rename Written.whole e refl (rename s' tmp path).1 refl

  module _ (J : JsonCodec) where
    -- saveSession replaces the session's file by the serialized session and returns true, or it
    -- leaves the file's text as it was and returns false.
    pub save_session-Replaces :
        (s : State) (dir text : Text) (session : Session)
        → serialize_session J session ≡ some text
        → Replaces (session_path dir) text s (save_session F J s dir session)
    unfolding save_session save_text
    save_session-Replaces s dir text session e =
        rw e (by_dir (ensure_data_dir F s dir) ((ensure_data_dir-Ensures F L s dir).unread))
      where
        by_dir :
            (r : State × Bool)
            → ((q : Text) → read_file r.0 q ≡ read_file s q)
            → Replaces
                (session_path dir)
                text
                s
                (if not r.1 then (r.0, false) else replace_file F r.0 (session_path dir) text)
        by_dir (s', false) same = inl (refl, same (session_path dir))
        by_dir (s', true) same = by_file (replace_file-Replaces s' (session_path dir) text)
          where
            by_file :
                Replaces (session_path dir) text s' (replace_file F s' (session_path dir) text)
                → Replaces (session_path dir) text s (replace_file F s' (session_path dir) text)
            by_file (inl (f, u)) = inl (f, u ∙ same (session_path dir))
            by_file (inr written) = inr written

    -- A session that saveSession has saved is what loadSession restores, into whatever session:
    -- for a well-formed session within its two budgets, whose limits are positive and below 2^31,
    -- where the JSON library builds the texts of the session and of its options and reads each member
    -- that is in them back by its key, and reads back the text of the messages.
    pub load_session-save_session :
        (s : State) (dir text : Text) (session other : Session)
        → IsReadBack J session text
        → IsWellFormed session
        → front_is_system session.messages ≡ session.has_system_message
        → length session.messages + 1 < 2 ^ 64
        → within_budget session.opts (head_part session) (history session) ≡ true
        → 0 < session.opts.max_messages
        → session.opts.max_messages < 2 ^ 31
        → 0 < session.opts.max_approx_tokens
        → session.opts.max_approx_tokens < 2 ^ 31
        → (save_session F J s dir session).1 ≡ true
        → load_session F J (save_session F J s dir session).0 dir other ≡ (session, true)
    unfolding load_session load_text apply_loaded
    load_session-save_session s dir text session other r w front small fits m m' t t' saved =
        let (written, read) = load-serialize_session J session text r m m' t t' in
        by_file (save_session-Replaces s dir text session written) read
      where
        by_file :
            Replaces (session_path dir) text s (save_session F J s dir session)
            → load_session_snapshot J text ≡ some (session_snapshot session)
            → load_session F J (save_session F J s dir session).0 dir other ≡ (session, true)
        by_file (inl (f, u)) read = cc
        by_file (inr (_, file)) read =
            rw (file, read, r.members.some_text)
              (ap (λ u. (u, true))
                (apply_session_snapshot-session_snapshot session other w front small fits))
