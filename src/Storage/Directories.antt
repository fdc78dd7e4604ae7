-- ===== src/Storage/Directories.antt =====
-- mkdirRecursive and ensureDataDir (src/ea_file_storage.cpp).
use embed_agent.Base.{
  ℕ, zero, suc, ◌≡◌, ◌⊎◌, ◌<◌, refl, ap, sym, ◌∙◌, inl, inr, Bool, true, false, not, [], ◌∷◌, ◌++◌,
  Option, none, some, Text, codes, is_empty, if◌then◌else◌, ◌==◌, length, arith, Option-cases,
  if-intro,
}
use embed_agent.Files.{FileSystem, IsFileSystem, Kind, Made}
use embed_agent.Storage.{
  parent_of, is_directory, made_directory, make_missing, make_unless_there, mkdir_recursive,
  make_path, ensure_data_dir,
}

-- The parent of a path is shorter.
parent_of-shorter :
    (path parent : Text) → parent_of path ≡ some parent → length parent < length path
unfolding parent_of
parent_of-shorter [] parent e = cc
parent_of-shorter (c ∷ []) parent e = ground arith
parent_of-shorter (c ∷ (d ∷ ds)) parent e =
    by_rest (parent_of (d ∷ ds)) (parent_of-shorter (d ∷ ds)) e
  where
    by_rest :
        (rest : Option Text)
        → ((p : Text) → rest ≡ some p → length p < length (d ∷ ds))
        → elim rest [ some p ↦ some (c ∷ p) | none ↦ if d == b'/' then some (c ∷ []) else none ]
          ≡ some parent
        → length parent < length (c ∷ (d ∷ ds))
    by_rest none ih e = ground arith
    by_rest (some p) ih e = ground (arith, ih p refl)

is_directory-some : (k : Option Kind) → is_directory k ≡ true → k ≡ some Kind.directory
is_directory-some none h = cc
is_directory-some (some Kind.directory) h = refl
is_directory-some (some Kind.regular) h = cc
is_directory-some (some Kind.other) h = cc

module _ (F : FileSystem) (L : IsFileSystem F) where
  open F use {State, stat, mkdir, read_file}

  -- What a call that makes a path gives: it is a directory where it returns true, all
  -- that was there stays, and no file changes.
  pub record MakesPath (path : Text) (s : State) (r : State × Bool) : Type 0 where
    pub there : r.1 ≡ true → stat r.0 path ≡ some Kind.directory
    pub kept : (q : Text) (k : Kind) → stat s q ≡ some k → stat r.0 q ≡ some k
    pub unread : (q : Text) → read_file r.0 q ≡ read_file s q

  made_directory-MakesPath :
      (path : Text) (s : State) → MakesPath path s (made_directory F path (mkdir s path))
  made_directory-MakesPath path s = by_result (mkdir s path).1 refl
    where
      by_result :
          (m : Made)
          → (mkdir s path).1 ≡ m
          → MakesPath path s (made_directory F path ((mkdir s path).0, m))
      by_result Made.made e = record {
        there = λ h. L.stat-mkdir s path e;
        kept = L.stat-mkdir_kept s path;
        unread = L.read_file-mkdir s path;
      }
      by_result Made.exists e = record {
        there = λ h. is_directory-some (stat (mkdir s path).0 path) h;
        kept = L.stat-mkdir_kept s path;
        unread = L.read_file-mkdir s path;
      }
      by_result Made.failed e = record {
        there = λ h. cc;
        kept = L.stat-mkdir_kept s path;
        unread = L.read_file-mkdir s path;
      }

  refused-MakesPath : (path : Text) (s : State) → MakesPath path s (s, false)
  refused-MakesPath path s = record { there = λ h. cc; kept = λ q k h. h; unread = λ q. refl }

  -- A call behind another one.
  then-MakesPath :
      (first path : Text) (s : State) (r r' : State × Bool)
      → MakesPath first s r
      → MakesPath path r.0 r'
      → MakesPath path s r'
  then-MakesPath first path s r r' m m' = record {
    there = m'.there;
    kept = λ q k h. m'.kept q k (m.kept q k h);
    unread = λ q. m'.unread q ∙ m.unread q;
  }

  module _ (next : State → Text → State × Bool)
      (makes : (s : State) (path : Text) → MakesPath path s (next s path)) where
    make_missing-MakesPath :
        (s : State) (path : Text) (parent : Option Text)
        → MakesPath path s (make_missing F next s path parent)
    make_missing-MakesPath s path none = made_directory-MakesPath path s
    make_missing-MakesPath s path (some parent) =
        let r = next s parent in
        if-intro (MakesPath path s) (not r.1)
          (then-MakesPath parent path s r (r.0, false) (makes s parent)
            (refused-MakesPath path r.0))
          (then-MakesPath parent path s r _ (makes s parent) (made_directory-MakesPath path r.0))

    make_unless_there-MakesPath :
        (s : State) (path : Text) (k : Option Kind)
        → stat s path ≡ k
        → MakesPath path s (make_unless_there F next s path k)
    unfolding make_unless_there
    make_unless_there-MakesPath s path none e = make_missing-MakesPath s path (parent_of path)
    make_unless_there-MakesPath s path (some k) e = record {
      there = λ h. e ∙ is_directory-some (some k) h;
      kept = λ q k h. h;
      unread = λ q. refl;
    }

  mkdir_recursive-MakesPath :
      (fuel : ℕ) (s : State) (path : Text) → MakesPath path s (mkdir_recursive F fuel s path)
  unfolding mkdir_recursive
  mkdir_recursive-MakesPath zero s path = refused-MakesPath path s
  mkdir_recursive-MakesPath (suc fuel) s path =
      if-intro (MakesPath path s) (is_empty path) (refused-MakesPath path s) (
        make_unless_there-MakesPath (mkdir_recursive F fuel) (mkdir_recursive-MakesPath fuel) s path
          (stat s path) refl)

  make_path-MakesPath : (s : State) (path : Text) → MakesPath path s (make_path F s path)
  unfolding make_path
  make_path-MakesPath s path = mkdir_recursive-MakesPath (suc (length path)) s path

  -- Where ensureDataDir returns true, the data directory and its kv directory are there; in any
  -- case what stat says of a path stays as it is, and no file changes.
  pub record Ensures (dir : Text) (s : State) (r : State × Bool) : Type 0 where
    pub data_dir : r.1 ≡ true → stat r.0 dir ≡ some Kind.directory
    pub kv_dir : r.1 ≡ true → stat r.0 (dir ++ codes "/kv") ≡ some Kind.directory
    pub kept : (q : Text) (k : Kind) → stat s q ≡ some k → stat r.0 q ≡ some k
    pub unread : (q : Text) → read_file r.0 q ≡ read_file s q

  refused-Ensures :
      (dir path : Text) (s s' : State) (b : Bool)
      → MakesPath path s (s', b)
      → Ensures dir s (s', false)
  refused-Ensures dir path s s' b m = record {
    data_dir = λ h. cc;
    kv_dir = λ h. cc;
    kept = m.kept;
    unread = m.unread;
  }

  pub ensure_data_dir-Ensures : (s : State) (dir : Text) → Ensures dir s (ensure_data_dir F s dir)
  unfolding ensure_data_dir
  ensure_data_dir-Ensures s dir =
      if-intro (Ensures dir s) (is_empty dir)
        (refused-Ensures dir dir s s false (refused-MakesPath dir s))
        (by_result (make_path F s dir) (make_path-MakesPath s dir))
    where
      by_result :
          (r : State × Bool)
          → MakesPath dir s r
          → Ensures dir s (if not r.1 then (r.0, false) else make_path F r.0 (dir ++ codes "/kv"))
      by_result (s', false) m = refused-Ensures dir dir s s' false m
      by_result (s', true) m =
          let n = make_path-MakesPath s' (dir ++ codes "/kv") in
          record {
            data_dir = λ h. n.kept dir Kind.directory (m.there refl);
            kv_dir = n.there;
            kept = λ q k h. n.kept q k (m.kept q k h);
            unread = λ q. n.unread q ∙ m.unread q;
          }

  -- ensureDataDir, on any files: it returns false, or the data directory and its kv directory are
  -- there afterwards; what stat says of a path stays as it is unless nothing was there, and no
  -- file's text changes.
  pub ensure_data_dir_lem :
      (s : State) (dir q : Text)
      → let r = ensure_data_dir F s dir in
        ((r.1 ≡ false)
          ⊎ ((stat r.0 dir ≡ some Kind.directory)
              × (stat r.0 (dir ++ codes "/kv") ≡ some Kind.directory)))
        × ((stat s q ≡ none) ⊎ (stat r.0 q ≡ stat s q))
        × (read_file r.0 q ≡ read_file s q)
  ensure_data_dir_lem s dir q =
      let e = ensure_data_dir-Ensures s dir in
      (
        by_success (ensure_data_dir F s dir).1 refl e,
        elim (Option-cases (stat s q)) [
          | inl gone ↦ inl gone
          | inr (k, there) ↦ inr (e.kept q k there ∙ sym there)
        ],
        e.unread q,
      )
    where
      by_success :
          (b : Bool)
          → (ensure_data_dir F s dir).1 ≡ b
          → Ensures dir s (ensure_data_dir F s dir)
          → ((ensure_data_dir F s dir).1 ≡ false)
            ⊎ ((stat (ensure_data_dir F s dir).0 dir ≡ some Kind.directory)
                × (stat (ensure_data_dir F s dir).0 (dir ++ codes "/kv") ≡ some Kind.directory))
      by_success false f e = inl f
      by_success true f e = inr (e.data_dir f, e.kv_dir f)

module _ (F : FileSystem) where
  open F use {State, stat, mkdir}

  make_missing_same :
      (next next' : State → Text → State × Bool) (s : State) (path : Text) (parent : Option Text)
      → ((p : Text) → parent ≡ some p → next s p ≡ next' s p)
      → make_missing F next s path parent ≡ make_missing F next' s path parent
  make_missing_same next next' s path none same = refl
  make_missing_same next next' s path (some p) same =
      ap
        (λ (r : State × Bool).
          if not r.1 then (r.0, false) else made_directory F path (mkdir r.0 path))
        (same p refl)

  make_unless_there_same :
      (next next' : State → Text → State × Bool) (s : State) (path : Text) (k : Option Kind)
      → ((p : Text) → parent_of path ≡ some p → next s p ≡ next' s p)
      → make_unless_there F next s path k ≡ make_unless_there F next' s path k
  unfolding make_unless_there
  make_unless_there_same next next' s path none same =
      make_missing_same next next' s path (parent_of path) same
  make_unless_there_same next next' s path (some k) same = refl

  -- A round for each character of the path, and one more, is enough: more make no difference.
  mkdir_recursive_enough :
      (m n : ℕ) (s : State) (path : Text)
      → length path < m
      → length path < n
      → mkdir_recursive F m s path ≡ mkdir_recursive F n s path
  unfolding mkdir_recursive
  mkdir_recursive_enough zero n s path hm hn = elim hm [ ]
  mkdir_recursive_enough (suc m) zero s path hm hn = elim hn [ ]
  mkdir_recursive_enough (suc m) (suc n) s path hm hn =
      ap (λ r. if is_empty path then (s, false) else r)
        (make_unless_there_same (mkdir_recursive F m) (mkdir_recursive F n) s path (stat s path)
          (λ parent e.
            mkdir_recursive_enough m n s parent (omega (arith, parent_of-shorter path parent e))
              (omega (arith, parent_of-shorter path parent e))))
