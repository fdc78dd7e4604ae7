-- ===== src/Files.antt =====
-- The calls of the operating system on files, as far as the program makes them.
use embed_agent.Base.{◌≡◌, Bool, true, false, Option, none, some, Text, text_eq}

-- What stat says of a path.
pub data Kind : Type 0 where
  directory regular other : Kind

-- mkdir: it makes the directory, finds that the path exists, or fails otherwise.
pub data Made : Type 0 where
  made exists failed : Made

-- A file that is opened anew and written: it cannot be opened, the text is not written whole, or it
-- is.
pub data Written : Type 0 where
  unopened short whole : Written

-- `stat` and `read_file` give `none` where they fail, `read_file` also for a directory.
pub record FileSystem : Type 1 where
  pub State : Type 0
  pub stat : State → Text → Option Kind
  pub mkdir : State → Text → State × Made
  pub read_file : State → Text → Option Text
  pub write_file : State → Text → Text → State × Written
  -- What good() of a stream says between the write of a text and the flush.
  pub good_before_flush : State → Text → Text → Bool
  pub chmod : State → Text → State × Bool
  pub rename : State → Text → Text → State × Bool
  pub remove : State → Text → State × Bool

-- What the calls promise, for paths without links, each written in one way.
pub record IsFileSystem (F : FileSystem) : Type 0 where
  pub stat-mkdir :
      (s : F.State) (p : Text)
      → (F.mkdir s p).1 ≡ Made.made
      → F.stat (F.mkdir s p).0 p ≡ some Kind.directory
  pub stat-mkdir_kept :
      (s : F.State) (p q : Text) (k : Kind)
      → F.stat s q ≡ some k
      → F.stat (F.mkdir s p).0 q ≡ some k
  pub read_file-mkdir : (s : F.State) (p q : Text) → F.read_file (F.mkdir s p).0 q ≡ F.read_file s q
  pub read_file-write_file :
      (s : F.State) (p t : Text)
      → (F.write_file s p t).1 ≡ Written.whole
      → F.read_file (F.write_file s p t).0 p ≡ some t
  pub stat-write_file :
      (s : F.State) (p t : Text)
      → (F.write_file s p t).1 ≡ Written.whole
      → F.stat (F.write_file s p t).0 p ≡ some Kind.regular
  pub read_file-write_file_other :
      (s : F.State) (p t q : Text)
      → text_eq p q ≡ false
      → F.read_file (F.write_file s p t).0 q ≡ F.read_file s q
  pub read_file-chmod : (s : F.State) (p q : Text) → F.read_file (F.chmod s p).0 q ≡ F.read_file s q
  pub stat-chmod : (s : F.State) (p q : Text) → F.stat (F.chmod s p).0 q ≡ F.stat s q
  pub read_file-rename :
      (s : F.State) (p q : Text)
      → (F.rename s p q).1 ≡ true
      → F.read_file (F.rename s p q).0 q ≡ F.read_file s p
  pub stat-rename :
      (s : F.State) (p q : Text)
      → (F.rename s p q).1 ≡ true
      → F.stat (F.rename s p q).0 q ≡ F.stat s p
  pub read_file-rename_failed :
      (s : F.State) (p q r : Text)
      → (F.rename s p q).1 ≡ false
      → F.read_file (F.rename s p q).0 r ≡ F.read_file s r
  pub stat-remove :
      (s : F.State) (p : Text) → (F.remove s p).1 ≡ true → F.stat (F.remove s p).0 p ≡ none
