-- ===== src/Tests/Disk.antt =====
-- Files in memory, which keep what the program relies on.
use embed_agent.Base.{
  ◌≡◌, refl, ap, sym, ◌∙◌, inl, inr, Bool, true, false, [], Option, none, some, Text, text_eq,
  text_eq_refl, text_eq→eq, if◌then◌else◌, Bool-cases,
}
use embed_agent.Files.{FileSystem, IsFileSystem, Kind, Made, Written}

-- What stands at a path.
pub record Entry : Type 0 where
  pub kind : Kind
  pub text : Text

abbrev pub Disk : Type 0
Disk = Text → Option Entry

unfoldable pub update : Disk → Text → Option Entry → Disk
unfolding text_eq
update s p e q = if text_eq p q then e else s q

abbrev pub kind_of : Option Entry → Option Kind
kind_of none = none
kind_of (some e) = some e.kind

abbrev pub text_of_kind : Kind → Text → Option Text
text_of_kind Kind.regular t = some t
text_of_kind _ t = none

abbrev pub text_of : Option Entry → Option Text
text_of none = none
text_of (some e) = text_of_kind e.kind e.text

abbrev pub new_directory : Disk → Text → Option Entry → Disk × Made
new_directory s p none =
    (update s p (some (record { kind = Kind.directory; text = [] })), Made.made)
new_directory s p (some e) = (s, Made.exists)

abbrev pub moved : Disk → Text → Text → Option Entry → Disk × Bool
moved s p q none = (s, false)
moved s p q (some e) = (update (update s p none) q (some e), true)

abbrev pub disk : FileSystem
disk = record {
  State = Disk;
  stat = λ s p. kind_of (s p);
  mkdir = λ s p. new_directory s p (s p);
  read_file = λ s p. text_of (s p);
  write_file =
      λ s p t. (update s p (some (record { kind = Kind.regular; text = t })), Written.whole);
  good_before_flush = λ s p t. true;
  chmod = λ s p. (s, true);
  rename = λ s p q. moved s p q (s p);
  remove = λ s p. (update s p none, true);
}

update_here : (s : Disk) (p : Text) (e : Option Entry) → update s p e p ≡ e
unfolding update
update_here s p e = rw (text_eq_refl p) refl

update_other :
    (s : Disk) (p q : Text) (e : Option Entry) → text_eq p q ≡ false → update s p e q ≡ s q
unfolding update
update_other s p q e h = rw h refl

-- A change at a path where nothing was, as a file is read.
read_new :
    (s : Disk) (p q : Text)
    → s p ≡ none
    → text_of (update s p (some (record { kind = Kind.directory; text = [] })) q) ≡ text_of (s q)
read_new s p q e = elim (Bool-cases (text_eq p q)) [
  | inl same ↦
      let at = text_eq→eq p q same in
      rw (← at) (ap text_of (update_here s p _) ∙ sym (ap text_of e))
  | inr differ ↦ ap text_of (update_other s p q _ differ)
]

stat_new :
    (s : Disk) (p q : Text) (k : Kind) (d : Entry)
    → s p ≡ none
    → kind_of (s q) ≡ some k
    → kind_of (update s p (some d) q) ≡ some k
stat_new s p q k d e h = elim (Bool-cases (text_eq p q)) [
  | inl same ↦
      let at = text_eq→eq p q same in absurd (nothing (sym (ap kind_of (sym (ap s at) ∙ e)) ∙ h))
  | inr differ ↦ ap kind_of (update_other s p q _ differ) ∙ h
]
  where
    nothing : none ≡ some k → ⊥
    nothing e = cc

pub disk-IsFileSystem : IsFileSystem disk
disk-IsFileSystem = record {
  stat-mkdir = λ s p. made_there s p (s p) refl;
  stat-mkdir_kept = λ s p q k. kept_there s p q k (s p) refl;
  read_file-mkdir = λ s p q. unread_there s p q (s p) refl;
  read_file-write_file = λ s p t h. ap text_of (update_here s p _);
  stat-write_file = λ s p t h. ap kind_of (update_here s p _);
  read_file-write_file_other = λ s p t q h. ap text_of (update_other s p q _ h);
  read_file-chmod = λ s p q. refl;
  stat-chmod = λ s p q. refl;
  read_file-rename = λ s p q. read_moved s p q (s p) refl;
  stat-rename = λ s p q. stat_moved s p q (s p) refl;
  read_file-rename_failed = λ s p q r. unmoved s p q r (s p);
  stat-remove = λ s p h. ap kind_of (update_here s p none);
}
  where
    made_there :
        (s : Disk) (p : Text) (e : Option Entry)
        → s p ≡ e
        → (new_directory s p e).1 ≡ Made.made
        → kind_of ((new_directory s p e).0 p) ≡ some Kind.directory
    made_there s p none e h = ap kind_of (update_here s p _)
    made_there s p (some d) e h = cc

    kept_there :
        (s : Disk) (p q : Text) (k : Kind) (e : Option Entry)
        → s p ≡ e
        → kind_of (s q) ≡ some k
        → kind_of ((new_directory s p e).0 q) ≡ some k
    kept_there s p q k none e h = stat_new s p q k _ e h
    kept_there s p q k (some d) e h = h

    unread_there :
        (s : Disk) (p q : Text) (e : Option Entry)
        → s p ≡ e
        → text_of ((new_directory s p e).0 q) ≡ text_of (s q)
    unread_there s p q none e = read_new s p q e
    unread_there s p q (some d) e = refl

    read_moved :
        (s : Disk) (p q : Text) (e : Option Entry)
        → s p ≡ e
        → (moved s p q e).1 ≡ true
        → text_of ((moved s p q e).0 q) ≡ text_of (s p)
    read_moved s p q none e h = cc
    read_moved s p q (some d) e h = ap text_of (update_here (update s p none) q _ ∙ sym e)

    stat_moved :
        (s : Disk) (p q : Text) (e : Option Entry)
        → s p ≡ e
        → (moved s p q e).1 ≡ true
        → kind_of ((moved s p q e).0 q) ≡ kind_of (s p)
    stat_moved s p q none e h = cc
    stat_moved s p q (some d) e h = ap kind_of (update_here (update s p none) q _ ∙ sym e)

    unmoved :
        (s : Disk) (p q r : Text) (e : Option Entry)
        → (moved s p q e).1 ≡ false
        → text_of ((moved s p q e).0 r) ≡ text_of (s r)
    unmoved s p q r none h = refl
    unmoved s p q r (some d) h = cc
