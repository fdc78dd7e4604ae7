-- ===== src/Examples/Process/Reading.antt =====
-- What the process tools read from /proc (examples/tool_call_demo/ea_tool_process.cpp): the status,
-- stat and cmdline files of a process, and the numbers of the processes. Sizes and times fit a long.
use embed_agent.Base.{
  ℕ, zero, suc, Bool, false, not, ◌&&◌, List, [], ◌∷◌, ◌++◌, Option, none, some, Text, codes,
  is_empty, take, drop, if◌then◌else◌, ltb, ◌==◌, ℤ, pos, int_to_string, to_string, starts_with,
  is_digit, value_from, map,
}
use embed_agent.Files.{FileSystem}
use embed_agent.OfflineQueue.File.{lines_of}
use embed_agent.Tool.Args.{is_some, or_default}
use embed_agent.Examples.Stream.{
  Stream, stream, in_word, in_char, in_signed, extracted, printed, or_text,
}

-- ProcInfo; `state` is a character.
pub record ProcInfo : Type 0 where
  pub pid : ℤ
  pub name : Text
  pub state : ℕ
  pub vm_rss_kb : ℤ
  pub vm_virt_kb : ℤ
  pub num_threads : ℤ
  pub user : Text
  pub cmdline : Text
  pub utime : ℤ
  pub stime : ℤ

-- What the handlers start with.
abbrev pub new_info : ℤ → ProcInfo
new_info p = record {
  pid = p;
  name = [];
  state = b'?';
  vm_rss_kb = pos 0;
  vm_virt_kb = pos 0;
  num_threads = pos 0;
  user = [];
  cmdline = [];
  utime = pos 0;
  stime = pos 0;
}

abbrev put_first : ℕ → Option (Text × Text) → Option (Text × Text)
put_first c none = none
put_first c (some (before, behind)) = some (c ∷ before, behind)

-- The texts before and behind the first colon.
unfoldable split_colon : Text → Option (Text × Text)
split_colon [] = none
split_colon (c ∷ cs) =
    let rest = split_colon cs in if c == b':' then some ([], cs) else put_first c rest

-- Whether a line `name:x:uid:…` of /etc/passwd has at least three colons, and then the number that
-- stands in its third field.
abbrev uid_field : Text → Option ℕ
uid_field behind_second = elim (split_colon behind_second) [
  | none ↦ none
  | some fields ↦ some (extracted 32 fields.0)
]

abbrev second_field : Text → Option ℕ
second_field behind_first = elim (split_colon behind_first) [
  | none ↦ none
  | some fields ↦ uid_field fields.1
]

unfoldable passwd_line : Text → Option (Text × ℕ)
unfolding split_colon extracted
passwd_line line = elim (split_colon line) [
  | none ↦ none
  | some fields ↦ elim (second_field fields.1) [ none ↦ none | some uid ↦ some (fields.0, uid) ]
]

abbrev has_uid : ℕ → Option (Text × ℕ) → Bool
has_uid uid none = false
has_uid uid (some entry) = entry.1 == uid

abbrev name_of : Option (Text × ℕ) → Text
name_of none = []
name_of (some entry) = entry.0

-- The name in the first line that has the number.
unfoldable passwd_name : ℕ → List Text → Option Text
unfolding passwd_line
passwd_name uid [] = none
passwd_name uid (l ∷ ls) =
    let rest = passwd_name uid ls in
    if has_uid uid (passwd_line l) then some (name_of (passwd_line l)) else rest

abbrev lines_in : Option Text → List Text
lines_in none = []
lines_in (some text) = lines_of text

-- `passwd` is the text of /etc/passwd.
unfoldable user_of : Option Text → ℕ → Text → Text
unfolding passwd_name lines_of to_string
user_of passwd uid old =
    or_text (or_default (passwd_name uid (lines_in passwd)) old) (to_string uid)

-- One line of the status file.
unfoldable pub status_line : Option Text → ProcInfo → Text → ProcInfo
unfolding starts_with in_word in_char in_signed extracted user_of
status_line passwd info line =
    if starts_with line (codes "Name:")
    then record info { name = (in_word (stream (drop 5 line)) info.name).1 }
    else if starts_with line (codes "State:")
    then record info { state = (in_char (stream (drop 6 line)) info.state).1 }
    else if starts_with line (codes "VmRSS:")
    then record info { vm_rss_kb = (in_signed 64 (stream (drop 6 line)) info.vm_rss_kb).1 }
    else if starts_with line (codes "VmSize:")
    then record info { vm_virt_kb = (in_signed 64 (stream (drop 7 line)) info.vm_virt_kb).1 }
    else if starts_with line (codes "Threads:")
    then record info { num_threads = (in_signed 32 (stream (drop 8 line)) info.num_threads).1 }
    else if starts_with line (codes "Uid:")
    then record info { user = user_of passwd (extracted 32 (drop 4 line)) info.user }
    else info

unfoldable pub status_lines : Option Text → ProcInfo → List Text → ProcInfo
unfolding status_line
status_lines passwd info [] = info
status_lines passwd info (l ∷ ls) = status_lines passwd (status_line passwd info l) ls

-- What stands behind the last closing parenthesis.
unfoldable pub behind_last_paren : Text → Option Text
behind_last_paren [] = none
behind_last_paren (c ∷ cs) =
    let rest = behind_last_paren cs in
    if is_some rest then rest else if c == b')' then some cs else none

-- The words that are read before the two times.
abbrev skipped_words : ℕ
skipped_words = 11

unfoldable pub skip_words : ℕ → Stream → Stream
unfolding in_word
skip_words zero s = s
skip_words (suc n) s = skip_words n (in_word s []).0

abbrev pub read_times : Stream → ℤ × ℤ → ℤ × ℤ
read_times s old = let u = in_signed 64 s old.0 in (u.1, (in_signed 64 u.0 old.1).1)

-- The times behind the closing parenthesis; substr throws where nothing stands there.
abbrev pub times_behind : Text → ℤ × ℤ → Option (ℤ × ℤ)
times_behind [] old = none
times_behind (c ∷ cs) old = some (read_times (skip_words skipped_words (stream cs)) old)

abbrev pub times_in : Option Text → ℤ × ℤ → Option (ℤ × ℤ)
times_in none old = some old
times_in (some behind) old = times_behind behind old

abbrev pub first_line : List Text → Text
first_line [] = []
first_line (l ∷ ls) = l

-- The two times in the text of a stat file, with the values of the variables before; `none` where an
-- exception leaves it.
unfoldable pub stat_times : Text → ℤ × ℤ → Option (ℤ × ℤ)
unfolding lines_of behind_last_paren skip_words in_signed
stat_times text old = times_in (behind_last_paren (first_line (lines_of text))) old

-- The text up to the first byte of value 0.
unfoldable until_nul : Text → Text
until_nul [] = []
until_nul (c ∷ cs) = let rest = until_nul cs in if c == 0 then [] else c ∷ rest

abbrev blanked : ℕ → ℕ
blanked c = if c == 0 then b' ' else c

-- The number of a process in the name of a directory. It fits an int.
unfoldable pub pid_of : Text → Option ℕ
pid_of [] = some 0
pid_of (c ∷ cs) =
    let rest = pid_of cs in
    if is_digit c && is_some rest then some (value_from 0 (c ∷ cs)) else none

abbrev is_pid : Option ℕ → Bool
is_pid none = false
is_pid (some n) = ltb 0 n

abbrev number_in : Option ℕ → ℤ
number_in none = pos 0
number_in (some n) = pos n

-- `entries` are the names in /proc, `none` where it cannot be opened.
unfoldable pub list_pids : Option (List Text) → List ℤ
unfolding pid_of value_from
list_pids none = []
list_pids (some []) = []
list_pids (some (n ∷ ns)) =
    let rest = list_pids (some ns) in
    if is_pid (pid_of n) then number_in (pid_of n) ∷ rest else rest

-- A process that has no status or no name, one whose stat file makes an exception, or what is known
-- of it.
pub data Inspected : Type 0 where
  missing throws : Inspected
  inspected : ProcInfo → Inspected

module _ (F : FileSystem) where
  open F use {State, read_file}

  abbrev proc_path : ℤ → Text → Text
  proc_path p file = printed 64 (codes "/proc/" ++ (int_to_string p ++ (codes "/" ++ file)))

  -- parseProcStatus: the process after it, and the bool that it returns.
  unfoldable pub parse_proc_status : State → ℤ → ProcInfo → ProcInfo × Bool
  unfolding status_lines lines_of
  parse_proc_status s p info = elim (read_file s (proc_path p (codes "status"))) [
    | none ↦ (info, false)
    | some text ↦
        let after = status_lines (read_file s (codes "/etc/passwd")) info (lines_of text) in
        (after, not (is_empty after.name))
  ]

  unfoldable pub parse_proc_stat : State → ℤ → ℤ × ℤ → Option (ℤ × ℤ)
  unfolding stat_times
  parse_proc_stat s p old = elim (read_file s (proc_path p (codes "stat"))) [
    | none ↦ some old
    | some text ↦ stat_times text old
  ]

  unfoldable pub read_cmdline : State → ℤ → Text
  unfolding until_nul
  read_cmdline s p = elim (read_file s (proc_path p (codes "cmdline"))) [
    | none ↦ []
    | some text ↦ map blanked (take 256 (until_nul text))
  ]

  abbrev with_times : State → ProcInfo → Option (ℤ × ℤ) → Inspected
  with_times s info none = throws
  with_times s info (some times) =
      inspected
        (record info { utime = times.0; stime = times.1; cmdline = read_cmdline s info.pid })

  -- What both handlers do for a process.
  unfoldable pub inspect : State → ℤ → Inspected
  unfolding parse_proc_status parse_proc_stat read_cmdline
  inspect s p =
      let status = parse_proc_status s p (new_info p) in
      if not status.1
      then missing
      else with_times s status.0 (parse_proc_stat s p (status.0.utime, status.0.stime))
