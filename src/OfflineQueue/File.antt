-- ===== src/OfflineQueue/File.antt =====
-- EaFileOfflineQueue (src/ea_file_offline_queue.cpp): the queue in memory with a file of JSON lines.
-- The calls of the file system may fail; what they return is an argument of the operation.
use embed_agent.Base.{
  ℕ, Bool, true, false, not, List, [], ◌∷◌, ◌++◌, Option, none, some, Text, ℤ, is_empty, length,
  take, if◌then◌else◌, ◌==◌,
}
use embed_agent.Cppev.{JsonCodec}
use embed_agent.OfflineQueue.{QueuedItem, head?}
use embed_agent.OfflineQueue.Item.{
  ParsedItem, corrupt, parsed, throws, serialize_queued_item, parse_queued_item,
}

-- What the calls of one operation return: ensureDataDir, the opening of a file, the flush of the
-- whole text, the rename; and after how many characters the write of appendLine stops, `none` where
-- it is complete. appendLine does not look at that.
pub record Outcomes : Type 0 where
  pub dir_ready : Bool
  pub opened : Bool
  pub flushed : Bool
  pub renamed : Bool
  pub cut : Option ℕ

-- `file` is the text of offline_queue.jsonl, `none` where there is no such file.
pub record FileQueue : Type 0 where
  pub file : Option Text
  pub items : List QueuedItem

-- One line behind what the rest of the text gives.
abbrev pub cons_char : ℕ → List Text → List Text
cons_char c [] = (c ∷ []) ∷ []
cons_char c (l ∷ ls) = (c ∷ l) ∷ ls

-- std::getline until the end of the text: a line break ends a line, and a text behind the last line
-- break is a line where it is not empty.
unfoldable pub lines_of : Text → List Text
lines_of [] = []
lines_of (c ∷ cs) = let rest = lines_of cs in if c == 10 then [] ∷ rest else cons_char c rest

abbrev cons_item : QueuedItem → Option (List QueuedItem) → Option (List QueuedItem)
cons_item x none = none
cons_item x (some xs) = some (x ∷ xs)

-- What a parsed line adds to the items behind it.
abbrev add_parsed : ParsedItem → Option (List QueuedItem) → Option (List QueuedItem)
add_parsed corrupt rest = rest
add_parsed (parsed x) rest = cons_item x rest
add_parsed throws rest = none

abbrev pub contents : Option Text → Text
contents none = []
contents (some text) = text

-- What of a text gets into the file.
abbrev pub written_part : Option ℕ → Text → Text
written_part none t = t
written_part (some n) t = take n t

module _ (J : JsonCodec) where
  -- The loop of load: empty and corrupt lines are skipped; `none` where std::stoll throws.
  unfoldable pub read_lines : List Text → Option (List QueuedItem)
  unfolding parse_queued_item
  read_lines [] = some []
  read_lines (l ∷ ls) =
      let rest = read_lines ls in
      if is_empty l then rest else add_parsed (parse_queued_item J l) rest

  abbrev loaded_items : FileQueue → Option (List QueuedItem) → Option (FileQueue × Bool)
  loaded_items q none = none
  loaded_items q (some xs) = some (record q { items = xs }, true)

  unfoldable pub load_file : FileQueue → Option Text → Option (FileQueue × Bool)
  unfolding lines_of read_lines
  load_file q none = some (record q { items = [] }, true)
  load_file q (some text) = loaded_items q (read_lines (lines_of text))

  -- `none` where an exception leaves load. A file that cannot be opened counts as missing.
  unfoldable pub load : FileQueue → Outcomes → Option (FileQueue × Bool)
  unfolding load_file
  load q io =
      if not io.dir_ready
      then some (record q { items = [] }, false)
      else load_file q (if io.opened then q.file else none)

  abbrev pub append_text : FileQueue → Outcomes → Option Text → FileQueue × Bool
  append_text q io none = (q, false)
  append_text q io (some line) =
      if not io.dir_ready then (q, false) else if not io.opened then (q, false) else (
        record q { file = some (contents q.file ++ written_part io.cut (line ++ 10 ∷ [])) },
        true,
      )

  unfoldable pub append_line : FileQueue → Outcomes → QueuedItem → FileQueue × Bool
  unfolding serialize_queued_item
  append_line q io item = append_text q io (serialize_queued_item J item)

  abbrev pub cons_line : Option Text → Option Text → Option Text
  cons_line none rest = none
  cons_line (some line) none = none
  cons_line (some line) (some rest) = some (line ++ 10 ∷ rest)

  -- The text that the loop of persistAll writes; `none` where an item is not serialized.
  unfoldable pub items_text : List QueuedItem → Option Text
  unfolding serialize_queued_item
  items_text [] = some []
  items_text (x ∷ xs) = cons_line (serialize_queued_item J x) (items_text xs)

  abbrev pub replace_file : FileQueue → Outcomes → Option Text → FileQueue × Bool
  replace_file q io none = (q, false)
  replace_file q io (some text) =
      if not io.flushed
      then (q, false)
      else if not io.renamed
      then (q, false)
      else (record q { file = some text }, true)

  -- The text goes to a second file, which takes the place of the first.
  unfoldable pub persist_all : FileQueue → Outcomes → FileQueue × Bool
  unfolding items_text
  persist_all q io =
      if not io.dir_ready
      then (q, false)
      else if not io.opened
      then (q, false)
      else replace_file q io (items_text q.items)

  unfoldable pub enqueue : FileQueue → Outcomes → QueuedItem → FileQueue × Bool
  unfolding append_line
  enqueue q io item = append_line (record q { items = q.items ++ item ∷ [] }) io item

  unfoldable pub remove_front : FileQueue → Outcomes → FileQueue × Bool
  unfolding persist_all
  remove_front q io = elim q.items [
    | [] ↦ (q, false)
    | x ∷ xs ↦ persist_all (record q { items = xs }) io
  ]

  unfoldable pub dequeue : FileQueue → Outcomes → Bool → FileQueue × Bool × Option QueuedItem
  unfolding persist_all
  dequeue q io out = elim q.items [
    | [] ↦ (q, false, none)
    | x ∷ xs ↦
        let r = persist_all (record q { items = xs }) io in (r.0, r.1, if out then some x else none)
  ]

  unfoldable pub update_front_attempt : FileQueue → Outcomes → ℤ → FileQueue × Bool
  unfolding persist_all
  update_front_attempt q io n = elim q.items [
    | [] ↦ (q, false)
    | x ∷ xs ↦ persist_all (record q { items = record x { attempt_count = n } ∷ xs }) io
  ]

  abbrev pub peek : FileQueue → Bool → Option QueuedItem
  peek q out = if out then head? q.items else none

  abbrev pub size : FileQueue → ℕ
  size q = length q.items
