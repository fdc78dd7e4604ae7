-- ===== src/Tests/Files.antt =====
-- Examples for the properties of EaFileOfflineQueue.
use embed_agent.Base.{refl, ◌≡◌, true, [], ◌∷◌, none, some, Text, List, arith}
use embed_agent.OfflineQueue.Item.{
  item_fields, parsed, serialize_queued_item, parse_queued_item, parse-serialize_queued_item,
}
use embed_agent.OfflineQueue.File.{Outcomes, FileQueue, load, items_text, enqueue, remove_front}
use embed_agent.OfflineQueue.Reload.{IsKept}
use embed_agent.OfflineQueue.Log.{Operation, enqueues, removes_front, run, load-run}
use embed_agent.Tests.Codec.{fields_code, chunk_json, chunk_json-IsRead, one_line-fields_code}
use embed_agent.Tests.Data.{first_item}

abbrev item_line : Text
item_line = fields_code (item_fields first_item)

abbrev fine : Outcomes
fine = record { dir_ready = true; opened = true; flushed = true; renamed = true; cut = none }

parse-serialize_queued_item_example :
    (serialize_queued_item chunk_json first_item ≡ some item_line)
    × (parse_queued_item chunk_json item_line ≡ parsed first_item)
parse-serialize_queued_item_example =
    parse-serialize_queued_item chunk_json first_item item_line 5 (chunk_json-IsRead _ _) refl
      (omega arith)

first_item-IsKept : IsKept chunk_json first_item
first_item-IsKept = record {
  line = item_line;
  read_back = chunk_json-IsRead _ _;
  single = one_line-fields_code (item_fields first_item);
  time = 5;
  at = refl;
  small = omega arith;
}

abbrev empty_queue : FileQueue
empty_queue = record { file = none; items = [] }

abbrev sample_operations : List Operation
sample_operations =
    enqueues fine first_item ∷ (enqueues fine first_item ∷ (removes_front fine ∷ []))

load-run_example :
    load chunk_json (record (run chunk_json empty_queue sample_operations).0 { items = [] }) fine
    ≡ some ((run chunk_json empty_queue sample_operations).0, true)
unfolding run items_text enqueue remove_front
load-run_example =
    load-run chunk_json empty_queue sample_operations fine refl (refl, (refl, tt)) refl
      (first_item-IsKept, tt) refl refl
