-- ===== src/OfflineQueue/Stored.antt =====
-- EaFileOfflineQueue (src/ea_file_offline_queue.cpp) as an offline queue that a coordinator owns.
use embed_agent.Base.{
  ℕ, suc, ◌≡◌, refl, Bool, true, false, List, [], ◌∷◌, ◌++◌, Option, none, some, Text, ℤ, length,
}
use embed_agent.Cppev.{JsonCodec}
use embed_agent.OfflineQueue.{QueuedItem, OfflineQueue, tail, set_front_attempt}
use embed_agent.OfflineQueue.Item.{serialize_queued_item}
use embed_agent.OfflineQueue.File.{
  Outcomes, FileQueue, append_text, persist_all, peek, enqueue, remove_front, dequeue,
  update_front_attempt, load,
}
use embed_agent.OfflineQueue.Reload.{persist_all_cases}

-- The queue, what the file system returns to its operations in their order, the number of
-- operations so far, and whether an exception has left `load`.
pub record StoredQueue : Type 0 where
  pub queue : FileQueue
  pub outcomes : ℕ → Outcomes
  pub operations : ℕ
  pub thrown : Bool

abbrev pub next_outcomes : StoredQueue → Outcomes
next_outcomes s = s.outcomes s.operations

-- The queue after an operation.
abbrev after_operation : StoredQueue → FileQueue → StoredQueue
after_operation s q = record s { queue = q; operations = suc s.operations }

module _ (J : JsonCodec) where
  persist_all-items : (q : FileQueue) (io : Outcomes) → (persist_all J q io).0.items ≡ q.items
  persist_all-items q io = (persist_all_cases J q io).0

  append_text-items :
      (q : FileQueue) (io : Outcomes) (line : Option Text)
      → (append_text J q io line).0.items ≡ q.items
  append_text-items q io none = refl
  append_text-items q io (some line) = by_outcome io.dir_ready io.opened
    where
      by_outcome :
          (ready opened : Bool)
          → (append_text J q (record io { dir_ready = ready; opened = opened }) (some line)).0.items
            ≡ q.items
      by_outcome true true = refl
      by_outcome true false = refl
      by_outcome false opened = refl

  pub items-enqueue :
      (q : FileQueue) (io : Outcomes) (x : QueuedItem)
      → (enqueue J q io x).0.items ≡ q.items ++ x ∷ []
  unfolding enqueue
  items-enqueue q io x =
      append_text-items (record q { items = q.items ++ x ∷ [] }) io (serialize_queued_item J x)

  pub items-remove_front :
      (q : FileQueue) (io : Outcomes) → (remove_front J q io).0.items ≡ tail q.items
  unfolding remove_front
  items-remove_front q io = by_items q.items
    where
      by_items :
          (xs : List QueuedItem) → (remove_front J (record q { items = xs }) io).0.items ≡ tail xs
      by_items [] = refl
      by_items (x ∷ xs) = persist_all-items (record q { items = xs }) io

  pub items-update_front_attempt :
      (q : FileQueue) (io : Outcomes) (n : ℤ)
      → (update_front_attempt J q io n).0.items ≡ set_front_attempt n q.items
  unfolding update_front_attempt
  items-update_front_attempt q io n = by_items q.items
    where
      by_items :
          (xs : List QueuedItem)
          → (update_front_attempt J (record q { items = xs }) io n).0.items ≡ set_front_attempt n xs
      by_items [] = refl
      by_items (x ∷ xs) =
          persist_all-items (record q { items = record x { attempt_count = n } ∷ xs }) io

  abbrev stored_load : StoredQueue → Option (FileQueue × Bool) → StoredQueue × Bool
  stored_load s none = (record s { operations = suc s.operations; thrown = true }, false)
  stored_load s (some r) = (after_operation s r.0, r.1)

  -- The queue in a file is an offline queue whatever the file system returns: an operation whose
  -- write fails has changed the items in memory all the same.
  abbrev pub stored_queue : OfflineQueue
  stored_queue = record {
    State = StoredQueue;
    enqueue = λ s x. let r = enqueue J s.queue (next_outcomes s) x in (after_operation s r.0, r.1);
    peek = λ s out. peek J s.queue out;
    dequeue = λ s out.
        let r = dequeue J s.queue (next_outcomes s) out in (after_operation s r.0, r.1, r.2);
    remove_front =
        λ s. let r = remove_front J s.queue (next_outcomes s) in (after_operation s r.0, r.1);
    update_front_attempt = λ s n.
        let r = update_front_attempt J s.queue (next_outcomes s) n in (after_operation s r.0, r.1);
    size = λ s. length s.queue.items;
    load = λ s. stored_load s (load J s.queue (next_outcomes s));
    items = λ s. s.queue.items;
    items-enqueue = λ s x. items-enqueue s.queue (next_outcomes s) x;
    peek-items = λ s. refl;
    items-remove_front = λ s. items-remove_front s.queue (next_outcomes s);
    items-update_front_attempt = λ s n. items-update_front_attempt s.queue (next_outcomes s) n;
    size-items = λ s. refl;
  }
