-- ===== src/OfflineQueue/Log.antt =====
-- Sequences of operations of EaFileOfflineQueue (src/ea_file_offline_queue.cpp).
use embed_agent.Base.{
  ◌≡◌, ◌⊎◌, inl, inr, Bool, true, false, ◌&&◌, List, [], ◌∷◌, some, arith, ℤ, ◌∙◌, ap, none,
}
use embed_agent.Cppev.{JsonCodec}
use embed_agent.OfflineQueue.{QueuedItem}
use embed_agent.OfflineQueue.File.{
  Outcomes, FileQueue, contents, items_text, load, persist_all, enqueue, remove_front, dequeue,
  update_front_attempt,
}
use embed_agent.OfflineQueue.Reload.{
  IsSaved, AllKept, persist_all_cases, load_saved, enqueue-IsSaved,
}

-- The operations that change the queue, with what the file system returns to each.
pub data Operation : Type 0 where
  enqueues : Outcomes → QueuedItem → Operation
  removes_front : Outcomes → Operation
  dequeues : Outcomes → Bool → Operation
  updates_front : Outcomes → ℤ → Operation

module _ (J : JsonCodec) where
  -- The queue after an operation, and what the operation returns.
  unfoldable pub apply : FileQueue → Operation → FileQueue × Bool
  apply q (enqueues io x) = enqueue J q io x
  apply q (removes_front io) = remove_front J q io
  apply q (dequeues io out) = ((dequeue J q io out).0, (dequeue J q io out).1)
  apply q (updates_front io n) = update_front_attempt J q io n

  -- The queue after the operations, and whether each of them returned true.
  unfoldable pub run : FileQueue → List Operation → FileQueue × Bool
  unfolding apply
  run q [] = (q, true)
  run q (o ∷ os) = let r = apply q o in let rest = run r.0 os in (rest.0, r.1 && rest.1)

  -- No append is cut short.
  abbrev pub AreWhole : List Operation → Type 0
  AreWhole [] = Unit {0}
  AreWhole (enqueues io x ∷ os) = (io.cut ≡ none) × AreWhole os
  AreWhole (o ∷ os) = AreWhole os

  abbrev IsWhole : Operation → Type 0
  IsWhole (enqueues io x) = io.cut ≡ none
  IsWhole _ = Unit {0}

  AreWhole-cons :
      (o : Operation) (os : List Operation) → AreWhole (o ∷ os) → IsWhole o × AreWhole os
  AreWhole-cons (enqueues io x) os h = h
  AreWhole-cons (removes_front io) os h = (tt, h)
  AreWhole-cons (dequeues io out) os h = (tt, h)
  AreWhole-cons (updates_front io n) os h = (tt, h)

  persist_all-IsSaved :
      (q : FileQueue) (io : Outcomes)
      → (persist_all J q io).1 ≡ true
      → IsSaved J (persist_all J q io).0
  persist_all-IsSaved q io ok = by_cases (persist_all J q io) (persist_all_cases J q io) ok
    where
      by_cases :
          (r : FileQueue × Bool)
          → (r.0.items ≡ q.items)
            × (((r.1 ≡ false) × (r.0.file ≡ q.file))
                ⊎ ((r.1 ≡ true) × (items_text J q.items ≡ some (contents r.0.file))))
          → r.1 ≡ true
          → IsSaved J r.0
      by_cases r (same, inl (failed, _)) ok = cc
      by_cases r (same, inr (_, written)) ok = ap (items_text J) same ∙ written

  apply-IsSaved :
      (q : FileQueue) (o : Operation)
      → IsSaved J q
      → IsWhole o
      → (apply q o).1 ≡ true
      → IsSaved J (apply q o).0
  unfolding apply remove_front dequeue update_front_attempt
  apply-IsSaved q (enqueues io x) saved whole ok = enqueue-IsSaved J q io x saved whole ok
  apply-IsSaved q (removes_front io) saved whole ok = by_items q.items ok
    where
      by_items :
          (xs : List QueuedItem)
          → let r = remove_front J (record q { items = xs }) io in r.1 ≡ true → IsSaved J r.0
      by_items [] ok = cc
      by_items (x ∷ xs) ok = persist_all-IsSaved (record q { items = xs }) io ok
  apply-IsSaved q (dequeues io out) saved whole ok = by_items q.items ok
    where
      by_items :
          (xs : List QueuedItem)
          → let r = dequeue J (record q { items = xs }) io out in r.1 ≡ true → IsSaved J r.0
      by_items [] ok = cc
      by_items (x ∷ xs) ok = persist_all-IsSaved (record q { items = xs }) io ok
  apply-IsSaved q (updates_front io n) saved whole ok = by_items q.items ok
    where
      by_items :
          (xs : List QueuedItem)
          → let r = update_front_attempt J (record q { items = xs }) io n in
            r.1 ≡ true → IsSaved J r.0
      by_items [] ok = cc
      by_items (x ∷ xs) ok =
          persist_all-IsSaved (record q { items = record x { attempt_count = n } ∷ xs }) io ok

  run-IsSaved :
      (q : FileQueue) (os : List Operation)
      → IsSaved J q
      → AreWhole os
      → (run q os).1 ≡ true
      → IsSaved J (run q os).0
  unfolding run
  run-IsSaved q [] saved whole ok = saved
  run-IsSaved q (o ∷ os) saved whole ok =
      let (w, ws) = AreWhole-cons o os whole in
      run-IsSaved (apply q o).0 os (apply-IsSaved q o saved w (ground arith)) ws (ground arith)

  -- From a queue whose file holds its items, after any operations that all returned true, with every
  -- line that was appended written whole (which appendLine does not check), a new queue that loads
  -- the file gets exactly the items that are in memory, in their order, if the directory and the file
  -- can be opened and the JSON library reads back each of these items, with a time from 0 to 2^63 - 1,
  -- from the one line that it writes.
  pub load-run :
      (q : FileQueue) (os : List Operation) (io : Outcomes)
      → IsSaved J q
      → AreWhole os
      → (run q os).1 ≡ true
      → AllKept J (run q os).0.items
      → io.dir_ready ≡ true
      → io.opened ≡ true
      → load J (record (run q os).0 { items = [] }) io ≡ some ((run q os).0, true)
  load-run q os io saved whole ok kept ready opened =
      load_saved J (run q os).0 [] io kept (run-IsSaved q os saved whole ok) ready opened
