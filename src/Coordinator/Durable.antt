-- ===== src/Coordinator/Durable.antt =====
-- EaQueueCoordinator (src/ea_queue_coordinator.cpp) with its queue in a file
-- (src/ea_file_offline_queue.cpp).
use mathlib.Core.Path.{subst}
use embed_agent.Base.{
  ℕ, ◌^◌, ◌≡◌, ◌≤◌, ◌<◌, refl, ap, Bool, true, List, [], ◌∷◌, ◌++◌, Option, none, some, Text, ℤ,
  pos, length, to_size,
}
use embed_agent.Cppev.{ChatCodec, JsonCodec}
use embed_agent.OfflineQueue.{QueuedItem}
use embed_agent.OfflineQueue.Item.{serialize_queued_item}
use embed_agent.OfflineQueue.File.{
  Outcomes, FileQueue, contents, items_text, append_line, persist_all, enqueue, remove_front,
  update_front_attempt, load,
}
use embed_agent.OfflineQueue.Reload.{IsKept, AllKept, IsSaved, load_saved, enqueue-IsSaved}
use embed_agent.OfflineQueue.Stored.{StoredQueue, stored_queue, next_outcomes}
use embed_agent.Coordinator.{Coordinator, CoordinatorOptions}
use embed_agent.Coordinator.Invariant.{IsSound}
use embed_agent.Coordinator.Events.{Event, run, run-Settles}
use embed_agent.Coordinator.Keeping.{AllAt, Holds, run-Keeps}

-- Every call of the file system succeeds, and writes the whole text.
abbrev IsFine : Outcomes → Type 0
IsFine io =
    (io.dir_ready ≡ true)
    × (io.opened ≡ true)
    × (io.flushed ≡ true)
    × (io.renamed ≡ true)
    × (io.cut ≡ none)

-- A time of a clock, in a signed type of 64 bits.
abbrev IsClockTime : ℤ → Type 0
IsClockTime ms = (t : ℕ) × (ms ≡ pos t) × (t < 2 ^ 63)

module _ (J : JsonCodec) where
  -- The JSON library reads back every item, with a time of a clock, from the one line that it writes.
  abbrev pub KeepsItems : Type 0
  KeepsItems = (x : QueuedItem) → IsClockTime x.enqueued_at_ms → IsKept J x

  -- The file has the text of the items in memory, each of them is read back, and the calls of the
  -- file system that are still to come succeed.
  abbrev IsStoredWhole : StoredQueue → Type 0
  IsStoredWhole s = IsSaved J s.queue × AllKept J s.queue.items × ((n : ℕ) → IsFine (s.outcomes n))

  items_text-AllKept :
      (xs : List QueuedItem) → AllKept J xs → (t : Text) × (items_text J xs ≡ some t)
  unfolding items_text serialize_queued_item
  items_text-AllKept [] k = ([], refl)
  items_text-AllKept (x ∷ xs) (k, ks) =
      let rest = items_text-AllKept xs ks in
      (k.line ++ 10 ∷ rest.0, rw (k.read_back.written, rest.1) refl)

  persist_all-writes :
      (q : FileQueue) (io : Outcomes) (t : Text)
      → IsFine io
      → items_text J q.items ≡ some t
      → persist_all J q io ≡ (record q { file = some t }, true)
  unfolding persist_all
  persist_all-writes q io t (ready, opened, flushed, renamed, whole) e =
      rw (ready, opened, e, flushed, renamed) refl

  persist_all-whole :
      (q : FileQueue) (io : Outcomes)
      → IsFine io
      → AllKept J q.items
      → IsSaved J (persist_all J q io).0 × AllKept J (persist_all J q io).0.items
  persist_all-whole q io fine k =
      let text = items_text-AllKept q.items k in
      rw (persist_all-writes q io text.0 fine text.1) (text.1, k)

  AllKept-append :
      (xs : List QueuedItem) (x : QueuedItem) → AllKept J xs → IsKept J x → AllKept J (xs ++ x ∷ [])
  AllKept-append [] x ks k = (k, tt)
  AllKept-append (y ∷ xs) x (j, ks) k = (j, AllKept-append xs x ks k)

  enqueue-writes :
      (q : FileQueue) (io : Outcomes) (x : QueuedItem) (line : Text)
      → IsFine io
      → serialize_queued_item J x ≡ some line
      → enqueue J q io x ≡ (
        record q { items = q.items ++ x ∷ []; file = some (contents q.file ++ (line ++ 10 ∷ [])) },
        true,
      )
  unfolding enqueue append_line
  enqueue-writes q io x line (ready, opened, flushed, renamed, whole) e =
      rw (e, ready, opened, whole) refl

  enqueue-whole :
      KeepsItems
      → (s : StoredQueue) (x : QueuedItem) → IsClockTime x.enqueued_at_ms
      → IsStoredWhole s
      → IsStoredWhole ((stored_queue J).enqueue s x).0
  unfolding serialize_queued_item
  enqueue-whole keeps s x at (saved, kept, fine) =
      let k = keeps x at in
      let written =
        enqueue-writes s.queue (next_outcomes s) x k.line (fine s.operations) k.read_back.written in
      (
        enqueue-IsSaved J s.queue (next_outcomes s) x saved (fine s.operations).4
            (ap (λ (r : FileQueue × Bool). r.1) written),
        rw written (AllKept-append s.queue.items x kept k),
        fine,
      )

  remove_front-both :
      (xs : List QueuedItem) (file : Option Text) (io : Outcomes)
      → IsFine io
      → IsSaved J (record { file = file; items = xs })
      → AllKept J xs
      → let r = remove_front J (record { file = file; items = xs }) io in
        IsSaved J r.0 × AllKept J r.0.items
  unfolding remove_front
  remove_front-both [] file io fine saved k = (saved, k)
  remove_front-both (x ∷ xs) file io fine saved (k, ks) =
      persist_all-whole (record { file = file; items = xs }) io fine ks

  remove_front-whole :
      (s : StoredQueue) → IsStoredWhole s → IsStoredWhole ((stored_queue J).remove_front s).0
  remove_front-whole s (saved, kept, fine) =
      let both =
        remove_front-both s.queue.items s.queue.file (next_outcomes s) (fine s.operations) saved
          kept in
      (both.0, both.1, fine)

  update_front_attempt-both :
      KeepsItems
      → (xs : List QueuedItem) (file : Option Text) (io : Outcomes) (n : ℤ) → IsFine io
      → IsSaved J (record { file = file; items = xs })
      → AllKept J xs
      → let r = update_front_attempt J (record { file = file; items = xs }) io n in
        IsSaved J r.0 × AllKept J r.0.items
  unfolding update_front_attempt
  update_front_attempt-both keeps [] file io n fine saved k = (saved, k)
  update_front_attempt-both keeps (x ∷ xs) file io n fine saved (k, ks) =
      let counted = record x { attempt_count = n } in
      persist_all-whole (record { file = file; items = counted ∷ xs }) io fine
        (keeps counted (k.time, k.at, k.small), ks)

  update_front_attempt-whole :
      KeepsItems
      → (s : StoredQueue) (n : ℤ) → IsStoredWhole s
      → IsStoredWhole ((stored_queue J).update_front_attempt s n).0
  update_front_attempt-whole keeps s n (saved, kept, fine) =
      let both =
        update_front_attempt-both keeps s.queue.items s.queue.file (next_outcomes s) n
          (fine s.operations) saved kept in
      (both.0, both.1, fine)

module _ (C : ChatCodec) (J : JsonCodec) (o : CoordinatorOptions) (limit : ℕ)
    (limits : to_size o.max_queue_items ≤ limit) where
  -- A coordinator whose queue is in a file loses no message that is in the queue: from a sound
  -- state, with a file that has the text of the items in memory, every sequence of events ends, and a
  -- queue that loads the file after it gets exactly the items that are in memory then, in their
  -- order. That is so where the calls of the file system succeed and write whole
  -- texts, the JSON library reads back each
  -- item from the one line that it writes, and the events happen at times from 0 to 2^63 - 1.
  pub run-IsReloaded :
      KeepsItems J
      → (w : Coordinator C (stored_queue J)) (es : List (Text × ℤ × Event)) (io : Outcomes)
      → IsSound C (stored_queue J) o w
      → length w.queue.queue.items ≤ limit
      → IsStoredWhole J w.queue
      → AllAt IsClockTime es
      → IsFine io
      → (w' : Coordinator C (stored_queue J)) × (run C (stored_queue J) w es ≡ some w')
        × (load J (record w'.queue.queue { items = [] }) io ≡ some (w'.queue.queue, true))
  run-IsReloaded keeps w es io sound le whole at (ready, opened, _, _, _) =
      let ended = run-Settles C (stored_queue J) o limit limits w es sound le in
      let kept =
        subst
          (Holds C (stored_queue J) IsClockTime (IsStoredWhole J) (enqueue-whole J keeps)
            (remove_front-whole J) (update_front_attempt-whole J keeps))
          ended.1
          (run-Keeps C (stored_queue J) IsClockTime (IsStoredWhole J) (enqueue-whole J keeps)
            (remove_front-whole J) (update_front_attempt-whole J keeps) w es at whole) in
      (ended.0, ended.1, load_saved J ended.0.queue.queue [] io kept.1 kept.0 ready opened)
