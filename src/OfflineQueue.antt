-- ===== src/OfflineQueue.antt =====
-- include/ea_offline_queue.h: the queue of messages that wait for the network. The interface is a
-- record of operations with what its clients rely on, stated over the items in their order.
pub mod Memory
pub mod Item
pub mod File
pub mod Reload
pub mod Log
pub mod Stored
use embed_agent.Base.{
  ℕ, ◌≡◌, Bool, true, false, List, [], ◌∷◌, ◌++◌, Option, none, some, Text, ℤ, pos, length,
  is_empty,
}

-- EaQueuedItem.
pub record QueuedItem : Type 0 where
  pub id : Text
  pub user_text : Text
  pub enqueued_at_ms : ℤ
  pub attempt_count : ℤ

abbrev pub head? : List QueuedItem → Option QueuedItem
head? [] = none
head? (x ∷ xs) = some x

abbrev pub tail : List QueuedItem → List QueuedItem
tail [] = []
tail (x ∷ xs) = xs

-- `items_.front().attemptCount = attemptCount`.
abbrev pub set_front_attempt : ℤ → List QueuedItem → List QueuedItem
set_front_attempt n [] = []
set_front_attempt n (x ∷ xs) = record x { attempt_count = n } ∷ xs

-- EaOfflineQueue. An operation that changes the queue returns the new state and its bool; an
-- argument `out` says whether the caller's pointer is not null.
pub record OfflineQueue : Type 1 where
  pub State : Type 0
  pub enqueue : State → QueuedItem → State × Bool
  pub peek : State → Bool → Option QueuedItem
  pub dequeue : State → Bool → State × Bool × Option QueuedItem
  pub remove_front : State → State × Bool
  pub update_front_attempt : State → ℤ → State × Bool
  pub size : State → ℕ
  pub load : State → State × Bool
  -- The items, the oldest first.
  pub items : State → List QueuedItem
  pub items-enqueue : (q : State) (x : QueuedItem) → items (enqueue q x).0 ≡ items q ++ x ∷ []
  pub peek-items : (q : State) → peek q true ≡ head? (items q)
  pub items-remove_front : (q : State) → items (remove_front q).0 ≡ tail (items q)
  pub items-update_front_attempt :
      (q : State) (n : ℤ) → items (update_front_attempt q n).0 ≡ set_front_attempt n (items q)
  pub size-items : (q : State) → size q ≡ length (items q)
