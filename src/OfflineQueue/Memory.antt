-- ===== src/OfflineQueue/Memory.antt =====
-- EaMemoryOfflineQueue (src/ea_memory_offline_queue.cpp): the queue as a deque.
use embed_agent.Base.{
  ℕ, zero, suc, ◌≡◌, refl, Bool, true, false, List, [], ◌∷◌, ◌++◌, Option, none, some, ℤ, length,
  ap, sym, append-nil, append_assoc, ◌∙◌,
}
use embed_agent.OfflineQueue.{QueuedItem, OfflineQueue, head?, tail, set_front_attempt}

pub record MemoryQueue : Type 0 where
  pub items : List QueuedItem

unfoldable pub enqueue : MemoryQueue → QueuedItem → MemoryQueue × Bool
enqueue q item = (record q { items = q.items ++ item ∷ [] }, true)

unfoldable pub peek : MemoryQueue → Bool → Option QueuedItem
peek q false = none
peek q true = head? q.items

unfoldable pub dequeue : MemoryQueue → Bool → MemoryQueue × Bool × Option QueuedItem
dequeue q out = elim q.items [
  | [] ↦ (q, false, none)
  | x ∷ xs ↦ (record q { items = xs }, true, elim out [ true ↦ some x | false ↦ none ])
]

unfoldable pub remove_front : MemoryQueue → MemoryQueue × Bool
remove_front q = elim q.items [ [] ↦ (q, false) | x ∷ xs ↦ (record q { items = xs }, true) ]

unfoldable pub update_front_attempt : MemoryQueue → ℤ → MemoryQueue × Bool
update_front_attempt q n = elim q.items [
  | [] ↦ (q, false)
  | x ∷ xs ↦ (record q { items = record x { attempt_count = n } ∷ xs }, true)
]

unfoldable pub size : MemoryQueue → ℕ
size q = length q.items

unfoldable pub load : MemoryQueue → MemoryQueue × Bool
load q = (q, true)

pub items-remove_front : (q : MemoryQueue) → (remove_front q).0.items ≡ tail q.items
unfolding remove_front
items-remove_front q = go q.items
  where
    go : (xs : List QueuedItem) → (remove_front (record { items = xs })).0.items ≡ tail xs
    go [] = refl
    go (x ∷ xs) = refl

pub items-update_front_attempt :
    (q : MemoryQueue) (n : ℤ) → (update_front_attempt q n).0.items ≡ set_front_attempt n q.items
unfolding update_front_attempt
items-update_front_attempt q n = go q.items
  where
    go :
        (xs : List QueuedItem)
        → (update_front_attempt (record { items = xs }) n).0.items ≡ set_front_attempt n xs
    go [] = refl
    go (x ∷ xs) = refl

pub items-enqueue : (q : MemoryQueue) (x : QueuedItem) → (enqueue q x).0.items ≡ q.items ++ x ∷ []
unfolding enqueue
items-enqueue q x = refl

pub peek-items : (q : MemoryQueue) → peek q true ≡ head? q.items
unfolding peek
peek-items q = refl

pub size-items : (q : MemoryQueue) → size q ≡ length q.items
unfolding size
size-items q = refl

-- The deque is an offline queue.
abbrev pub memory_queue : OfflineQueue
memory_queue = record {
  State = MemoryQueue;
  enqueue = enqueue;
  peek = peek;
  dequeue = dequeue;
  remove_front = remove_front;
  update_front_attempt = update_front_attempt;
  size = size;
  load = load;
  items = λ q. q.items;
  items-enqueue = items-enqueue;
  peek-items = peek-items;
  items-remove_front = items-remove_front;
  items-update_front_attempt = items-update_front_attempt;
  size-items = size-items;
}

-- `dequeue` for each of the queued items in turn.
drain : ℕ → MemoryQueue → List QueuedItem
unfolding dequeue
drain zero q = []
drain (suc n) q = elim (dequeue q true).2 [ none ↦ [] | some x ↦ x ∷ drain n (dequeue q true).0 ]

pub enqueue_all : MemoryQueue → List QueuedItem → MemoryQueue
enqueue_all q [] = q
enqueue_all q (x ∷ xs) = enqueue_all (enqueue q x).0 xs

drain-items : (xs : List QueuedItem) → drain (length xs) (record { items = xs }) ≡ xs
unfolding drain
drain-items [] = refl
drain-items (x ∷ xs) = ap (◌∷◌ x) (drain-items xs)

enqueue_all-items :
    (q : MemoryQueue) (xs : List QueuedItem) → (enqueue_all q xs).items ≡ q.items ++ xs
unfolding enqueue_all enqueue
enqueue_all-items q [] = sym (append-nil q.items)
enqueue_all-items q (x ∷ xs) =
    enqueue_all-items (enqueue q x).0 xs ∙ append_assoc q.items (x ∷ []) xs

-- First in, first out: the items that were enqueued come out behind those already there, in the
-- order of their arrival.
drain-enqueue_all :
    (q : MemoryQueue) (xs : List QueuedItem)
    → drain (size (enqueue_all q xs)) (enqueue_all q xs) ≡ q.items ++ xs
unfolding size
drain-enqueue_all q xs = drain-items (enqueue_all q xs).items ∙ enqueue_all-items q xs
