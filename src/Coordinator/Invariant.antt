-- ===== src/Coordinator/Invariant.antt =====
-- The invariant of EaQueueCoordinator (src/ea_queue_coordinator.cpp), and what its agent's calls
-- give it.
use embed_agent.Base.{
  ℕ, zero, suc, ◌+◌, ◌-◌, ◌≡◌, refl, inl, inr, Bool, true, false, ◌||◌, List, [], ◌∷◌, ◌++◌, Option,
  some, Text, ℤ, arith, Bool-cases, length, length-append, ap,
}
use embed_agent.Cppev.{ChatCodec}
use embed_agent.Session.Prompt.{IsWellFormed}
use embed_agent.OfflineQueue.{OfflineQueue, QueuedItem, tail, set_front_attempt}
use embed_agent.Agent.{
  Agent, InFlight, Outcome, waiting, finished, out_of_fuel, submit_user_message, without, replace,
  request_at,
}
use embed_agent.Agent.Ends.{Ends, OutcomeFits}
use embed_agent.Agent.Turns.{submit_user_message-Ends, submit_user_message_busy}
use embed_agent.Coordinator.{Coordinator, CoordinatorOptions, Callback, direct, flush_item}

abbrev pub is_flush : Callback → Bool
is_flush (direct _ _) = false
is_flush flush_item = true

module _ (C : ChatCodec) where
  -- Whether some request on its way belongs to a flush.
  unfoldable pub has_flush : List (InFlight C Callback) → Bool
  has_flush [] = false
  has_flush (f ∷ fs) = is_flush f.turn.on_done || has_flush fs

  pub has_flush-append :
      (fs : List (InFlight C Callback)) (f : InFlight C Callback)
      → has_flush (fs ++ f ∷ []) ≡ (has_flush fs || is_flush f.turn.on_done)
  unfolding has_flush
  has_flush-append [] f = ground arith
  has_flush-append (g ∷ fs) f = ground (arith, has_flush-append fs f)

  pub has_flush-without :
      (i : ℕ) (fs : List (InFlight C Callback)) (f : InFlight C Callback)
      → request_at C Callback fs i ≡ some f
      → is_flush f.turn.on_done ≡ false
      → has_flush (without C Callback i fs) ≡ has_flush fs
  unfolding has_flush
  has_flush-without i [] f here other = cc
  has_flush-without zero (g ∷ fs) f here other = ground arith
  has_flush-without (suc i) (g ∷ fs) f here other = ground (arith, has_flush-without i fs f)

  pub has_flush-replace :
      (i : ℕ) (fs : List (InFlight C Callback)) (f g : InFlight C Callback)
      → request_at C Callback fs i ≡ some f
      → is_flush g.turn.on_done ≡ is_flush f.turn.on_done
      → has_flush (replace C Callback i g fs) ≡ has_flush fs
  unfolding has_flush
  has_flush-replace i [] f g here same = cc
  has_flush-replace zero (h ∷ fs) f g here same = ground arith
  has_flush-replace (suc i) (h ∷ fs) f g here same = ground (arith, has_flush-replace i fs f g)

  -- What a call of the agent gives its owner: the callback is due, or a request holds it.
  abbrev pub Answers :
      List (InFlight C Callback) → Callback → Agent C Callback → Outcome C Callback → Type 0
  Answers before k a waiting =
      (f : InFlight C Callback) × (a.in_flight ≡ before ++ f ∷ []) × (f.turn.on_done ≡ k)
  Answers before k a (finished k' ok error) = (a.in_flight ≡ before) × (k' ≡ k)
  Answers before k a out_of_fuel = ⊥

  pub record IsAnswer (before : List (InFlight C Callback)) (k : Callback)
      (r : Agent C Callback × Outcome C Callback) : Type 0 where
    pub sound : IsWellFormed r.0.session
    pub answers : Answers before k r.0 r.1

  Fits-Answers :
      (before : List (InFlight C Callback)) (active : Bool) (on_text : Option ℕ) (k : Callback)
      (a : Agent C Callback) (o : Outcome C Callback)
      → OutcomeFits C Callback before active on_text k a o
      → Answers before k a o
  Fits-Answers before active on_text k a waiting (_, p) = (p.0, p.1, p.3)
  Fits-Answers before active on_text k a (finished k' ok error) (_, e, d) = (e, d)
  Fits-Answers before active on_text k a out_of_fuel h = h

  pub Ends-IsAnswer :
      (a : Agent C Callback) (before : List (InFlight C Callback)) (active : Bool)
      (on_text : Option ℕ) (k : Callback) (r : Agent C Callback × Outcome C Callback)
      → Ends C Callback a.opts before active on_text k r
      → IsAnswer before k r
  Ends-IsAnswer a before active on_text k r e = record {
    sound = e.well_formed;
    answers = Fits-Answers before active on_text k r.0 r.1 e.outcome;
  }

  -- Also a refused message is an answer.
  pub submit_user_message-IsAnswer :
      (a : Agent C Callback) (now text : Text) (on_text : Option ℕ) (k : Callback) (skip : Bool)
      → IsWellFormed a.session
      → IsAnswer a.in_flight k (submit_user_message C Callback a now text on_text k skip)
  submit_user_message-IsAnswer a now text on_text k skip w = elim (Bool-cases a.turn_active) [
    | inl busy ↦
        rw (submit_user_message_busy C Callback a now text on_text k skip busy)
          (record { sound = w; answers = (refl, refl) })
    | inr idle ↦
        Ends-IsAnswer a a.in_flight true on_text k _
          (submit_user_message-Ends C Callback a now text on_text k skip w idle)
  ]

module _ (C : ChatCodec) (Q : OfflineQueue) where
  open Q use {
    State, enqueue, peek, remove_front, update_front_attempt, size, items, size-items,
    items-remove_front, items-update_front_attempt, items-enqueue,
  }

  -- The options are the given ones, the session is well-formed, and while the coordinator is
  -- flushing, a request is on its way whose end will clear the flag.
  pub record IsSound (o : CoordinatorOptions) (w : Coordinator C Q) : Type 0 where
    pub options : w.opts ≡ o
    pub session : IsWellFormed w.agent.session
    pub attended : w.flushing ≡ true → has_flush C w.agent.in_flight ≡ true

  length-tail : (xs : List QueuedItem) → length (tail xs) ≡ length xs - 1
  length-tail [] = omega arith
  length-tail (x ∷ xs) = omega arith

  pub size-remove_front : (q : State) → size (remove_front q).0 ≡ size q - 1
  size-remove_front q = omega (
    arith,
    size-items q,
    size-items (remove_front q).0,
    ap length (items-remove_front q),
    length-tail (items q),
  )

  length-set_front : (n : ℤ) (xs : List QueuedItem) → length (set_front_attempt n xs) ≡ length xs
  length-set_front n [] = refl
  length-set_front n (x ∷ xs) = refl

  pub size-update_front_attempt : (q : State) (n : ℤ) → size (update_front_attempt q n).0 ≡ size q
  size-update_front_attempt q n = omega (
    arith,
    size-items q,
    size-items (update_front_attempt q n).0,
    ap length (items-update_front_attempt q n),
    length-set_front n (items q),
  )

  pub size-enqueue : (q : State) (x : QueuedItem) → size (enqueue q x).0 ≡ size q + 1
  size-enqueue q x = omega (
    arith,
    size-items q,
    size-items (enqueue q x).0,
    ap length (items-enqueue q x),
    length-append (items q) (x ∷ []),
  )
