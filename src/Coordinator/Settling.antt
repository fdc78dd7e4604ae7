-- ===== src/Coordinator/Settling.antt =====
-- What the ends of a flush keep of EaQueueCoordinator (src/ea_queue_coordinator.cpp): the invariant
-- and the length of the queue.
use embed_agent.Base.{
  ℕ, ◌+◌, ◌≡◌, ◌≤◌, ◌<◌, refl, sym, ◌∙◌, Bool, true, false, Option, none, some, Text, arith,
}
use embed_agent.Cppev.{ChatCodec}
use embed_agent.Session.Append.{rollback_last_user-IsWellFormed}
use embed_agent.OfflineQueue.{OfflineQueue, QueuedItem}
use embed_agent.Connectivity.{ConnectivityState, online, offline, unknown, state_eq}
use embed_agent.Coordinator.{
  Coordinator, CoordinatorOptions, FlushContext, drop_front, rollback, count_attempt, end_flush,
  postpone_item, call_done,
}
use embed_agent.Coordinator.Invariant.{IsSound, size-update_front_attempt}

-- A flush may be repeated once where the network was not known to be up.
abbrev pub rank : ConnectivityState → ℕ
rank online = 0
rank offline = 1
rank unknown = 1

module _ (C : ChatCodec) (Q : OfflineQueue) (o : CoordinatorOptions) where
  open Q use {State, peek, remove_front, size}

  abbrev pub measure : Coordinator C Q → ℕ
  measure w = size w.queue + rank w.monitor.state

  -- The call ends in a sound state with no more than `bound` items in the queue.
  abbrev pub Settles : ℕ → Option (Coordinator C Q) → Type 0
  Settles bound r = (w : Coordinator C Q) × (r ≡ some w) × IsSound C Q o w × (size w.queue ≤ bound)

  abbrev pub FlushesBelow : ℕ → (Coordinator C Q → Option (Coordinator C Q)) → Type 0
  FlushesBelow fuel next =
      (w : Coordinator C Q) → IsSound C Q o w → measure w < fuel → Settles (size w.queue) (next w)

  pub rank-le-one : (st : ConnectivityState) → rank st ≤ 1
  rank-le-one online = omega arith
  rank-le-one offline = omega arith
  rank-le-one unknown = omega arith

  pub rank_other : (st : ConnectivityState) → state_eq st online ≡ false → rank st ≡ 1
  rank_other online h = cc
  rank_other offline h = refl
  rank_other unknown h = refl

  pub Settles-mono : (m n : ℕ) (r : Option (Coordinator C Q)) → m ≤ n → Settles m r → Settles n r
  Settles-mono m n r h (w, e, s, le) = (w, e, s, omega arith)

  -- A state with the same agent and the same flag is as sound.
  pub IsSound-same :
      (w w' : Coordinator C Q)
      → w'.agent ≡ w.agent
      → w'.flushing ≡ w.flushing
      → w'.opts ≡ w.opts
      → IsSound C Q o w
      → IsSound C Q o w'
  IsSound-same w w' a f p s = record {
    options = p ∙ s.options;
    session = rw a s.session;
    attended = λ h. rw a (s.attended (sym f ∙ h));
  }

  pub rollback-IsSound : (w : Coordinator C Q) → IsSound C Q o w → IsSound C Q o (rollback C Q w)
  rollback-IsSound w s = record {
    session = rollback_last_user-IsWellFormed w.agent.session s.session;
    attended = s.attended;
    options = s.options;
  }

  pub call_done-IsSound :
      (w : Coordinator C Q) (cb : Option ℕ) (ok : Bool) (text : Text)
      → IsSound C Q o w
      → IsSound C Q o (call_done C Q w cb ok text)
  call_done-IsSound w none ok text s = s
  call_done-IsSound w (some cb) ok text s = record {
    session = s.session;
    attended = s.attended;
    options = s.options;
  }

  pub call_done-queue :
      (w : Coordinator C Q) (cb : Option ℕ) (ok : Bool) (text : Text)
      → (call_done C Q w cb ok text).queue ≡ w.queue
  call_done-queue w none ok text = refl
  call_done-queue w (some cb) ok text = refl

  pub end_flush-IsSound :
      (w : Coordinator C Q) (ctx : Option FlushContext) (ok : Bool) (text : Text)
      → IsSound C Q o w
      → IsSound C Q o (end_flush C Q w ctx ok text)
  end_flush-IsSound w none ok text s = s
  end_flush-IsSound w (some ctx) ok text s =
      let s' = call_done-IsSound w ctx.on_done ok text s in
      record { session = s'.session; attended = s'.attended; options = s'.options }

  pub end_flush-queue :
      (w : Coordinator C Q) (ctx : Option FlushContext) (ok : Bool) (text : Text)
      → (end_flush C Q w ctx ok text).queue ≡ w.queue
  end_flush-queue w none ok text = refl
  end_flush-queue w (some ctx) ok text = call_done-queue w ctx.on_done ok text

  count_attempt-IsSound :
      (w : Coordinator C Q) (front : Option QueuedItem)
      → IsSound C Q o w
      → IsSound C Q o (count_attempt C Q w front)
  count_attempt-IsSound w none s = s
  count_attempt-IsSound w (some x) s = record {
    session = s.session;
    attended = s.attended;
    options = s.options;
  }

  size-count_attempt :
      (w : Coordinator C Q) (front : Option QueuedItem)
      → size (count_attempt C Q w front).queue ≡ size w.queue
  size-count_attempt w none = refl
  size-count_attempt w (some x) = size-update_front_attempt C Q w.queue _

  pub drop_front-IsSound :
      (w : Coordinator C Q) → IsSound C Q o w → IsSound C Q o (drop_front C Q w)
  drop_front-IsSound w s = record {
    session = s.session;
    attended = s.attended;
    options = s.options;
  }

  pub postpone_item-Settles :
      (w : Coordinator C Q) (error : Text)
      → IsSound C Q o w
      → Settles (size w.queue) (some (postpone_item C Q w error))
  postpone_item-Settles w error s =
      let counted = count_attempt C Q (rollback C Q w) (peek w.queue true) in
      (
        postpone_item C Q w error,
        refl,
        end_flush-IsSound counted counted.flush_ctx false error
            (count_attempt-IsSound (rollback C Q w) (peek w.queue true) (rollback-IsSound w s)),
        rw (end_flush-queue counted counted.flush_ctx false error)
            (omega (arith, size-count_attempt (rollback C Q w) (peek w.queue true))),
      )
