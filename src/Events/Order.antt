-- ===== src/Events/Order.antt =====
-- The worker and the callers as a step relation, and the order in which the events are delivered.
use astartis_codex_control_p.Base.{ℕ, ◌≡◌, false, Option, none, some, List, [], ◌∷◌, ◌++◌}
use astartis_codex_control_p.Events.{
  Handler, Bus, new_bus, subscribe, unsubscribe, dispatch, publish, publish_async, stop, Turn, turn,
}

-- Where worker_loop stands: its thread is not there, it is at the wait, it has taken an event that
-- it has not dispatched yet, or it has left the loop.
pub data Worker (E : Type 0) : Type 0 where
  absent waiting gone : Worker E
  holding : E → Worker E

-- The bus with its worker and the outside; `published` and `delivered` write down the events given
-- to publish_async and those that the worker has dispatched.
pub record Run (E W : Type 0) : Type 0 where
  pub bus : Bus E W
  pub worker : Worker E
  pub outside : W
  pub published : List E
  pub delivered : List E

abbrev pub woken : {E : Type 0} → Worker E → Worker E
woken Worker.absent = Worker.waiting
woken x = x

abbrev pub held : {E : Type 0} → Worker E → List E
held (Worker.holding e) = e ∷ []
held _ = []

module _ {E W : Type 0} where
  abbrev pub start : W → Run E W
  start w = record {
    bus = new_bus;
    worker = Worker.absent;
    outside = w;
    published = [];
    delivered = [];
  }

  -- publish_async, with the worker that it may start.
  unfoldable pub queued : E → Run E W → Run E W
  unfolding publish_async
  queued e r = record r {
    bus = publish_async e r.bus;
    worker = woken r.worker;
    published = r.published ++ e ∷ [];
  }

  -- The calls of publish_async that the handlers of a dispatch made.
  unfoldable pub queued_all : List E → Run E W → Run E W
  unfolding queued
  queued_all [] r = r
  queued_all (e ∷ es) r = queued_all es (queued e r)

  -- publish on the caller's thread
  unfoldable pub publishing : E → Run E W → Run E W
  unfolding queued_all publish
  publishing e r =
      let (posted, w) = publish r.bus e r.outside in queued_all posted (record r { outside = w })

  -- The worker's own step, if it can do one: the block under queue_mutex_, or the dispatch behind it.
  unfoldable pub at_turn : Turn E → Run E W → Option (Run E W)
  at_turn Turn.wait r = none
  at_turn Turn.leave r = some (record r { worker = Worker.gone })
  at_turn (Turn.take e q) r =
      some (record r { bus = record r.bus { event_queue = q }; worker = Worker.holding e })

  unfoldable pub work_from : Worker E → Run E W → Option (Run E W)
  unfolding at_turn turn dispatch queued_all
  work_from Worker.absent r = none
  work_from Worker.gone r = none
  work_from Worker.waiting r = at_turn (turn r.bus.stop_worker r.bus.event_queue) r
  work_from (Worker.holding e) r =
      let (posted, w) = dispatch r.bus e r.outside in
      some (
        queued_all posted
          (record r { worker = Worker.waiting; outside = w; delivered = r.delivered ++ e ∷ [] }))

  unfoldable pub work : Run E W → Option (Run E W)
  unfolding work_from
  work r = work_from r.worker r

  -- One step of a thread. No call of another thread runs while the bus is destroyed, so only handlers
  -- that the worker calls publish once it was told to stop.
  pub data Step : Run E W → Run E W → Type 0 where
    subscribes : (h : Handler E W) (r : Run E W) → Step r (record r { bus = (subscribe h r.bus).1 })
    unsubscribes : (id : ℕ) (r : Run E W) → Step r (record r { bus = unsubscribe id r.bus })
    publishes : (e : E) (r : Run E W) → r.bus.stop_worker ≡ false → Step r (publishing e r)
    queues : (e : E) (r : Run E W) → r.bus.stop_worker ≡ false → Step r (queued e r)
    stops : (r : Run E W) → Step r (record r { bus = stop r.bus })
    works : (r s : Run E W) → work r ≡ some s → Step r s

  pub data Reach : Run E W → Type 0 where
    begins : (w : W) → Reach (start w)
    next : (r s : Run E W) → Reach r → Step r s → Reach s
