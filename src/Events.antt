-- ===== src/Events.antt =====
-- astartis/core/event_bus/event_bus.h: EventBus<EventType>. E is the type of the events, W the state
-- of all that the handlers reach. A mutex that is held over a block makes the block one step of
-- Events.Order.
pub mod Order
pub mod Delivery
pub mod Drain
use astartis_codex_control_p.Base.{
  ℕ, Bool, true, false, not, Option, none, some, List, [], ◌∷◌, ◌++◌, ltb, nat_eq, if◌then◌else◌,
  inc64, length,
}

-- A handler may call publish_async of the bus that calls it: the events that it gives to it, and the
-- outside. No handler subscribes or unsubscribes.
abbrev pub Handler : Type 0 → Type 0 → Type 0
Handler E W = E → W → List E × W

-- The members of the bus, but for the thread itself, its mutexes and its condition variable.
pub record Bus (E W : Type 0) : Type 0 where
  pub handlers : List (ℕ × Handler E W)
  pub next_id : ℕ
  pub event_queue : List E
  pub worker_started : Bool
  pub stop_worker : Bool

module _ {E W : Type 0} where
  abbrev pub new_bus : Bus E W
  new_bus = record {
    handlers = [];
    next_id = 1;
    event_queue = [];
    worker_started = false;
    stop_worker = false;
  }

  -- handlers_[id] = handler, in the order of the ids
  unfoldable pub set_handler : ℕ → Handler E W → List (ℕ × Handler E W) → List (ℕ × Handler E W)
  set_handler id h [] = (id, h) ∷ []
  set_handler id h ((j, k) ∷ m) =
      let rest = set_handler id h m in
      if nat_eq j id then (j, h) ∷ m else if ltb id j then (id, h) ∷ (j, k) ∷ m else (j, k) ∷ rest

  -- handlers_.erase(id)
  unfoldable pub erase_handler : ℕ → List (ℕ × Handler E W) → List (ℕ × Handler E W)
  erase_handler id [] = []
  erase_handler id ((j, k) ∷ m) =
      let rest = erase_handler id m in if nat_eq j id then rest else (j, k) ∷ rest

  -- The id that the handle unsubscribes, and the bus.
  unfoldable pub subscribe : Handler E W → Bus E W → ℕ × Bus E W
  unfolding set_handler inc64
  subscribe h b = (
    b.next_id,
    record b { handlers = set_handler b.next_id h b.handlers; next_id = inc64 b.next_id },
  )

  unfoldable pub unsubscribe : ℕ → Bus E W → Bus E W
  unfolding erase_handler
  unsubscribe id b = record b { handlers = erase_handler id b.handlers }

  -- The handle's fields are the id it unsubscribes, if it still does; cancel() and the destructor.
  unfoldable pub cancel : Option ℕ → Bus E W → Option ℕ × Bus E W
  unfolding unsubscribe
  cancel none b = (none, b)
  cancel (some id) b = (none, unsubscribe id b)

  -- for (auto& [id, handler] : snapshot) handler(event);
  unfoldable pub call_all : List (ℕ × Handler E W) → E → W → List E × W
  call_all [] e w = ([], w)
  call_all ((id, h) ∷ m) e w =
      let (posted, w1) = h e w in let (more, w2) = call_all m e w1 in (posted ++ more, w2)

  -- What the handlers give to publish_async, and the outside.
  unfoldable pub dispatch : Bus E W → E → W → List E × W
  unfolding call_all
  dispatch b e w = call_all b.handlers e w

  unfoldable pub publish : Bus E W → E → W → List E × W
  unfolding dispatch
  publish b e w = dispatch b e w

  unfoldable pub ensure_worker_running : Bus E W → Bus E W
  ensure_worker_running b = if not b.worker_started then record b { worker_started = true } else b

  unfoldable pub push_event : E → Bus E W → Bus E W
  push_event e b = record b { event_queue = b.event_queue ++ e ∷ [] }

  unfoldable pub publish_async : E → Bus E W → Bus E W
  unfolding ensure_worker_running push_event
  publish_async e b = push_event e (ensure_worker_running b)

  unfoldable pub subscriber_count : Bus E W → ℕ
  subscriber_count b = length b.handlers

  -- The destructor up to its join: worker_.joinable() once the worker was started.
  unfoldable pub stop : Bus E W → Bus E W
  stop b = if b.worker_started then record b { stop_worker = true } else b

-- What the worker does when it holds queue_mutex_: it goes on waiting, leaves its loop, or takes the
-- front of the queue.
pub data Turn (E : Type 0) : Type 0 where
  wait leave : Turn E
  take : E → List E → Turn E

unfoldable pub turn : {E : Type 0} → Bool → List E → Turn E
turn stopped [] = if stopped then Turn.leave else Turn.wait
turn stopped (e ∷ q) = Turn.take e q
