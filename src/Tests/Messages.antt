-- ===== src/Tests/Messages.antt =====
-- The event bus.
use astartis_codex_control_p.Base.{
  ℕ, ◌+◌, ◌*◌, String, ◌≡◌, refl, List, [], ◌∷◌, ◌++◌, arith, ◌==◌, if◌then◌else◌,
}
use astartis_codex_control_p.Events.{call_all, Handler, subscribe, publish_async, stop}
use astartis_codex_control_p.Events.Order.{queued, Worker, Run, start, held, work, Step, Reach}
use astartis_codex_control_p.Events.Delivery.{reach-order, reach-left}
use astartis_codex_control_p.Events.Drain.{
  total, Calms, worker_loop, publish_each, resting, worker_loop-drains,
}

abbrev noting : Handler String (List String)
noting e seen = ([], e ∷ seen)

abbrev listened : Run String (List String)
listened = record (start []) { bus = (subscribe noting (start []).bus).1 }

abbrev put : String → Run String (List String) → Run String (List String)
put e r = record r {
  bus = publish_async e r.bus;
  worker = Worker.waiting;
  published = r.published ++ e ∷ [];
}

abbrev two_queued : Run String (List String)
two_queued = put "b" (put "a" listened)

two_queued-Reach : Reach two_queued
unfolding subscribe publish_async queued
two_queued-Reach =
    Reach.next (put "a" listened) two_queued
      (Reach.next listened (put "a" listened)
        (Reach.next (start []) listened (Reach.begins []) (Step.subscribes noting (start [])))
        (Step.queues "a" listened refl))
      (Step.queues "b" (put "a" listened) refl)

reach-order_example :
    two_queued.delivered ++ (held two_queued.worker ++ two_queued.bus.event_queue)
    ≡ two_queued.published
reach-order_example = reach-order two_queued two_queued-Reach

-- A handler that publishes "b" on "a".
abbrev answering : Handler String (List String)
answering e seen = (if e == "a" then "b" ∷ [] else [], e ∷ seen)

abbrev answered : Run String (List String)
answered = put "a" (record (start []) { bus = (subscribe answering (start []).bus).1 })

abbrev weight : String → ℕ
weight e = if e == "a" then 2 else 1

answering-Calms : Calms weight answered.bus.handlers
unfolding publish_async subscribe call_all total
answering-Calms e w = ground arith

worker_loop-drains_example :
    let n = total weight answered.bus.event_queue in
    let s = worker_loop (2 * n + 1) answered in
    let each = publish_each n answered.bus answered.bus.event_queue answered.outside in
    (s.bus.event_queue ≡ [])
    × (s.worker ≡ resting answered.bus.stop_worker)
    × (s.outside ≡ each.1)
    × (s.delivered ≡ answered.delivered ++ each.0)
worker_loop-drains_example = worker_loop-drains weight answered refl answering-Calms

both_delivered : (worker_loop 5 answered).outside ≡ "b" ∷ "a" ∷ []
unfolding worker_loop publish_async subscribe
both_delivered = refl

abbrev one_queued : Run String (List String)
one_queued = put "a" listened

abbrev one_taken : Run String (List String)
one_taken = record one_queued {
  bus = record one_queued.bus { event_queue = [] };
  worker = Worker.holding "a";
}

abbrev one_delivered : Run String (List String)
one_delivered = record one_taken {
  worker = Worker.waiting;
  outside = "a" ∷ [];
  delivered = "a" ∷ [];
}

abbrev stopped : Run String (List String)
stopped = record one_delivered { bus = stop one_delivered.bus }

abbrev left : Run String (List String)
left = record stopped { worker = Worker.gone }

left-Reach : Reach left
unfolding subscribe work publish_async stop queued
left-Reach =
    Reach.next stopped left
      (Reach.next one_delivered stopped
        (Reach.next one_taken one_delivered
          (Reach.next one_queued one_taken
            (Reach.next listened one_queued
              (Reach.next (start []) listened (Reach.begins []) (Step.subscribes noting (start [])))
              (Step.queues "a" listened refl))
            (Step.works one_queued one_taken refl))
          (Step.works one_taken one_delivered refl))
        (Step.stops one_delivered))
      (Step.works stopped left refl)

reach-left_example : left.delivered ≡ left.published
reach-left_example = reach-left left left-Reach refl
