-- ===== src/Events/Delivery.antt =====
-- What holds at every moment of a run.
use astartis_codex_control_p.Base.{
  ◌≡◌, refl, sym, ap, ◌∙◌, subst, ◌≢◌, Bool, true, false, some, List, [], ◌∷◌, ◌++◌, arith,
}
use mathlib.Core.Bool.{false≢true}
use mathlib.Core.List.{append_assoc, append-nil}
use astartis_codex_control_p.Events.{
  dispatch, Bus, subscribe, unsubscribe, publish, publish_async, ensure_worker_running, push_event,
  stop, turn,
}
use astartis_codex_control_p.Events.Order.{
  queued, queued_all, publishing, Worker, Run, held, woken, at_turn, work_from, work, Step, Reach,
}

woken-alive : {E : Type 0} (x : Worker E) → x ≢ Worker.gone → woken x ≢ Worker.gone
woken-alive Worker.absent h e = cc
woken-alive Worker.waiting h e = cc
woken-alive (Worker.holding y) h e = cc
woken-alive Worker.gone h e = h refl

module _ {E W : Type 0} where
  same_run : (r s : Run E W) → some r ≡ some s → r ≡ s
  same_run r s h = cc

  abbrev Sound : Worker E → Bus E W → Type 0
  Sound Worker.absent b = (b.event_queue ≡ []) × (b.worker_started ≡ false)
  Sound Worker.waiting b = b.worker_started ≡ true
  Sound (Worker.holding e) b = b.worker_started ≡ true
  Sound Worker.gone b = (b.event_queue ≡ []) × ((b.stop_worker ≡ true) × (b.worker_started ≡ true))

  -- What was delivered, what the worker holds and what is queued make up what was published.
  record IsOrderedAt (x : Worker E) (r : Run E W) : Type 0 where
    pub order : r.delivered ++ (held x ++ r.bus.event_queue) ≡ r.published
    pub sound : Sound x r.bus

  IsOrdered : Run E W → Type 0
  IsOrdered r = IsOrderedAt r.worker r

  at_turn-IsOrdered :
      (r s : Run E W) (b : Bool) (q : List E)
      → r.bus.stop_worker ≡ b
      → r.bus.event_queue ≡ q
      → IsOrderedAt Worker.waiting r
      → at_turn (turn b q) r ≡ some s
      → IsOrdered s
  unfolding at_turn turn IsOrdered
  at_turn-IsOrdered r s true [] h k i e =
      subst IsOrdered (same_run _ s e) (record { order = i.order; sound = (k, (h, i.sound)) })
  at_turn-IsOrdered r s false [] h k i e = cc
  at_turn-IsOrdered r s b (x ∷ q) h k i e =
      subst IsOrdered (same_run _ s e)
        (record { order = ap (λ z. r.delivered ++ z) (sym k) ∙ i.order; sound = i.sound })

  ensure-queue : (b : Bus E W) → (ensure_worker_running b).event_queue ≡ b.event_queue
  unfolding ensure_worker_running
  ensure-queue b = ground arith

  ensure-started : (b : Bus E W) → (ensure_worker_running b).worker_started ≡ true
  unfolding ensure_worker_running
  ensure-started b = ground arith

  queued_order :
      (x : Worker E) (e : E) (r : Run E W)
      → IsOrderedAt x r
      → (queued e r).delivered ++ (held x ++ (queued e r).bus.event_queue) ≡ (queued e r).published
  unfolding publish_async push_event queued
  queued_order x e r i =
      ap (λ q. r.delivered ++ (held x ++ (q ++ e ∷ []))) (ensure-queue r.bus)
      ∙ ap (λ q. r.delivered ++ q) (sym (append_assoc (held x) r.bus.event_queue (e ∷ [])))
      ∙ sym (append_assoc r.delivered (held x ++ r.bus.event_queue) (e ∷ []))
      ∙ ap (λ q. q ++ e ∷ []) i.order

  queued-ordered :
      (x : Worker E) (e : E) (r : Run E W)
      → x ≢ Worker.gone
      → IsOrderedAt x r
      → IsOrderedAt (woken x) (queued e r)
  unfolding publish_async push_event queued
  queued-ordered Worker.absent e r h i = record {
    order = queued_order Worker.absent e r i;
    sound = ensure-started r.bus;
  }
  queued-ordered Worker.waiting e r h i = record {
    order = queued_order Worker.waiting e r i;
    sound = ensure-started r.bus;
  }
  queued-ordered (Worker.holding y) e r h i = record {
    order = queued_order (Worker.holding y) e r i;
    sound = ensure-started r.bus;
  }
  queued-ordered Worker.gone e r h i = absurd (h refl)

  queued_all-IsOrdered :
      (es : List E) (r : Run E W)
      → r.worker ≢ Worker.gone
      → IsOrdered r
      → IsOrdered (queued_all es r)
  unfolding IsOrdered queued_all queued
  queued_all-IsOrdered [] r h i = i
  queued_all-IsOrdered (e ∷ es) r h i =
      queued_all-IsOrdered es (queued e r) (woken-alive r.worker h)
        (queued-ordered r.worker e r h i)

  -- A worker that has left was told to stop.
  alive :
      (x : Worker E) (r : Run E W) → IsOrderedAt x r → r.bus.stop_worker ≡ false → x ≢ Worker.gone
  alive Worker.absent r i h e = cc
  alive Worker.waiting r i h e = cc
  alive (Worker.holding y) r i h e = cc
  alive Worker.gone r i h e = absurd (false≢true (sym h ∙ i.sound.1.0))

  work_from-IsOrdered :
      (x : Worker E) (r s : Run E W) → IsOrderedAt x r → work_from x r ≡ some s → IsOrdered s
  unfolding work_from IsOrdered
  work_from-IsOrdered Worker.absent r s i e = cc
  work_from-IsOrdered Worker.gone r s i e = cc
  work_from-IsOrdered Worker.waiting r s i e =
      at_turn-IsOrdered r s r.bus.stop_worker r.bus.event_queue refl refl i e
  work_from-IsOrdered (Worker.holding x) r s i e =
      let (posted, w) = dispatch r.bus x r.outside in
      subst IsOrdered (same_run _ s e) (
        queued_all-IsOrdered posted
          (record r { worker = Worker.waiting; outside = w; delivered = r.delivered ++ x ∷ [] })
          (λ g. cc)
          (record {
            order = append_assoc r.delivered (x ∷ []) r.bus.event_queue ∙ i.order;
            sound = i.sound;
          }))

  stops-Sound : (x : Worker E) (b : Bus E W) → Sound x b → Sound x (stop b)
  unfolding stop
  stops-Sound Worker.absent b h = (ground (arith, h.0), ground (arith, h.1))
  stops-Sound Worker.waiting b h = ground (arith, h)
  stops-Sound (Worker.holding e) b h = ground (arith, h)
  stops-Sound Worker.gone b h =
      (ground (arith, h.0), (ground (arith, h.1.0), ground (arith, h.1.1)))

  stop-queue : (b : Bus E W) → (stop b).event_queue ≡ b.event_queue
  unfolding stop
  stop-queue b = ground arith

  handlers-Sound :
      (x : Worker E) (b c : Bus E W)
      → b.event_queue ≡ c.event_queue
      → b.stop_worker ≡ c.stop_worker
      → b.worker_started ≡ c.worker_started
      → Sound x b
      → Sound x c
  handlers-Sound Worker.absent b c h k l i = (sym h ∙ i.0, sym l ∙ i.1)
  handlers-Sound Worker.waiting b c h k l i = sym l ∙ i
  handlers-Sound (Worker.holding e) b c h k l i = sym l ∙ i
  handlers-Sound Worker.gone b c h k l i = (sym h ∙ i.0, (sym k ∙ i.1.0, sym l ∙ i.1.1))

  step-IsOrdered : (r s : Run E W) → Step r s → IsOrdered r → IsOrdered s
  unfolding IsOrdered subscribe unsubscribe publish queued publishing work
  step-IsOrdered r s (Step.subscribes h _) i = record {
    order = i.order;
    sound = handlers-Sound r.worker r.bus s.bus refl refl refl i.sound;
  }
  step-IsOrdered r s (Step.unsubscribes id _) i = record {
    order = i.order;
    sound = handlers-Sound r.worker r.bus s.bus refl refl refl i.sound;
  }
  step-IsOrdered r s (Step.publishes e _ h) i =
      let (posted, w) = publish r.bus e r.outside in
      queued_all-IsOrdered posted (record r { outside = w }) (alive r.worker r i h)
        (record { order = i.order; sound = i.sound })
  step-IsOrdered r s (Step.queues e _ h) i = queued-ordered r.worker e r (alive r.worker r i h) i
  step-IsOrdered r s (Step.stops _) i = record {
    order = ap (λ q. r.delivered ++ (held r.worker ++ q)) (stop-queue r.bus) ∙ i.order;
    sound = stops-Sound r.worker r.bus i.sound;
  }
  step-IsOrdered r s (Step.works _ _ h) i = work_from-IsOrdered r.worker r s i h

  reach-IsOrdered : (r : Run E W) → Reach r → IsOrdered r
  unfolding IsOrdered
  reach-IsOrdered _ (Reach.begins w) = record { order = refl; sound = (refl, refl) }
  reach-IsOrdered s (Reach.next r _ h k) = step-IsOrdered r s k (reach-IsOrdered r h)

  -- At every moment of every run, what was delivered, then what the worker holds, then what is queued
  -- is what was given to publish_async, in that order.
  pub reach-order :
      (r : Run E W) → Reach r → r.delivered ++ (held r.worker ++ r.bus.event_queue) ≡ r.published
  unfolding IsOrdered
  reach-order r h = (reach-IsOrdered r h).order

  left-all :
      (x : Worker E) (r : Run E W) → IsOrderedAt x r → x ≡ Worker.gone → r.delivered ≡ r.published
  left-all Worker.absent r i e = cc
  left-all Worker.waiting r i e = cc
  left-all (Worker.holding y) r i e = cc
  left-all Worker.gone r i e =
      sym (append-nil r.delivered) ∙ ap (λ q. r.delivered ++ q) (sym i.sound.0) ∙ i.order

  -- The worker leaves its loop only when all that was given to publish_async is delivered, in the
  -- order in which it was given.
  pub reach-left : (r : Run E W) → Reach r → r.worker ≡ Worker.gone → r.delivered ≡ r.published
  unfolding IsOrdered
  reach-left r h e = left-all r.worker r (reach-IsOrdered r h) e
