-- ===== src/Events/Drain.antt =====
-- How the worker, left alone, comes to rest.
use astartis_codex_control_p.Base.{
  ℕ, zero, suc, ◌+◌, ◌*◌, ◌≤◌, ◌<◌, ◌≡◌, refl, sym, ap, ◌∙◌, subst, Bool, true, false, not, none,
  some, List, [], ◌∷◌, ◌++◌, arith, if◌then◌else◌,
}
use mathlib.Core.List.{append_assoc, append-nil}
use astartis_codex_control_p.Events.{
  Bus, Handler, call_all, dispatch, publish, publish_async, push_event, ensure_worker_running, turn,
}
use astartis_codex_control_p.Events.Order.{
  woken, Worker, Run, queued, queued_all, at_turn, work_from, work,
}

-- Where the worker comes to rest when no more is queued.
abbrev pub resting : {E : Type 0} → Bool → Worker E
resting stopped = if stopped then Worker.gone else Worker.waiting

-- The sum of the weights of some events.
unfoldable pub total : {E : Type 0} → (E → ℕ) → List E → ℕ
total weight [] = 0
total weight (e ∷ es) = weight e + total weight es

pub total-append :
    {E : Type 0} (weight : E → ℕ) (es fs : List E)
    → total weight (es ++ fs) ≡ total weight es + total weight fs
unfolding total
total-append weight [] fs = omega arith
total-append weight (e ∷ es) fs = omega (arith, total-append weight es fs)

-- What the handlers publish on an event weighs less than the event. A weight of 1 for every event says
-- that they publish nothing.
abbrev pub Calms : {E W : Type 0} → (E → ℕ) → List (ℕ × Handler E W) → Type 0
Calms {E} {W} weight handlers = (e : E) (w : W) → total weight (call_all handlers e w).0 < weight e

one_more : (n : ℕ) → 2 * n + 1 ≡ suc (2 * n)
one_more n = omega arith

two_more : (n : ℕ) → 2 * suc n + 1 ≡ suc (suc (2 * n + 1))
two_more n = omega arith

module _ {E W : Type 0} where
  -- The worker alone, for so many turns or until it can do nothing.
  unfoldable pub worker_loop : ℕ → Run E W → Run E W
  unfolding work
  worker_loop zero r = r
  worker_loop (suc n) r = elim (work r) [ none ↦ r | some s ↦ worker_loop n s ]

  -- publish() of each event on the caller's thread, in the order of the queue, to whose end goes what
  -- the handlers publish: the events, at most `n`, and the outside.
  unfoldable pub publish_each : ℕ → Bus E W → List E → W → List E × W
  unfolding publish
  publish_each n b [] w = ([], w)
  publish_each zero b (e ∷ q) w = ([], w)
  publish_each (suc n) b (e ∷ q) w =
      let (posted, w1) = publish b e w in
      let (es, w2) = publish_each n b (q ++ posted) w1 in (e ∷ es, w2)

  -- What calls of publish_async do to a run whose worker waits.
  record IsPosted (es : List E) (r s : Run E W) : Type 0 where
    pub handlers : s.bus.handlers ≡ r.bus.handlers
    pub stopped : s.bus.stop_worker ≡ r.bus.stop_worker
    pub queue : s.bus.event_queue ≡ r.bus.event_queue ++ es
    pub worker : s.worker ≡ Worker.waiting
    pub outside : s.outside ≡ r.outside
    pub delivered : s.delivered ≡ r.delivered

  queued-IsPosted :
      (e : E) (r : Run E W) → r.worker ≡ Worker.waiting → IsPosted (e ∷ []) r (queued e r)
  unfolding queued publish_async push_event ensure_worker_running
  queued-IsPosted e r h = record {
    handlers = ground arith;
    stopped = ground arith;
    queue = ap (λ q. q ++ e ∷ []) (if_queue r.bus.worker_started);
    worker = ap woken h;
    outside = refl;
    delivered = refl;
  }
    where
      if_queue :
          (b : Bool)
          → (if not b then record r.bus { worker_started = true } else r.bus).event_queue
            ≡ r.bus.event_queue
      if_queue true = refl
      if_queue false = refl

  queued_all-IsPosted :
      (es : List E) (r : Run E W) → r.worker ≡ Worker.waiting → IsPosted es r (queued_all es r)
  unfolding queued_all
  queued_all-IsPosted [] r h = record {
    handlers = refl;
    stopped = refl;
    queue = sym (append-nil r.bus.event_queue);
    worker = h;
    outside = refl;
    delivered = refl;
  }
  queued_all-IsPosted (e ∷ es) r h =
      let first = queued-IsPosted e r h in
      let rest = queued_all-IsPosted es (queued e r) first.worker in
      record {
        handlers = rest.handlers ∙ first.handlers;
        stopped = rest.stopped ∙ first.stopped;
        queue =
            rest.queue ∙ ap (λ q. q ++ es) first.queue ∙ append_assoc r.bus.event_queue (e ∷ []) es;
        worker = rest.worker;
        outside = rest.outside ∙ first.outside;
        delivered = rest.delivered ∙ first.delivered;
      }

  -- publish_each looks at the handlers of the bus only.
  publish_each-same :
      (n : ℕ) (m : List (ℕ × Handler E W)) (b c : Bus E W) (q : List E) (w : W)
      → publish_each n (record b { handlers = m }) q w
        ≡ publish_each n (record c { handlers = m }) q w
  unfolding publish_each publish dispatch
  publish_each-same zero m b c [] w = refl
  publish_each-same zero m b c (e ∷ q) w = refl
  publish_each-same (suc n) m b c [] w = refl
  publish_each-same (suc n) m b c (e ∷ q) w =
      let t = call_all m e w in
      ap (λ (x : List E × W). (e ∷ x.0, x.1)) (publish_each-same n m b c (q ++ t.0) t.1)

  publish_each-handlers :
      (n : ℕ) (b c : Bus E W) (q : List E) (w : W)
      → b.handlers ≡ c.handlers
      → publish_each n b q w ≡ publish_each n c q w
  publish_each-handlers n b c q w h =
      ap (λ m. publish_each n (record b { handlers = m }) q w) h
      ∙ publish_each-same n c.handlers b c q w

  -- `s` is `r` with its queue worked off and its worker at rest.
  record IsDrained (n : ℕ) (r s : Run E W) : Type 0 where
    pub emptied : s.bus.event_queue ≡ []
    pub at_rest : s.worker ≡ resting r.bus.stop_worker
    pub reached : s.outside ≡ (publish_each n r.bus r.bus.event_queue r.outside).1
    pub told : s.delivered ≡ r.delivered ++ (publish_each n r.bus r.bus.event_queue r.outside).0

  abbrev at : Bus E W → List E → W → List E → List E → Run E W
  at b q w p d = record {
    bus = record b { event_queue = q };
    worker = Worker.waiting;
    outside = w;
    published = p;
    delivered = d;
  }

  left_alone :
      (n : ℕ) (r : Run E W)
      → worker_loop n (record r { worker = Worker.gone }) ≡ record r { worker = Worker.gone }
  unfolding worker_loop work work_from
  left_alone zero r = refl
  left_alone (suc n) r = refl

  settle :
      (n : ℕ) (stopped : Bool) (b : Bus E W) (p d : List E) (w : W)
      → (elim (at_turn (turn stopped []) (at b [] w p d)) [
        | none ↦ at b [] w p d
        | some s ↦ worker_loop n s
      ])
        ≡ record (at b [] w p d) { worker = resting stopped }
  unfolding at_turn turn
  settle n true b p d w = left_alone n (at b [] w p d)
  settle n false b p d w = refl

  published_none : (n : ℕ) (b : Bus E W) (w : W) → publish_each n b [] w ≡ ([], w)
  unfolding publish_each
  published_none zero b w = refl
  published_none (suc n) b w = refl

  nothing-IsDrained :
      (n : ℕ) (b : Bus E W) (w : W) (p d : List E)
      → IsDrained n (at b [] w p d) (worker_loop (2 * n + 1) (at b [] w p d))
  unfolding worker_loop work work_from publish_each
  nothing-IsDrained n b w p d =
      let end : worker_loop (2 * n + 1) (at b [] w p d)
          ≡ record (at b [] w p d) { worker = resting b.stop_worker } =
        ap (λ m. worker_loop m (at b [] w p d)) (one_more n)
        ∙ settle (2 * n) b.stop_worker b p d w in
      subst (IsDrained n (at b [] w p d)) (sym end) (record {
        emptied = refl;
        at_rest = refl;
        reached = ap (λ x. x.1) (sym (published_none n (record b { event_queue = [] }) w));
        told =
            sym (append-nil d)
            ∙ ap (λ x. d ++ x.0) (sym (published_none n (record b { event_queue = [] }) w));
      })

  drain :
      (weight : E → ℕ) (n : ℕ) (b : Bus E W) (q : List E) (w : W) (p d : List E)
      → Calms weight b.handlers
      → total weight q ≤ n
      → IsDrained n (at b q w p d) (worker_loop (2 * n + 1) (at b q w p d))
  unfolding worker_loop work work_from at_turn turn publish_each publish dispatch total
  drain weight n b [] w p d calm few = nothing-IsDrained n b w p d
  drain weight zero b (e ∷ q) w p d calm few = absurd (omega (arith, calm e w, few))
  drain weight (suc n) b (e ∷ q) w p d calm few =
      let t = call_all b.handlers e w in
      let r = queued_all t.0 (at b q t.1 p (d ++ e ∷ [])) in
      let posted = queued_all-IsPosted t.0 (at b q t.1 p (d ++ e ∷ [])) refl in
      let fewer : total weight r.bus.event_queue ≤ n =
        omega (arith, ap (total weight) posted.queue, total-append weight q t.0, calm e w, few) in
      let rest =
        drain weight n r.bus r.bus.event_queue r.outside r.published r.delivered
          (subst (Calms weight) (sym posted.handlers) calm) fewer in
      let end : IsDrained n r (worker_loop (2 * n + 1) r) =
        subst
          (λ (x : Worker E).
            IsDrained n (record r { worker = x })
              (worker_loop (2 * n + 1) (record r { worker = x })))
          (sym posted.worker) rest in
      let B : Bus E W = record b { event_queue = e ∷ q } in
      let same : publish_each n r.bus r.bus.event_queue r.outside
          ≡ publish_each n B (q ++ t.0) t.1 =
        publish_each-handlers n r.bus B r.bus.event_queue r.outside posted.handlers
        ∙ ap (λ z. publish_each n B z r.outside) posted.queue
        ∙ ap (publish_each n B (q ++ t.0)) posted.outside in
      subst (IsDrained (suc n) (at b (e ∷ q) w p d))
        (ap (λ m. worker_loop m (at b (e ∷ q) w p d)) (sym (two_more n)))
        (record {
          emptied = end.emptied;
          at_rest = end.at_rest ∙ ap resting posted.stopped;
          reached = end.reached ∙ ap (λ x. x.1) same;
          told =
              end.told
              ∙ ap (λ z. z ++ (publish_each n r.bus r.bus.event_queue r.outside).0) posted.delivered
              ∙ ap (λ x. (d ++ e ∷ []) ++ x.0) same
              ∙ append_assoc d (e ∷ []) (publish_each n B (q ++ t.0) t.1).0;
        })

  -- If the worker waits, no other thread calls the bus, and what the handlers publish on an event always
  -- weighs less than the event, then the worker comes to rest after two turns for each unit of the
  -- weight of the queue and one more: the queue is empty, the worker waits, or has left its loop if it
  -- was told to stop, and the handlers have been called as if each event of the queue, and each that a
  -- handler published, had been published on one thread, in the order of the queue.
  pub worker_loop-drains :
      (weight : E → ℕ) (r : Run E W)
      → r.worker ≡ Worker.waiting
      → Calms weight r.bus.handlers
      → (let n = total weight r.bus.event_queue in
          let s = worker_loop (2 * n + 1) r in
          let each = publish_each n r.bus r.bus.event_queue r.outside in
          (s.bus.event_queue ≡ [])
          × (s.worker ≡ resting r.bus.stop_worker)
          × (s.outside ≡ each.1)
          × (s.delivered ≡ r.delivered ++ each.0))
  worker_loop-drains weight r h calm =
      let n = total weight r.bus.event_queue in
      let end : IsDrained n r (worker_loop (2 * n + 1) r) =
        subst
          (λ (x : Worker E).
            IsDrained n (record r { worker = x })
              (worker_loop (2 * n + 1) (record r { worker = x })))
          (sym h)
          (drain weight n r.bus r.bus.event_queue r.outside r.published r.delivered calm
            (omega arith)) in
      (end.emptied, end.at_rest, end.reached, end.told)
