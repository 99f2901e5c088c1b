-- ===== src/Agents/Counted.antt =====
-- The tasks that were submitted are those in the queue, with a worker, and in the audit log as completed.
use astartis_codex_control_p.Base.{
  ℕ, ◌+◌, ◌%◌, String, ◌≡◌, refl, ap, ◌∙◌, inl, inr, Bool, true, false, some, List, [], ◌∷◌, ◌++◌,
  map, arith, if◌then◌else◌, is_some, Bool-cases, u64_mod, inc64, inc64-mod, is_empty, length,
  get_elem?, count_if, ℤ, lookup,
}
use astartis_codex_control_p.Agents.{
  Priority, TaskEntry, TaskResult, entry_of, Outside, AgentController, submit_task, new_controller,
}
use astartis_codex_control_p.Agents.Personas.{register}
use astartis_codex_control_p.Agents.Tasks.{
  execute_task, mark_running, record_result, note_completed,
}
use astartis_codex_control_p.Agents.Pool.{
  Phase, Pool, replicate, remove_at, submitted, moved, with_controller, Step, Reach, submit, load,
  start, stop, join, enter, quit, take_task, mark, execute, update_status, call_back, finish, here,
  after_step,
}
use astartis_codex_control_p.Agents.Counting.{
  holds, held, IsCounting, count_if-snoc, count_if-remove_at, held-replicate, held-all_left,
  moved-same, moved-takes, moved-ends, entered-holds, execute_task-completed, execute_task-queue,
  submit-new, submit-unknown, mark_running-same,
}
use astartis_codex_control_p.Agents.Traces.{
  submitted_by, finished_by, submitted_tasks, finished_tasks, completion,
}

module _ {T W : Type 0} (outside : Outside T W) (completed : W → List String)
    (h : IsCounting outside completed) where
  record IsAccounted (p : Pool T W) (ss : List TaskEntry) (fs : List (TaskEntry × TaskResult))
      : Type 0 where
    pub tasks :
        (t : TaskEntry → Bool)
        → count_if t ss
          ≡ count_if (λ f. t f.0) fs + held t p.workers + count_if t p.controller.queue
    pub logged : completed p.world ≡ map completion fs
    pub numbered : p.controller.next_task_id ≡ (1 + length ss) % u64_mod

  -- A step that neither submits nor completes a task.
  kept :
      {ss : List TaskEntry} {fs : List (TaskEntry × TaskResult)} (p q : Pool T W)
      → q.controller.next_task_id ≡ p.controller.next_task_id
      → ((t : TaskEntry → Bool)
          → held t q.workers + count_if t q.controller.queue
            ≡ held t p.workers + count_if t p.controller.queue)
      → completed q.world ≡ completed p.world
      → IsAccounted p ss fs
      → IsAccounted q ss fs
  kept p q same sum log k = record {
    tasks = λ t. omega (arith, sum t, k.tasks t);
    logged = log ∙ k.logged;
    numbered = same ∙ k.numbered;
  }

  same_world :
      (b : Bool) (v w : W)
      → completed w ≡ completed v
      → completed (if b then v else w) ≡ completed v
  same_world true v w e = refl
  same_world false v w e = e

  cons_count :
      (t : TaskEntry → Bool) (e : TaskEntry) (ss : List TaskEntry)
      → count_if t (e ∷ ss) ≡ count_if t ss + (if t e then 1 else 0)
  cons_count t e ss = ground arith

  submitted-IsAccounted :
      {ss : List TaskEntry} {fs : List (TaskEntry × TaskResult)} (p : Pool T W)
      (name input : String) (priority : Priority)
      → IsAccounted p ss fs
      → IsAccounted
          (submitted outside name input priority p)
          (submitted_by outside (submit p name input priority) ++ ss)
          fs
  unfolding submitted_by
  submitted-IsAccounted {ss} p name input priority k =
      let now = (outside.now_ms p.world).0 in
      let e = entry_of p.controller name input priority now in
      let r = submit_task name input priority now p.controller in
      let world =
        same_world (is_empty r.0) p.world (outside.now_ms p.world).1 (h.now_keeps p.world) in
      elim (Bool-cases (is_some (lookup name p.controller.personas))) [
        | inl known ↦
            let new = submit-new outside name input priority now p.controller known in
            rw known (record {
              tasks = λ t. omega (
                arith,
                ap (count_if t) new.1,
                count_if-snoc t p.controller.queue e,
                k.tasks t,
                cons_count t e ss,
              );
              logged = world ∙ k.logged;
              numbered =
                  new.0
                  ∙ ap inc64 k.numbered
                  ∙ inc64-mod (1 + length ss)
                  ∙ ap (λ (n : ℕ). n % u64_mod) (omega arith);
            })
        | inr unknown ↦
            let same = submit-unknown outside name input priority now p.controller unknown in
            rw unknown (
              kept p (submitted outside name input priority p)
                (ap (λ (c : AgentController T). c.next_task_id) same)
                (λ t. ap (λ (c : AgentController T). held t p.workers + count_if t c.queue) same)
                world k)
      ]

  -- A worker's step that neither takes a task nor ends one.
  worked :
      {ss : List TaskEntry} {fs : List (TaskEntry × TaskResult)} (p : Pool T W) (i : ℕ)
      (a b : Phase) (c : AgentController T) (w : W)
      → get_elem? p.workers i ≡ some a
      → ((t : TaskEntry → Bool) → holds t a ≡ holds t b)
      → (c.queue ≡ p.controller.queue) × (c.next_task_id ≡ p.controller.next_task_id)
      → completed w ≡ completed p.world
      → IsAccounted p ss fs
      → IsAccounted (moved outside i b (with_controller outside c w p)) ss fs
  worked p i a b c w at same (queue, next) log k =
      kept p (moved outside i b (with_controller outside c w p)) next
        (λ t. omega (arith, moved-same t p.workers i a b at (same t), ap (count_if t) queue)) log k

  finished-IsAccounted :
      {ss : List TaskEntry} {fs : List (TaskEntry × TaskResult)} (p : Pool T W) (i : ℕ)
      (e : TaskEntry) (r : TaskResult)
      → get_elem? p.workers i ≡ some (Phase.called e r)
      → IsAccounted p ss fs
      → IsAccounted
          (moved outside i Phase.at_top
            (with_controller outside p.controller (note_completed outside e r p.world) p))
          ss
          ((e, r) ∷ fs)
  unfolding note_completed
  finished-IsAccounted p i e r at k = record {
    tasks = λ t. ground (arith, moved-ends t p.workers i e r at, k.tasks t);
    logged =
        h.audit_counts "agent_task_completed" _ p.world ∙ ap (λ l. completion (e, r) ∷ l) k.logged;
    numbered = k.numbered;
  }

  step-IsAccounted :
      {p q : Pool T W} {ss : List TaskEntry} {fs : List (TaskEntry × TaskResult)}
      (st : Step outside p q)
      → IsAccounted p ss fs
      → IsAccounted q (submitted_by outside st ++ ss) (finished_by outside st ++ fs)
  unfolding register record_result submitted_by finished_by
  step-IsAccounted (submit p name input priority) k = submitted-IsAccounted p name input priority k
  step-IsAccounted (load p persona) k =
      kept p (with_controller outside (register persona p.controller) p.world p) refl (λ t. refl)
        refl k
  step-IsAccounted (start p off none_left) k =
      kept p
        (record p { running = true; workers = replicate p.controller.worker_count Phase.at_top })
        refl (λ t. omega (arith, held-replicate t p.controller.worker_count, ap (held t) none_left))
        refl k
  step-IsAccounted (stop p) k = kept p (record p { running = false }) refl (λ t. refl) refl k
  step-IsAccounted (join p off gone) k =
      kept p (record p { workers = [] }) refl (λ t. omega (arith, held-all_left t p.workers gone))
        refl k
  step-IsAccounted (enter p i at) k =
      worked p i Phase.at_top (if p.running then Phase.waiting else Phase.left) p.controller p.world
        at (λ t. entered-holds t p.running) (refl, refl) refl k
  step-IsAccounted (quit p i at off empty) k =
      worked p i Phase.waiting Phase.left p.controller p.world at (λ t. refl) (refl, refl) refl k
  step-IsAccounted (take_task p i j e at there top) k =
      kept p
        (moved outside i (Phase.taken e) (
          with_controller outside (record p.controller { queue = remove_at p.controller.queue j })
            p.world p))
        refl
        (λ t. omega (
          arith,
          moved-takes t p.workers i e at,
          count_if-remove_at t p.controller.queue j e there,
        ))
        refl k
  step-IsAccounted (mark p i e at) k =
      worked p i (Phase.taken e) (Phase.marked e) (mark_running outside e.agent_name p.controller)
        p.world at (λ t. refl) (mark_running-same outside e.agent_name p.controller) refl k
  step-IsAccounted (execute p i e at) k =
      let t = execute_task outside e p.controller p.world in
      worked p i (Phase.marked e) (Phase.executed e t.0) t.1 t.2 at (λ t. refl)
        (execute_task-queue outside e p.controller p.world)
        (execute_task-completed outside completed h e p.controller p.world) k
  step-IsAccounted (update_status p i e r at) k =
      let t = record_result outside e.agent_name r p.controller p.world in
      worked p i (Phase.executed e r) (Phase.recorded e r) t.0 t.1 at (λ t. refl) (refl, refl)
        (h.iso_keeps p.world) k
  step-IsAccounted (call_back p i e r at) k =
      worked p i (Phase.recorded e r) (Phase.called e r) p.controller (outside.callback r p.world)
        at (λ t. refl) (refl, refl) (h.callback_keeps r p.world) k
  step-IsAccounted (finish p i e r at) k = finished-IsAccounted p i e r at k

  reach-IsAccounted :
      {p q : Pool T W}
      → IsAccounted p [] []
      → (r : Reach outside p q)
      → IsAccounted q (submitted_tasks outside r) (finished_tasks outside r)
  unfolding submitted_tasks finished_tasks
  reach-IsAccounted k here = k
  reach-IsAccounted k (after_step r st) = step-IsAccounted st (reach-IsAccounted k r)

  abbrev pub idle_pool : ℤ → W → Pool T W
  idle_pool worker_count w = record {
    controller = new_controller worker_count;
    running = false;
    workers = [];
    world = w;
  }

  -- Where nothing but the audit callback adds agent_task_completed entries to the log, from a new
  -- controller on whose log there is none: whatever is submitted, loaded, started and stopped, and
  -- however the workers' steps interleave, the tasks that were submitted are, each as often as it was
  -- submitted, those that were completed, those that a worker holds and those in the queue; the log has
  -- one entry for each completed task, with its agent, its id and its result; and the next id is one
  -- more than the number of submitted tasks modulo 2^64.
  pub reach-accounted :
      (worker_count : ℤ) (w : W) (q : Pool T W)
      → completed w ≡ []
      → (r : Reach outside (idle_pool worker_count w) q)
      → ((t : TaskEntry → Bool)
          → count_if t (submitted_tasks outside r)
            ≡ count_if (λ f. t f.0) (finished_tasks outside r)
              + held t q.workers
              + count_if t q.controller.queue)
        × (completed q.world ≡ map completion (finished_tasks outside r))
        × (q.controller.next_task_id ≡ (1 + length (submitted_tasks outside r)) % u64_mod)
  reach-accounted worker_count w q none_yet r =
      let start_accounted : IsAccounted (idle_pool worker_count w) [] [] = record {
        tasks = λ t. refl;
        logged = none_yet;
        numbered = refl;
      } in
      let k = reach-IsAccounted start_accounted r in (k.tasks, k.logged, k.numbered)
