-- ===== src/Agents/Counting.antt =====
-- What a step of the agent controller does to the workers, the queue and the log.
use astartis_codex_control_p.Base.{
  ℕ, zero, suc, ◌+◌, String, ◌≡◌, refl, ◌∙◌, inl, inr, Bool, true, false, ◌&&◌, Option, none, some,
  List, [], ◌∷◌, ◌++◌, arith, ◌==◌, if◌then◌else◌, is_some, Option-cases, inc64, if_cases,
  get_elem?, modify, count_if, ltb_ℤ, ℤ, lookup, pos,
}
use astartis_codex_control_p.Agents.{
  GraniteModel, AgentPersona, Priority, TaskEntry, TaskResult, Outside, AgentController, Dispatched,
  submit_task, entry_of,
}
use astartis_codex_control_p.Agents.Tasks.{
  capped_tokens, dispatched, generated, execute_task, mark_running, configured_token_cap,
  note_capped,
}
use astartis_codex_control_p.Agents.Pool.{Phase, replicate, all_left, remove_at}

-- A worker has a task that passes the test `t`, and that is not in the log yet.
abbrev pub holds : (TaskEntry → Bool) → Phase → Bool
holds t Phase.at_top = false
holds t Phase.waiting = false
holds t Phase.left = false
holds t (Phase.taken e) = t e
holds t (Phase.marked e) = t e
holds t (Phase.executed e r) = t e
holds t (Phase.recorded e r) = t e
holds t (Phase.called e r) = t e

-- How many tasks that pass the test `t` are with the workers.
abbrev pub held : (TaskEntry → Bool) → List Phase → ℕ
held t phs = count_if (holds t) phs

-- What the completed tasks in the log rest on: `completed` are the payloads of the entries with the
-- type agent_task_completed, the latest first, and only an audit entry adds to them.
pub record IsCounting {T W : Type 0} (outside : Outside T W) (completed : W → List String)
    : Type 0 where
  pub audit_counts :
      (event_type payload : String) (w : W)
      → completed (outside.audit_adder event_type payload w).1
        ≡ (if event_type == "agent_task_completed" then payload ∷ completed w else completed w)
  pub generate_keeps :
      (model : GraniteModel) (prompt input : String) (tokens : ℤ) (temperature : T) (w : W)
      → completed (outside.generate model prompt input tokens temperature w).1 ≡ completed w
  pub dispatch_keeps :
      (dispatch : String → String → W → Dispatched × W)
      → outside.dispatcher ≡ some dispatch
      → (name output : String) (w : W) → completed (dispatch name output w).1 ≡ completed w
  pub callback_keeps : (r : TaskResult) (w : W) → completed (outside.callback r w) ≡ completed w
  pub now_keeps : (w : W) → completed (outside.now_ms w).1 ≡ completed w
  pub iso_keeps : (w : W) → completed (outside.iso_now w).1 ≡ completed w

count_if-modify {ℓ} :
    {A : Type ℓ} (p : A → Bool) (xs : List A) (i : ℕ) (x y : A)
    → get_elem? xs i ≡ some x
    → count_if p (modify xs i (λ _. y)) + (if p x then 1 else 0)
      ≡ count_if p xs + (if p y then 1 else 0)
count_if-modify p [] i x y h = cc
count_if-modify p (z ∷ xs) zero x y h = ground (arith, h)
count_if-modify p (z ∷ xs) (suc i) x y h = ground (arith, count_if-modify p xs i x y h)

pub count_if-snoc {ℓ} :
    {A : Type ℓ} (p : A → Bool) (xs : List A) (x : A)
    → count_if p (xs ++ x ∷ []) ≡ count_if p xs + (if p x then 1 else 0)
count_if-snoc p [] x = ground arith
count_if-snoc p (y ∷ xs) x = ground (arith, count_if-snoc p xs x)

pub count_if-remove_at {ℓ} :
    {A : Type ℓ} (p : A → Bool) (xs : List A) (i : ℕ) (x : A)
    → get_elem? xs i ≡ some x
    → count_if p (remove_at xs i) + (if p x then 1 else 0) ≡ count_if p xs
count_if-remove_at p [] i x h = cc
count_if-remove_at p (y ∷ xs) zero x h = ground (arith, h)
count_if-remove_at p (y ∷ xs) (suc i) x h = ground (arith, count_if-remove_at p xs i x h)

pub held-replicate : (t : TaskEntry → Bool) (n : ℕ) → held t (replicate n Phase.at_top) ≡ 0
unfolding replicate
held-replicate t zero = refl
held-replicate t (suc n) = held-replicate t n

pub held-all_left : (t : TaskEntry → Bool) (phs : List Phase) → all_left phs ≡ true → held t phs ≡ 0
unfolding all_left
held-all_left t [] h = refl
held-all_left t (Phase.left ∷ phs) h = held-all_left t phs h
held-all_left t (_ ∷ phs) h = cc

-- A worker that moves on without, with a first, or with a last step of a task.
pub moved-same :
    (t : TaskEntry → Bool) (phs : List Phase) (i : ℕ) (a b : Phase)
    → get_elem? phs i ≡ some a
    → holds t a ≡ holds t b
    → held t (modify phs i (λ _. b)) ≡ held t phs
moved-same t phs i a b at same = ground (arith, same, count_if-modify (holds t) phs i a b at)

pub moved-takes :
    (t : TaskEntry → Bool) (phs : List Phase) (i : ℕ) (e : TaskEntry)
    → get_elem? phs i ≡ some Phase.waiting
    → held t (modify phs i (λ _. Phase.taken e)) ≡ held t phs + (if t e then 1 else 0)
moved-takes t phs i e at =
    omega (arith, count_if-modify (holds t) phs i Phase.waiting (Phase.taken e) at)

pub moved-ends :
    (t : TaskEntry → Bool) (phs : List Phase) (i : ℕ) (e : TaskEntry) (r : TaskResult)
    → get_elem? phs i ≡ some (Phase.called e r)
    → held t (modify phs i (λ _. Phase.at_top)) + (if t e then 1 else 0) ≡ held t phs
moved-ends t phs i e r at =
    omega (arith, count_if-modify (holds t) phs i (Phase.called e r) Phase.at_top at)

pub entered-holds :
    (t : TaskEntry → Bool) (b : Bool) → false ≡ holds t (if b then Phase.waiting else Phase.left)
entered-holds t true = refl
entered-holds t false = refl

module _ {T W : Type 0} (outside : Outside T W) (completed : W → List String)
    (h : IsCounting outside completed) where
  other_entry :
      (event_type payload : String) (w : W)
      → (event_type == "agent_task_completed") ≡ false
      → completed (outside.audit_adder event_type payload w).1 ≡ completed w
  other_entry event_type payload w e = h.audit_counts event_type payload w ∙ rw e refl

  note_capped-completed :
      (p : AgentPersona T) (cap : ℤ) (w : W) → completed (note_capped outside p cap w) ≡ completed w
  unfolding note_capped
  note_capped-completed p cap w = other_entry "agent_generation_capped" _ w refl

  capped-completed :
      (p : AgentPersona T) (w : W) → completed (capped_tokens outside p w).1 ≡ completed w
  unfolding capped_tokens
  capped-completed p w =
      let cap = configured_token_cap outside w in
      if_cases (λ (r : ℤ × W). completed r.1 ≡ completed w)
        (ltb_ℤ (pos 0) cap && ltb_ℤ cap p.max_tokens) _ _ (λ _. note_capped-completed p cap w)
        (λ _. refl)

  dispatched-completed :
      (d : Option (String → String → W → Dispatched × W)) (name : String) (r : TaskResult) (w : W)
      → outside.dispatcher ≡ d
      → completed (dispatched outside d name r w).1 ≡ completed w
  unfolding dispatched
  dispatched-completed none name r w e = refl
  dispatched-completed (some dispatch) name r w e =
      if_cases (λ (t : TaskResult × W). completed t.1 ≡ completed w) _ _ _
        (λ _. h.dispatch_keeps dispatch e name r.output w) (λ _. refl)

  generated-completed :
      (e : TaskEntry) (p : AgentPersona T) (c : AgentController T) (w : W)
      → completed (generated outside e p c w).2 ≡ completed w
  unfolding generated
  generated-completed e p c w =
      dispatched-completed outside.dispatcher p.name _ _ refl
      ∙ h.now_keeps _
      ∙ h.generate_keeps p.preferred_model _ e.input _ p.temperature _
      ∙ capped-completed p w

  pub execute_task-completed :
      (e : TaskEntry) (c : AgentController T) (w : W)
      → completed (execute_task outside e c w).2 ≡ completed w
  unfolding execute_task
  execute_task-completed e c w = elim (Option-cases (lookup e.agent_name c.personas)) [
    | inl unknown ↦ rw (unknown, execute_task) (h.now_keeps w)
    | inr (p, known) ↦ rw (known, execute_task) (generated-completed e p c w)
  ]

module _ {T W : Type 0} (outside : Outside T W) where
  pub execute_task-queue :
      (e : TaskEntry) (c : AgentController T) (w : W)
      → ((execute_task outside e c w).1.queue ≡ c.queue)
        × ((execute_task outside e c w).1.next_task_id ≡ c.next_task_id)
  unfolding execute_task generated
  execute_task-queue e c w = elim (Option-cases (lookup e.agent_name c.personas)) [
    | inl unknown ↦ rw (unknown, execute_task) (refl, refl)
    | inr (p, known) ↦ rw (known, execute_task) (refl, refl)
  ]

  pub submit-new :
      (name input : String) (priority : Priority) (now : ℕ) (c : AgentController T)
      → is_some (lookup name c.personas) ≡ true
      → (let r = submit_task name input priority now c in
          (r.1.next_task_id ≡ inc64 c.next_task_id)
          × (r.1.queue ≡ c.queue ++ entry_of c name input priority now ∷ []))
  unfolding submit_task
  submit-new name input priority now c known = rw known (refl, refl)

  pub submit-unknown :
      (name input : String) (priority : Priority) (now : ℕ) (c : AgentController T)
      → is_some (lookup name c.personas) ≡ false
      → (submit_task name input priority now c).1 ≡ c
  unfolding submit_task
  submit-unknown name input priority now c unknown = rw unknown refl

  pub mark_running-same :
      (name : String) (c : AgentController T)
      → ((mark_running outside name c).queue ≡ c.queue)
        × ((mark_running outside name c).next_task_id ≡ c.next_task_id)
  unfolding mark_running
  mark_running-same name c = elim (Option-cases (lookup name c.statuses)) [
    | inl unknown ↦ rw (unknown, mark_running) (refl, refl)
    | inr (st, known) ↦ rw (known, mark_running) (refl, refl)
  ]
