-- ===== src/Agents/Pool.antt =====
-- astartis/agents/controller/agent_controller: the worker threads as a step relation. Each block that
-- holds mutex_ is one step, and so is each call between two such blocks. A start does not run while a
-- stop of another thread still joins the workers.
use astartis_codex_control_p.Base.{
  ℕ, zero, suc, ◌≤◌, String, ◌≡◌, Bool, true, false, some, List, [], ◌∷◌, if◌then◌else◌, is_empty,
  get_elem?, modify,
}
use astartis_codex_control_p.Agents.{
  AgentPersona, Priority, rank, TaskEntry, TaskResult, Outside, AgentController, submit_task,
}
use astartis_codex_control_p.Agents.Personas.{register}
use astartis_codex_control_p.Agents.Tasks.{
  execute_task, mark_running, record_result, note_completed,
}

-- Where a worker stands in worker_loop: before the test of running_, in the wait, and behind each of the
-- steps of one task.
pub data Phase : Type 0 where
  at_top waiting left : Phase
  taken marked : TaskEntry → Phase
  executed recorded called : TaskEntry → TaskResult → Phase

pub record Pool (T W : Type 0) : Type 0 where
  pub controller : AgentController T
  pub running : Bool
  pub workers : List Phase
  pub world : W

-- No entry that waits is more urgent: std::priority_queue gives any such one.
abbrev pub IsTop : TaskEntry → List TaskEntry → Type 0
IsTop e queue =
    (j : ℕ) (other : TaskEntry)
    → get_elem? queue j ≡ some other
    → rank e.priority ≤ rank other.priority

-- The queue without its entry at a place.
abbrev pub remove_at {ℓ} : {A : Type ℓ} → List A → ℕ → List A
remove_at [] i = []
remove_at (x ∷ xs) zero = xs
remove_at (x ∷ xs) (suc i) = x ∷ remove_at xs i

unfoldable pub replicate : ℕ → Phase → List Phase
replicate zero ph = []
replicate (suc n) ph = ph ∷ replicate n ph

unfoldable pub all_left : List Phase → Bool
all_left [] = true
all_left (Phase.left ∷ phs) = all_left phs
all_left (_ ∷ phs) = false

module _ {T W : Type 0} (outside : Outside T W) where
  abbrev pub moved : ℕ → Phase → Pool T W → Pool T W
  moved i ph p = record p { workers = modify p.workers i (λ _. ph) }

  abbrev pub with_controller : AgentController T → W → Pool T W → Pool T W
  with_controller c w p = record p { controller = c; world = w }

  -- The clock is read for an agent that is known only.
  abbrev pub submitted : String → String → Priority → Pool T W → Pool T W
  submitted name input priority p =
      let (now, w) = outside.now_ms p.world in
      let r = submit_task name input priority now p.controller in
      with_controller r.1 (if is_empty r.0 then p.world else w) p

  pub data Step : Pool T W → Pool T W → Type 0 where
    submit :
        (p : Pool T W) (name input : String) (priority : Priority)
        → Step p (submitted name input priority p)
    load :
        (p : Pool T W) (persona : AgentPersona T)
        → Step p (with_controller (register persona p.controller) p.world p)
    start :
        (p : Pool T W)
        → p.running ≡ false
        → p.workers ≡ []
        → Step p (record p {
          running = true;
          workers = replicate p.controller.worker_count Phase.at_top;
        })
    stop : (p : Pool T W) → Step p (record p { running = false })
    join :
        (p : Pool T W)
        → p.running ≡ false
        → all_left p.workers ≡ true
        → Step p (record p { workers = [] })
    enter :
        (p : Pool T W) (i : ℕ)
        → get_elem? p.workers i ≡ some Phase.at_top
        → Step p (moved i (if p.running then Phase.waiting else Phase.left) p)
    quit :
        (p : Pool T W) (i : ℕ)
        → get_elem? p.workers i ≡ some Phase.waiting
        → p.running ≡ false
        → p.controller.queue ≡ []
        → Step p (moved i Phase.left p)
    take_task :
        (p : Pool T W) (i j : ℕ) (e : TaskEntry)
        → get_elem? p.workers i ≡ some Phase.waiting
        → get_elem? p.controller.queue j ≡ some e
        → IsTop e p.controller.queue
        → Step p (
            moved i (Phase.taken e) (
              with_controller
                (record p.controller { queue = remove_at p.controller.queue j })
                p.world
                p))
    mark :
        (p : Pool T W) (i : ℕ) (e : TaskEntry)
        → get_elem? p.workers i ≡ some (Phase.taken e)
        → Step p (
            moved i
              (Phase.marked e)
              (with_controller (mark_running outside e.agent_name p.controller) p.world p))
    execute :
        (p : Pool T W) (i : ℕ) (e : TaskEntry)
        → get_elem? p.workers i ≡ some (Phase.marked e)
        → Step p (
            let t = execute_task outside e p.controller p.world in
            moved i (Phase.executed e t.0) (with_controller t.1 t.2 p))
    update_status :
        (p : Pool T W) (i : ℕ) (e : TaskEntry) (r : TaskResult)
        → get_elem? p.workers i ≡ some (Phase.executed e r)
        → Step p (
            let t = record_result outside e.agent_name r p.controller p.world in
            moved i (Phase.recorded e r) (with_controller t.0 t.1 p))
    call_back :
        (p : Pool T W) (i : ℕ) (e : TaskEntry) (r : TaskResult)
        → get_elem? p.workers i ≡ some (Phase.recorded e r)
        → Step p (
            moved i
              (Phase.called e r)
              (with_controller p.controller (outside.callback r p.world) p))
    finish :
        (p : Pool T W) (i : ℕ) (e : TaskEntry) (r : TaskResult)
        → get_elem? p.workers i ≡ some (Phase.called e r)
        → Step p (
            moved i Phase.at_top
              (with_controller p.controller (note_completed outside e r p.world) p))

  pub data Reach (p : Pool T W) : Pool T W → Type 0 where
    here : Reach p p
    after_step : {q r : Pool T W} → Reach p q → Step q r → Reach p r
