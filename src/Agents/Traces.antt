-- ===== src/Agents/Traces.antt =====
-- The tasks that the steps of a run of the agent controller submit and complete.
use astartis_codex_control_p.Base.{
  String, List, [], ◌∷◌, ◌++◌, if◌then◌else◌, is_some, concat, bool_text, lookup,
}
use astartis_codex_control_p.Agents.{TaskEntry, TaskResult, entry_of, Outside}
use astartis_codex_control_p.Agents.Pool.{
  Pool, Step, Reach, submit, load, start, stop, join, enter, quit, take_task, mark, execute,
  update_status, call_back, finish, here, after_step,
}

module _ {T W : Type 0} (outside : Outside T W) where
  -- The task that a step submits, and the one that it completes.
  unfoldable pub submitted_by : {p q : Pool T W} → Step outside p q → List TaskEntry
  submitted_by (submit p name input priority) =
      if is_some (lookup name p.controller.personas)
      then entry_of p.controller name input priority (outside.now_ms p.world).0 ∷ []
      else []
  submitted_by (load p persona) = []
  submitted_by (start p off none_left) = []
  submitted_by (stop p) = []
  submitted_by (join p off gone) = []
  submitted_by (enter p i at) = []
  submitted_by (quit p i at off empty) = []
  submitted_by (take_task p i j e at there top) = []
  submitted_by (mark p i e at) = []
  submitted_by (execute p i e at) = []
  submitted_by (update_status p i e r at) = []
  submitted_by (call_back p i e r at) = []
  submitted_by (finish p i e r at) = []

  unfoldable pub finished_by : {p q : Pool T W} → Step outside p q → List (TaskEntry × TaskResult)
  finished_by (submit p name input priority) = []
  finished_by (load p persona) = []
  finished_by (start p off none_left) = []
  finished_by (stop p) = []
  finished_by (join p off gone) = []
  finished_by (enter p i at) = []
  finished_by (quit p i at off empty) = []
  finished_by (take_task p i j e at there top) = []
  finished_by (mark p i e at) = []
  finished_by (execute p i e at) = []
  finished_by (update_status p i e r at) = []
  finished_by (call_back p i e r at) = []
  finished_by (finish p i e r at) = (e, r) ∷ []

  -- The tasks that were submitted, and those that were completed, the latest first.
  unfoldable pub submitted_tasks : {p q : Pool T W} → Reach outside p q → List TaskEntry
  submitted_tasks here = []
  submitted_tasks (after_step r st) = submitted_by st ++ submitted_tasks r

  unfoldable pub finished_tasks :
      {p q : Pool T W} → Reach outside p q → List (TaskEntry × TaskResult)
  finished_tasks here = []
  finished_tasks (after_step r st) = finished_by st ++ finished_tasks r

-- The payload that stands for a completed task in the log.
abbrev pub completion : TaskEntry × TaskResult → String
completion (e, r) = concat (
    "agent="
    ∷ e.agent_name
    ∷ " task="
    ∷ e.task_id
    ∷ " ok="
    ∷ bool_text r.is_ok
    ∷ " model="
    ∷ r.model_used
    ∷ [])
