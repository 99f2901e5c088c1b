-- ===== src/Tests/Swarm.antt =====
-- The agent controller.
use astartis_codex_control_p.Base.{
  ℕ, zero, suc, ◌+◌, ◌%◌, String, ◌≡◌, refl, ◌↔◌, ◌⊎◌, Bool, true, Option, none, some, List, [],
  ◌∷◌, map, arith, ◌==◌, if◌then◌else◌, u64_mod, nat_text, length, count_if, lookup, insert, pos,
}
use astartis_codex_control_p.Callbacks.{Log, logging}
use astartis_codex_control_p.Agents.{
  GraniteModel, AgentPersona, Priority, Outside, AgentController, TaskEntry, TaskResult, entry_of,
  submit_task,
}
use astartis_codex_control_p.Agents.Personas.{load_persona, register}
use astartis_codex_control_p.Agents.Tasks.{
  capped_tokens, mark_running, execute_task, record_result, note_completed,
}
use astartis_codex_control_p.Agents.Pool.{
  replicate, Phase, Pool, IsTop, Reach, here, after_step, load, submit, start, enter, take_task,
  mark, execute, update_status, call_back, finish, submitted, moved, with_controller,
}
use astartis_codex_control_p.Agents.Counting.{IsCounting, held}
use astartis_codex_control_p.Agents.Traces.{submitted_tasks, finished_tasks, completion}
use astartis_codex_control_p.Agents.Counted.{idle_pool, reach-accounted}
use astartis_codex_control_p.Agents.Loading.{IsComplete, load_persona-taken}
use astartis_codex_control_p.Tests.Sensing.{whole}

abbrev analyst : AgentPersona ℕ
analyst = record {
  name = "analyst";
  description = "";
  category = "soc";
  preferred_model = GraniteModel.heavy;
  system_prompt = "Look.";
  skills = [];
  max_tokens = pos 512;
  temperature = 1;
  input_schema = "";
  output_schema = "";
}

abbrev models : Outside ℕ Log
models = record {
  audit_adder = logging;
  generate = λ model prompt input tokens temperature w.
      (record { is_ok = true; text = "fine"; model_used = "granite" }, w);
  dispatcher = none;
  callback = λ r w. w;
  now_ms = λ w. (5, w);
  iso_now = λ w. ("now", w);
  skill_file = λ path w. none;
  token_cap_text = λ w. some "64";
  strtol = λ s. some (pos 64);
}

-- The payloads of the completed tasks in a log.
abbrev completed : Log → List String
completed [] = []
completed ((event_type, payload) ∷ w) =
    let rest = completed w in if event_type == "agent_task_completed" then payload ∷ rest else rest

models-IsCounting : IsCounting models completed
models-IsCounting = record {
  audit_counts = λ event_type payload w. refl;
  generate_keeps = λ model prompt input tokens temperature w. refl;
  dispatch_keeps = λ dispatch e name output w. cc;
  callback_keeps = λ r w. refl;
  now_keeps = λ w. refl;
  iso_keeps = λ w. refl;
}

abbrev at_start : Pool ℕ Log
at_start = idle_pool models completed models-IsCounting (pos 1) []

abbrev with_agent : Pool ℕ Log
with_agent = record at_start { controller = register analyst at_start.controller }

abbrev with_task : Pool ℕ Log
with_task = submitted models "analyst" "report" Priority.high with_agent

-- The agent's worker takes the task and completes it.
abbrev started : Pool ℕ Log
started = record with_task { running = true; workers = Phase.at_top ∷ [] }

abbrev entry : TaskEntry
entry = entry_of with_agent.controller "analyst" "report" Priority.high 5

abbrev taking : Pool ℕ Log
taking = moved models 0 (Phase.taken entry) (
    with_controller models (record with_task.controller { queue = [] }) []
      (moved models 0 Phase.waiting started))

abbrev marking : Pool ℕ Log
marking =
    moved models 0 (Phase.marked entry)
      (with_controller models (mark_running models "analyst" taking.controller) [] taking)

abbrev executing : TaskResult × AgentController ℕ × Log
executing = execute_task models entry marking.controller []

abbrev executed : Pool ℕ Log
executed =
    moved models 0 (Phase.executed entry executing.0)
      (with_controller models executing.1 executing.2 marking)

abbrev recorded : Pool ℕ Log
recorded =
    let t = record_result models "analyst" executing.0 executed.controller executed.world in
    moved models 0 (Phase.recorded entry executing.0) (with_controller models t.0 t.1 executed)

abbrev called : Pool ℕ Log
called =
    moved models 0 (Phase.called entry executing.0)
      (with_controller models recorded.controller recorded.world recorded)

abbrev done : Pool ℕ Log
done = moved models 0 Phase.at_top (
    with_controller models called.controller (note_completed models entry executing.0 called.world)
      called)

only_one : IsTop entry (entry ∷ [])
only_one zero other h = ground (arith, h)
only_one (suc j) other h = cc

done-Reach : Reach models at_start done
unfolding submit_task register lookup insert mark_running execute_task replicate nat_text
done-Reach =
    after_step
      (after_step
        (after_step
          (after_step
            (after_step
              (after_step
                (after_step
                  (after_step
                    (after_step (after_step here (load at_start analyst))
                      (submit with_agent "analyst" "report" Priority.high))
                    (start with_task refl refl))
                  (enter started 0 refl))
                (take_task (moved models 0 Phase.waiting started) 0 0 entry refl refl only_one))
              (mark taking 0 entry refl))
            (execute marking 0 entry refl))
          (update_status executed 0 entry executing.0 refl))
        (call_back recorded 0 entry executing.0 refl))
      (finish called 0 entry executing.0 refl)

reach-accounted_example :
    ((t : TaskEntry → Bool)
      → count_if t (submitted_tasks models done-Reach)
        ≡ count_if (λ f. t f.0) (finished_tasks models done-Reach)
          + held t done.workers
          + count_if t done.controller.queue)
    × (completed done.world ≡ map completion (finished_tasks models done-Reach))
    × (done.controller.next_task_id ≡ (1 + length (submitted_tasks models done-Reach)) % u64_mod)
reach-accounted_example =
    reach-accounted models completed models-IsCounting (pos 1) [] done refl done-Reach

one_waits : length with_task.controller.queue ≡ 1
unfolding submit_task register
one_waits = refl

load_persona-taken_example :
    (let r = load_persona whole logging (some analyst) at_start.controller [] in
      ((r.0 ≡ true) ↔ (
        (p : AgentPersona ℕ) × (◌≡◌ {A = Option (AgentPersona ℕ)} (some analyst) (some p))
        × IsComplete whole p))
      × ((r.0 ≡ true) ⊎ (r.1 ≡ at_start.controller))
      × (r.2 ≡ []))
load_persona-taken_example = load_persona-taken whole logging (some analyst) at_start.controller []

taken : (load_persona whole logging (some analyst) at_start.controller []).0 ≡ true
unfolding load_persona
taken = refl

sixty_four : (capped_tokens models analyst []).0 ≡ pos 64
unfolding capped_tokens
sixty_four = refl
