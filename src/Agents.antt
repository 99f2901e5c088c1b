-- ===== src/Agents.antt =====
-- astartis/agents/controller/agent_controller: personas, a queue of tasks and the workers that take them.
-- `T` is the type of a temperature. What the controller reaches through its members and through the
-- system is the record Outside.
pub mod Personas
pub mod Tasks
pub mod Pool
pub mod Counting
pub mod Traces
pub mod Counted
pub mod Loading
use astartis_codex_control_p.Base.{
  ℕ, String, Bool, Option, List, [], ◌∷◌, ◌++◌, map, if◌then◌else◌, is_some, inc64, concat,
  nat_text, length, pos_part, leb_ℤ, ℤ, Dict, lookup, pos,
}
use astartis_codex_control_p.Callbacks.{AuditAdder}

pub data GraniteModel : Type 0 where
  fast heavy accuracy orchestrator : GraniteModel

pub record AgentPersona (T : Type 0) : Type 0 where
  pub name : String
  pub description : String
  pub category : String
  pub preferred_model : GraniteModel
  pub system_prompt : String
  pub skills : List String
  pub max_tokens : ℤ
  pub temperature : T
  pub input_schema : String
  pub output_schema : String

pub data Priority : Type 0 where
  high normal low : Priority

abbrev pub rank : Priority → ℕ
rank Priority.high = 0
rank Priority.normal = 1
rank Priority.low = 2

pub record TaskEntry : Type 0 where
  pub task_id : String
  pub agent_name : String
  pub input : String
  pub priority : Priority
  pub enqueued_at_ms : ℕ

pub record TaskResult : Type 0 where
  pub task_id : String
  pub agent_name : String
  pub is_ok : Bool
  pub output : String
  pub model_used : String
  pub completed_at_ms : ℕ
  pub action_taken : Bool
  pub action_type : String
  pub action_target : String

pub data AgentState : Type 0 where
  idle running completed failed : AgentState

pub record AgentStatus : Type 0 where
  pub name : String
  pub category : String
  pub tier : String
  pub state : AgentState
  pub last_task_id : String
  pub last_result_snippet : String
  pub last_run_at_ms : ℕ
  pub tasks_completed : ℕ
  pub tasks_failed : ℕ
  pub last_active : String

pub record GraniteResponse : Type 0 where
  pub is_ok : Bool
  pub text : String
  pub model_used : String

-- What the controller reads of a dispatch.
pub record Dispatched : Type 0 where
  pub action_taken : Bool
  pub action_type : String
  pub target : String

-- granite_->generate, the dispatcher (none where it is not set), the completion callback (which does
-- nothing where it is not set), the clock as a number and as a text, the fragment that a skill file
-- holds (the name of the skill where its JSON has no prompt_fragment, none where there is no such file
-- or it cannot be parsed), the environment variable ASTARTIS_AGENT_TOKEN_CAP, and strtol (none where it
-- does not read the whole text).
pub record Outside (T W : Type 0) : Type 0 where
  pub audit_adder : AuditAdder W
  pub generate : GraniteModel → String → String → ℤ → T → W → GraniteResponse × W
  pub dispatcher : Option (String → String → W → Dispatched × W)
  pub callback : TaskResult → W → W
  pub now_ms : W → ℕ × W
  pub iso_now : W → String × W
  pub skill_file : String → W → Option String
  pub token_cap_text : W → Option String
  pub strtol : String → Option ℤ

pub record AgentController (T : Type 0) : Type 0 where
  pub personas : Dict (AgentPersona T)
  pub statuses : Dict AgentStatus
  pub queue : List TaskEntry
  pub worker_count : ℕ
  pub next_task_id : ℕ
  pub skill_cache : Dict String
  pub tasks_since_last_mem_log : ℕ

abbrev pub new_controller : {T : Type 0} → ℤ → AgentController T
new_controller worker_count = record {
  personas = [];
  statuses = [];
  queue = [];
  worker_count = if leb_ℤ worker_count (pos 0) then 1 else pos_part worker_count;
  next_task_id = 1;
  skill_cache = [];
  tasks_since_last_mem_log = 0;
}

unfoldable pub model_to_tier : GraniteModel → String
model_to_tier GraniteModel.fast = "FAST"
model_to_tier GraniteModel.heavy = "HEAVY"
model_to_tier GraniteModel.accuracy = "ACCURACY"
model_to_tier GraniteModel.orchestrator = "ORCHESTRATOR"

module _ {T : Type 0} where
  abbrev pub queue_depth : AgentController T → ℕ
  queue_depth c = length c.queue

  abbrev pub persona_count : AgentController T → ℕ
  persona_count c = length c.personas

  abbrev pub get_statuses : AgentController T → List AgentStatus
  get_statuses c = map (λ kv. kv.1) c.statuses

  abbrev pub entry_of : AgentController T → String → String → Priority → ℕ → TaskEntry
  entry_of c agent_name input priority now = record {
    task_id = concat ("task_" ∷ nat_text c.next_task_id ∷ []);
    agent_name = agent_name;
    input = input;
    priority = priority;
    enqueued_at_ms = now;
  }

  -- The id, empty for an agent that is unknown. The queue is kept in the order of submission.
  unfoldable pub submit_task :
      String → String → Priority → ℕ → AgentController T → String × AgentController T
  unfolding lookup
  submit_task agent_name input priority now c =
      if is_some (lookup agent_name c.personas)
      then (
        (entry_of c agent_name input priority now).task_id,
        record c {
          queue = c.queue ++ entry_of c agent_name input priority now ∷ [];
          next_task_id = inc64 c.next_task_id;
        },
      )
      else ("", c)
