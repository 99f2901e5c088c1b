-- ===== src/Agents/Tasks.antt =====
-- astartis/agents/controller/agent_controller: what a worker does with a task. A text that is cut to a
-- number of bytes is taken to be ASCII.
use astartis_codex_control_p.Base.{
  ℕ, ◌+◌, String, Bool, true, false, ◌&&◌, ◌||◌, not, Option, none, some, List, [], ◌∷◌,
  if◌then◌else◌, inc64, concat, is_empty, bool_text, int_text, ltb_ℤ, ℤ, Dict, lookup, insert, pos,
}
use Prim.Native.String.{slice}
use astartis_codex_control_p.Agents.{
  AgentPersona, TaskEntry, TaskResult, AgentState, AgentStatus, Dispatched, Outside,
  AgentController,
}

abbrev pub skill_search_dirs : List String
skill_search_dirs = "agents/skills" ∷ "../agents/skills" ∷ "../../agents/skills" ∷ []

module _ {T W : Type 0} (outside : Outside T W) where
  unfoldable pub configured_token_cap : W → ℤ
  configured_token_cap w = elim (outside.token_cap_text w) [
    | none ↦ pos 0
    | some raw ↦ elim (outside.strtol raw) [
      | none ↦ pos 0
      | some value ↦
          if is_empty raw || (ltb_ℤ value (pos 1) || ltb_ℤ (pos 16384) value) then pos 0 else value
    ]
  ]

  -- The fragment in the first directory that has a file of the skill which can be parsed, or the name.
  unfoldable pub fragment_from : List String → String → W → String
  unfolding concat
  fragment_from [] skill w = skill
  fragment_from (dir ∷ dirs) skill w =
      let rest = fragment_from dirs skill w in
      elim (outside.skill_file (concat (dir ∷ "/" ∷ skill ∷ ".json" ∷ [])) w) [
        | none ↦ rest
        | some fragment ↦ fragment
      ]

  unfoldable pub load_skill_fragment : String → Dict String → W → String × Dict String
  unfolding fragment_from lookup insert
  load_skill_fragment skill cache w = elim (lookup skill cache) [
    | some fragment ↦ (fragment, cache)
    | none ↦
        let fragment = fragment_from skill_search_dirs skill w in
        (fragment, insert skill fragment cache)
  ]

  -- The loop over the skills of a persona.
  unfoldable pub with_skills : List String → String → Dict String → W → String × Dict String
  unfolding load_skill_fragment concat
  with_skills [] prompt cache w = (prompt, cache)
  with_skills (skill ∷ skills) prompt cache w =
      let (fragment, cache1) = load_skill_fragment skill cache w in
      with_skills skills (concat (prompt ∷ "\n[" ∷ skill ∷ "] " ∷ fragment ∷ [])) cache1 w

  unfoldable pub prompt_of : List String → String → Dict String → W → String × Dict String
  unfolding with_skills concat
  prompt_of [] prompt cache w = (prompt, cache)
  prompt_of (skill ∷ skills) prompt cache w =
      with_skills (skill ∷ skills) (concat (prompt ∷ "\n\n--- Skills ---" ∷ [])) cache w

  unfoldable pub note_capped : AgentPersona T → ℤ → W → W
  unfolding concat
  note_capped p cap w =
      (outside.audit_adder "agent_generation_capped"
        (concat (
          "agent=" ∷ p.name ∷ " configured=" ∷ int_text p.max_tokens ∷ " cap=" ∷ int_text cap ∷ []))
        w).1

  -- The tokens to generate, with the cap of the environment.
  unfoldable pub capped_tokens : AgentPersona T → W → ℤ × W
  unfolding configured_token_cap note_capped
  capped_tokens p w =
      let cap = configured_token_cap w in
      if ltb_ℤ (pos 0) cap && ltb_ℤ cap p.max_tokens
      then (cap, note_capped p cap w)
      else (p.max_tokens, w)

  abbrev pub result_of : TaskEntry → Bool → String → String → ℕ → TaskResult
  result_of e is_ok output model_used now = record {
    task_id = e.task_id;
    agent_name = e.agent_name;
    is_ok = is_ok;
    output = output;
    model_used = model_used;
    completed_at_ms = now;
    action_taken = false;
    action_type = "";
    action_target = "";
  }

  -- The dispatch of an output, if there is a dispatcher.
  unfoldable pub dispatched :
      Option (String → String → W → Dispatched × W) → String → TaskResult → W → TaskResult × W
  dispatched none name r w = (r, w)
  dispatched (some dispatch) name r w =
      let (d, w1) = dispatch name r.output w in
      if r.is_ok && not (is_empty r.output)
      then (
        if d.action_taken
            then record r {
              action_taken = true;
              action_type = d.action_type;
              action_target = d.target;
            }
            else r,
        w1,
      )
      else (r, w)

  -- execute_task of an agent whose persona is there.
  unfoldable pub generated :
      TaskEntry → AgentPersona T → AgentController T → W → TaskResult × AgentController T × W
  unfolding prompt_of capped_tokens dispatched
  generated e p c w =
      let (prompt, cache) = prompt_of p.skills p.system_prompt c.skill_cache w in
      let (tokens, w1) = capped_tokens p w in
      let (resp, w2) = outside.generate p.preferred_model prompt e.input tokens p.temperature w1 in
      let (now, w3) = outside.now_ms w2 in
      let (r, w4) =
        dispatched outside.dispatcher p.name (result_of e resp.is_ok resp.text resp.model_used now)
          w3 in
      (
        r,
        record c {
          skill_cache = cache;
          tasks_since_last_mem_log = inc64 c.tasks_since_last_mem_log;
        },
        w4,
      )

  unfoldable pub execute_task :
      TaskEntry → AgentController T → W → TaskResult × AgentController T × W
  unfolding generated lookup
  execute_task e c w = elim (lookup e.agent_name c.personas) [
    | none ↦ let (now, w1) = outside.now_ms w in (result_of e false "" "" now, c, w1)
    | some p ↦ generated e p c w
  ]

  unfoldable pub mark_running : String → AgentController T → AgentController T
  unfolding lookup insert
  mark_running name c = elim (lookup name c.statuses) [
    | none ↦ c
    | some st ↦ record c {
      statuses = insert name (record st { state = AgentState.running }) c.statuses;
    }
  ]

  -- statuses_[name] of a name that is not there
  abbrev pub empty_status : AgentStatus
  empty_status = record {
    name = "";
    category = "";
    tier = "";
    state = AgentState.idle;
    last_task_id = "";
    last_result_snippet = "";
    last_run_at_ms = 0;
    tasks_completed = 0;
    tasks_failed = 0;
    last_active = "";
  }

  -- statuses_[name]
  unfoldable pub status_at : Option AgentStatus → AgentStatus
  status_at none = empty_status
  status_at (some st) = st

  abbrev pub updated : TaskResult → String → AgentStatus → AgentStatus
  updated r active st = record st {
    state = if r.is_ok then AgentState.completed else AgentState.failed;
    last_task_id = r.task_id;
    last_run_at_ms = r.completed_at_ms;
    last_result_snippet = slice r.output 0 100;
    last_active = active;
    tasks_completed = if r.is_ok then st.tasks_completed + 1 else st.tasks_completed;
    tasks_failed = if r.is_ok then st.tasks_failed else st.tasks_failed + 1;
  }

  unfoldable pub record_result : String → TaskResult → AgentController T → W → AgentController T × W
  unfolding lookup insert status_at
  record_result name r c w =
      let (active, w1) = outside.iso_now w in
      let st = status_at (lookup name c.statuses) in
      (record c { statuses = insert name (updated r active st) c.statuses }, w1)

  unfoldable pub note_completed : TaskEntry → TaskResult → W → W
  unfolding concat
  note_completed e r w =
      (outside.audit_adder "agent_task_completed"
        (concat (
          "agent="
          ∷ e.agent_name
          ∷ " task="
          ∷ e.task_id
          ∷ " ok="
          ∷ bool_text r.is_ok
          ∷ " model="
          ∷ r.model_used
          ∷ []))
        w).1
