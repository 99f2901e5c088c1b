-- ===== src/Agents/Personas.antt =====
-- astartis/agents/controller: persona_loader, and how the controller takes a persona in.
use astartis_codex_control_p.Base.{
  ℕ, suc, String, Bool, true, false, ◌&&◌, ◌||◌, not, Option, none, some, List, [], ◌∷◌, map, ◌==◌,
  if◌then◌else◌, concat, is_empty, has_text, ltb_ℤ, insert, pos,
}
use astartis_codex_control_p.Callbacks.{AuditAdder}
use astartis_codex_control_p.Doubles.{Doubles}
use astartis_codex_control_p.Agents.{
  GraniteModel, AgentPersona, AgentState, AgentStatus, AgentController, model_to_tier,
}

-- The model of a text in lower case.
unfoldable pub model_of : String → GraniteModel
model_of model_str =
    if model_str == "fast"
    then GraniteModel.fast
    else if model_str == "heavy"
    then GraniteModel.heavy
    else if model_str == "accuracy"
    then GraniteModel.accuracy
    else if model_str == "orchestrator"
    then GraniteModel.orchestrator
    else GraniteModel.heavy

abbrev pub same_model : GraniteModel → GraniteModel → Bool
same_model GraniteModel.fast GraniteModel.fast = true
same_model GraniteModel.heavy GraniteModel.heavy = true
same_model GraniteModel.accuracy GraniteModel.accuracy = true
same_model GraniteModel.orchestrator GraniteModel.orchestrator = true
same_model _ _ = false

abbrev pub fresh_status : {T : Type 0} → AgentPersona T → AgentStatus
fresh_status p = record {
  name = p.name;
  category = p.category;
  tier = model_to_tier p.preferred_model;
  state = AgentState.idle;
  last_task_id = "";
  last_result_snippet = "";
  last_run_at_ms = 0;
  tasks_completed = 0;
  tasks_failed = 0;
  last_active = "";
}

module _ {T : Type 0} where
  unfoldable pub is_granite_only : AgentPersona T → Bool
  is_granite_only p =
      same_model p.preferred_model GraniteModel.fast
      || (same_model p.preferred_model GraniteModel.heavy
          || (same_model p.preferred_model GraniteModel.accuracy
              || same_model p.preferred_model GraniteModel.orchestrator))

  -- personas_[name] = persona, and a new status
  unfoldable pub register : AgentPersona T → AgentController T → AgentController T
  unfolding insert model_to_tier
  register p c = record c {
    personas = insert p.name p c.personas;
    statuses = insert p.name (fresh_status p) c.statuses;
  }

module _ (D : Doubles) where
  unfoldable pub validate_persona : AgentPersona D.Double → Bool
  validate_persona p =
      not (is_empty p.name)
      && (not (is_empty p.system_prompt)
          && (not (ltb_ℤ p.max_tokens (pos 1))
              && not
                  (D.lt p.temperature (D.literal "0.0") || D.lt (D.literal "2.0") p.temperature)))

  module _ {W : Type 0} (audit_adder : AuditAdder W) where
    -- A persona that load_from_json read, or none where it threw: whether it is taken in.
    unfoldable pub load_persona :
        Option (AgentPersona D.Double)
        → AgentController D.Double
        → W
        → Bool × AgentController D.Double × W
    unfolding validate_persona is_granite_only register concat
    load_persona none c w = (false, c, w)
    load_persona (some p) c w =
        if not (validate_persona p)
        then (false, c, w)
        else if not (is_granite_only p)
        then (
          false,
          c,
          (audit_adder "persona_rejected"
              (concat ("name=" ∷ p.name ∷ " reason=non_granite_model" ∷ [])) w).1,
        )
        else (true, register p c, w)

    -- The files of a directory with the extension .json, in its order: the number that is taken in.
    unfoldable pub load_files :
        List (Option (AgentPersona D.Double))
        → AgentController D.Double
        → W
        → ℕ × AgentController D.Double × W
    unfolding load_persona
    load_files [] c w = (0, c, w)
    load_files (f ∷ fs) c w =
        let (loaded, c1, w1) = load_persona f c w in
        let (count, c2, w2) = load_files fs c1 w1 in (if loaded then suc count else count, c2, w2)

    -- The files whose stem is in the allowlist.
    unfoldable pub allowed_files :
        List String
        → List (String × Option (AgentPersona D.Double))
        → List (Option (AgentPersona D.Double))
    unfolding has_text
    allowed_files allowlist [] = []
    allowed_files allowlist ((stem, f) ∷ fs) =
        let rest = allowed_files allowlist fs in if has_text stem allowlist then f ∷ rest else rest

    -- load_all_personas with a configuration: the allowlist, or none where the file is not there or
    -- cannot be read.
    unfoldable pub load_all_personas :
        Option (List String)
        → List (String × Option (AgentPersona D.Double))
        → AgentController D.Double
        → W
        → ℕ × AgentController D.Double × W
    unfolding load_files allowed_files
    load_all_personas none files c w = load_files (map (λ f. f.1) files) c w
    load_all_personas (some []) files c w = load_files (map (λ f. f.1) files) c w
    load_all_personas (some (name ∷ names)) files c w =
        load_files (allowed_files (name ∷ names) files) c w
