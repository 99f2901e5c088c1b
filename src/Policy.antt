-- ===== src/Policy.antt =====
-- astartis/agents/controller/policy_engine: which agents may trigger which actions. A null-terminated
-- array of names is a list.
pub mod Separation
use astartis_codex_control_p.Base.{ℕ, String, Bool, true, false, List, [], ◌∷◌, ◌==◌, if◌then◌else◌}

abbrev pub firewall_block_agents : List String
firewall_block_agents =
    "incident_responder" ∷ "breach_simulator" ∷ "red_team_coord" ∷ "ransomware_hunter" ∷ []

abbrev pub quarantine_agents : List String
quarantine_agents =
    "malware_analyst" ∷ "forensics_agent" ∷ "forensics_investigator" ∷ "threat_hunter" ∷ []

abbrev pub deception_agents : List String
deception_agents = "deception_engineer" ∷ "purple_team" ∷ []

abbrev pub zerotrust_deny_agents : List String
zerotrust_deny_agents = "zero_trust_engineer" ∷ "iam_privilege_auditor" ∷ []

unfoldable pub name_in : List String → String → Bool
name_in [] name = false
name_in (x ∷ xs) name = if name == x then true else name_in xs name

unfoldable pub can_block_firewall : String → Bool
can_block_firewall agent_name = name_in firewall_block_agents agent_name

unfoldable pub can_quarantine : String → Bool
can_quarantine agent_name = name_in quarantine_agents agent_name

unfoldable pub can_deceive : String → Bool
can_deceive agent_name = name_in deception_agents agent_name

unfoldable pub can_zerotrust_deny : String → Bool
can_zerotrust_deny agent_name = name_in zerotrust_deny_agents agent_name

abbrev pub max_concurrent_blocks : ℕ
max_concurrent_blocks = 100

abbrev pub max_quarantine_per_hour : ℕ
max_quarantine_per_hour = 50

unfoldable pub require_human_approval : String → Bool
require_human_approval action_type = false
