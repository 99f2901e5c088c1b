-- ===== src/Dispatcher.antt =====
-- astartis/agents/controller/action_dispatcher: from the output of an agent to an action. The JSON
-- parser and the regular expressions are parameters, `draws` are the numbers that the quarantine draws
-- for an id, and `now` is the clock's reading for the quarantine and the response.
pub mod Extraction
pub mod Attempts
pub mod Permissions
pub mod Targets
use astartis_codex_control_p.Base.{
  ℕ, String, Bool, true, false, not, List, [], ◌∷◌, if◌then◌else◌, concat, is_empty, bool_text,
  nat_text, pos,
}
use astartis_codex_control_p.Callbacks.{AuditAdder}
use astartis_codex_control_p.Dispatcher.Extraction.{
  Json, Patterns, extract_ipv4, extract_filepath, or_text, find_target, session_of, device_of,
}
use astartis_codex_control_p.Policy.{
  can_block_firewall, can_quarantine, can_deceive, can_zerotrust_deny,
}
use astartis_codex_control_p.Firewall.{FirewallBlocker, block}
use astartis_codex_control_p.Quarantine.{QuarantineEntry, Disk, quarantine_file}
use astartis_codex_control_p.Response.{ActiveResponse, serve}
use astartis_codex_control_p.ZeroTrust.{TrustDecision, AccessContext, evaluate, decision_str}

pub record DispatchResult : Type 0 where
  pub action_taken : Bool
  pub action_type : String
  pub target : String
  pub audit_entry_id : String
  pub error_message : String

-- The objects behind fw_, qtn_ and ar_; the zero-trust engine keeps nothing.
pub record Components : Type 0 where
  pub fw : FirewallBlocker
  pub quarantined : List QuarantineEntry
  pub response : ActiveResponse

module _ {W J : Type 0} (run_netsh : String → W → Bool × W) (clock : W → ℕ × W)
    (audit_adder : AuditAdder W) (disk : Disk W) (quarantine_dir : String)
    (sha256 : String → List ℕ) (json : Json J) (patterns : Patterns) (draws : ℕ × ℕ) (now : ℕ) where
  -- Whether the action was taken, the result, the objects and the outside.
  abbrev pub Try : Type 0
  Try = Bool × DispatchResult × Components × W

  unfoldable pub try_firewall_block : String → String → DispatchResult → Components → W → Try
  unfolding find_target concat
  try_firewall_block output agent_name out c w =
      let target =
        find_target json (extract_ipv4 patterns) "containment_actions" "iocs_found" output in
      if not (can_block_firewall agent_name)
      then (false, out, c, w)
      else if is_empty target
      then (false, out, c, w)
      else let (br, fw, w') = block run_netsh clock audit_adder target (pos 900) c.fw w in
        let (id, w'') =
          audit_adder "action_dispatcher_firewall"
            (concat (
              "agent="
              ∷ agent_name
              ∷ " ip="
              ∷ target
              ∷ " blocked="
              ∷ bool_text br.blocked
              ∷ " reason="
              ∷ br.reason
              ∷ []))
            w' in
        (
          br.blocked,
          record {
            action_taken = br.blocked;
            action_type = "firewall_block";
            target = target;
            audit_entry_id = id;
            error_message = if br.blocked then "" else br.reason;
          },
          record c { fw = fw },
          w'',
        )

  unfoldable pub try_quarantine : String → String → DispatchResult → Components → W → Try
  unfolding find_target concat
  try_quarantine output agent_name out c w =
      let path =
        find_target json (extract_filepath patterns) "recommended_detections" "eradication_steps"
          output in
      if not (can_quarantine agent_name)
      then (false, out, c, w)
      else if is_empty path
      then (false, out, c, w)
      else let (entry, entries, w') =
          quarantine_file disk audit_adder quarantine_dir sha256 path
            (concat ("AI-flagged by " ∷ agent_name ∷ [])) draws.0 draws.1 now c.quarantined w in
        let success = not (is_empty entry.entry_id) in
        let (id, w'') =
          audit_adder "action_dispatcher_quarantine"
            (concat ("agent=" ∷ agent_name ∷ " path=" ∷ path ∷ " ok=" ∷ bool_text success ∷ []))
            w' in
        (
          success,
          record {
            action_taken = success;
            action_type = "quarantine";
            target = path;
            audit_entry_id = id;
            error_message = if success then "" else "Quarantine failed (file may not exist)";
          },
          record c { quarantined = entries },
          w'',
        )

  unfoldable pub try_deception : String → String → DispatchResult → Components → W → Try
  unfolding session_of concat
  try_deception output agent_name out c w =
      let session = session_of json patterns output agent_name in
      if not (can_deceive agent_name)
      then (false, out, c, w)
      else let (event, response, w') =
          serve audit_adder session "/ai_triggered" agent_name now c.response w in
        let (id, w'') =
          audit_adder "action_dispatcher_deception"
            (concat (
              "agent="
              ∷ agent_name
              ∷ " session="
              ∷ session
              ∷ " tier="
              ∷ nat_text event.response_tier
              ∷ []))
            w' in
        (
          true,
          record {
            action_taken = true;
            action_type = "deception";
            target = session;
            audit_entry_id = id;
            error_message = "";
          },
          record c { response = response },
          w'',
        )

  unfoldable pub assessed : String → String → String → AccessContext
  unfolding or_text concat
  assessed agent_name device resource = record {
    user_id = concat (agent_name ∷ "_assessment" ∷ []);
    device_id = device;
    source_ip = "0.0.0.0";
    destination_ip = "10.0.200.1";
    requested_resource = or_text resource "/ai_flagged_resource";
    ssid_name = "ENTERPRISE";
    trust_score = pos 0;
  }

  unfoldable pub is_denial : TrustDecision → Bool
  is_denial TrustDecision.deny = true
  is_denial TrustDecision.quarantine = true
  is_denial _ = false

  unfoldable pub try_zerotrust_deny : String → String → DispatchResult → Components → W → Try
  unfolding device_of or_text assessed is_denial concat
  try_zerotrust_deny output agent_name out c w =
      let found = device_of json patterns output in
      let device = or_text found.0 (concat ("device_ai_" ∷ agent_name ∷ [])) in
      if not (can_zerotrust_deny agent_name)
      then (false, out, c, w)
      else let (decision, w') = evaluate audit_adder (assessed agent_name device found.1) w in
        let denied = is_denial decision in
        let (id, w'') =
          audit_adder "action_dispatcher_zerotrust"
            (concat (
              "agent="
              ∷ agent_name
              ∷ " device="
              ∷ device
              ∷ " decision="
              ∷ decision_str decision
              ∷ []))
            w' in
        (
          denied,
          record {
            action_taken = denied;
            action_type = "zerotrust_deny";
            target = device;
            audit_entry_id = id;
            error_message =
                if denied
                then ""
                else concat
                    ("ZeroTrust did not DENY (decision: " ∷ decision_str decision ∷ ")" ∷ []);
          },
          c,
          w'',
        )

  -- A dispatch that took no action, with the next attempt.
  unfoldable pub or_else : Try → (DispatchResult → Components → W → Try) → Try
  or_else (true, out, c, w) next = (true, out, c, w)
  or_else (false, out, c, w) next = next out c w

  abbrev pub advisory : String → DispatchResult
  advisory error = record {
    action_taken = false;
    action_type = "advisory";
    target = "";
    audit_entry_id = "";
    error_message = error;
  }

  unfoldable pub advise : String → DispatchResult → Components → W → Try
  unfolding concat
  advise agent_name out c w =
      let (id, w') =
        audit_adder "action_dispatcher_advisory"
          (concat ("agent=" ∷ agent_name ∷ " reason=no_actionable_output" ∷ [])) w in
      (false, record out { audit_entry_id = id }, c, w')

  -- The first of the four attempts that takes an action ends the dispatch.
  unfoldable pub attempts : String → String → Components → W → Try
  unfolding or_else try_firewall_block try_quarantine try_deception try_zerotrust_deny advise
  attempts agent_name output c w =
      or_else (try_firewall_block output agent_name (advisory "") c w) λ out c w.
        or_else (try_quarantine output agent_name out c w) λ out c w.
          or_else (try_deception output agent_name out c w)
            λ out c w. or_else (try_zerotrust_deny output agent_name out c w) (advise agent_name)

  unfoldable pub dispatch : String → String → Components → W → DispatchResult × Components × W
  unfolding attempts
  dispatch agent_name output c w =
      let r = attempts agent_name output c w in
      if is_empty output then (advisory "empty agent output", c, w) else (r.1, r.2, r.3)
