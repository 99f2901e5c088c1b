-- ===== src/Rules/Scores.antt =====
-- astartis/core/rule_engine: RULE-02, on threat scores, and RULE-03, on authentication failures.
use astartis_codex_control_p.Base.{
  String, Bool, true, false, ◌||◌, [], ◌∷◌, if◌then◌else◌, concat, int_text, leb_ℤ, ℤ,
}
use astartis_codex_control_p.Callbacks.{AuditAdder, WormPort}
use astartis_codex_control_p.Threat.{high, critical, tier_name, SignalResult}
use astartis_codex_control_p.Rules.Scenes.{
  RuleResult, Scene, apply_rule04_belt, count_fire, force, rule03_critical_threshold,
  rule03_failure_threshold, signal, tell,
}

module _ {W : Type 0} (audit_adder : AuditAdder W) (port : WormPort W audit_adder) where
  -- RULE-02
  unfoldable pub score_action : ℤ → String → SignalResult → Bool → String
  score_action score source result worm_hit = concat (
      "score="
      ∷ int_text score
      ∷ " source="
      ∷ source
      ∷ (if result.tier_changed
          then concat (
              " tier_transition="
              ∷ tier_name result.previous_tier
              ∷ "->"
              ∷ tier_name result.current_tier
              ∷ [])
          else "")
      ∷ (if worm_hit then " worm_triggered=true" else "")
      ∷ [])

  unfoldable pub evaluate_threat_score : ℤ → String → Scene W → RuleResult × Scene W
  unfolding signal apply_rule04_belt score_action
  evaluate_threat_score score source s =
      let (result, s1) = signal audit_adder port score source s in
      let (worm_hit, s2) = apply_rule04_belt audit_adder port "RULE-02" s1 in
      let fired = result.tier_changed || worm_hit in
      (
        record {
          rule_id = "RULE-02";
          fired = fired;
          worm_triggered = worm_hit;
          action_taken = score_action score source result worm_hit;
        },
        if fired then count_fire s2 else s2,
      )

  -- RULE-03
  unfoldable pub critical_failures : ℤ → String → Scene W → RuleResult × Scene W
  unfolding force apply_rule04_belt tell
  critical_failures failures source s =
      let (_, s1) =
        force audit_adder port critical
          ("RULE-03 auth_failures=" ∷ int_text failures ∷ " source=" ∷ source ∷ []) s in
      let (worm_hit, s2) = apply_rule04_belt audit_adder port "RULE-03" s1 in
      let s3 =
        tell audit_adder port "rule_engine_rule03_fired"
          ("rule=RULE-03 failures="
            ∷ int_text failures
            ∷ " source="
            ∷ source
            ∷ " action=forced_CRITICAL"
            ∷ [])
          s2 in
      (
        record {
          rule_id = "RULE-03";
          fired = true;
          worm_triggered = worm_hit;
          action_taken = concat (
              "auth failure spike (>= "
              ∷ int_text rule03_critical_threshold
              ∷ "): forced CRITICAL + WORM check"
              ∷ []);
        },
        count_fire s3,
      )

  unfoldable pub high_failures : ℤ → String → Scene W → RuleResult × Scene W
  unfolding force tell
  high_failures failures source s =
      let (_, s1) =
        force audit_adder port high
          ("RULE-03 auth_failures=" ∷ int_text failures ∷ " source=" ∷ source ∷ []) s in
      let s2 =
        tell audit_adder port "rule_engine_rule03_fired"
          ("rule=RULE-03 failures="
            ∷ int_text failures
            ∷ " source="
            ∷ source
            ∷ " action=forced_HIGH"
            ∷ [])
          s1 in
      (
        record {
          rule_id = "RULE-03";
          fired = true;
          worm_triggered = false;
          action_taken = concat (
              "auth failure spike (>= "
              ∷ int_text rule03_failure_threshold
              ∷ "): forced HIGH"
              ∷ []);
        },
        count_fire s2,
      )

  unfoldable pub evaluate_auth_failures : ℤ → String → Scene W → RuleResult × Scene W
  unfolding critical_failures high_failures
  evaluate_auth_failures failures source s =
      if leb_ℤ rule03_critical_threshold failures
      then critical_failures failures source s
      else if leb_ℤ rule03_failure_threshold failures
      then high_failures failures source s
      else (
        record {
          rule_id = "RULE-03";
          fired = false;
          worm_triggered = false;
          action_taken =
              concat ("auth failures=" ∷ int_text failures ∷ " (below threshold, no action)" ∷ []);
        },
        s,
      )
