-- ===== src/Rules.antt =====
-- astartis/core/rule_engine: RULE-01 to RULE-05 over the threat state machine and the WORM lock.
-- `W` is the state behind the callbacks; the engine and the state machine are constructed with the
-- same audit_adder and worm_trigger, as in main of astartis/bridge/astartis_bridge.cpp. Each
-- evaluation runs without another thread's call between its steps. A `double` is taken with the
-- operations that the rules use.
mod Scenes
mod Scores
pub mod Worm
pub mod Tiers
pub mod Chaos
pub mod Frame
use astartis_codex_control_p.Base.{
  ℕ, ◌+◌, ◌*◌, String, Bool, true, false, [], ◌∷◌, leb, if◌then◌else◌, concat, bool_text, nat_text,
  int_text,
}
use astartis_codex_control_p.Callbacks.{AuditAdder, WormPort}
use astartis_codex_control_p.Threat.{medium, critical}
unfoldable pub use Scenes.*
unfoldable pub use Scores.*

module _ {W : Type 0} (F : Floats) (audit_adder : AuditAdder W)
    (port : WormPort W audit_adder) where
  -- RULE-01
  anomaly : EntropyWindow F.Double → Scene W → RuleResult × Scene W
  unfolding force apply_rule04_belt tell
  anomaly window s =
      let (changed, s1) =
        force audit_adder port critical
          ("RULE-01 anomalous_packet entropy=" ∷ F.to_text window.mean_entropy_bits ∷ []) s in
      let (worm_hit, s2) = apply_rule04_belt audit_adder port "RULE-01" s1 in
      let s3 =
        tell audit_adder port "rule_engine_rule01_fired"
          ("rule=RULE-01"
            ∷ " window_index="
            ∷ nat_text window.window_index
            ∷ " mean_entropy="
            ∷ F.streamed window.mean_entropy_bits
            ∷ " threat_score="
            ∷ int_text window.threat_score
            ∷ " anomalous=true"
            ∷ " tier_changed="
            ∷ bool_text changed
            ∷ " worm_triggered="
            ∷ bool_text worm_hit
            ∷ [])
          s2 in
      (
        record {
          rule_id = "RULE-01";
          fired = true;
          worm_triggered = worm_hit;
          action_taken =
              "anomalous packet window detected: forced CRITICAL tier + WORM lockdown check";
        },
        count_fire s3,
      )

  unfoldable pub evaluate_packet_window : EntropyWindow F.Double → Scene W → RuleResult × Scene W
  unfolding signal anomaly
  evaluate_packet_window window s =
      let (_, s1) = signal audit_adder port window.threat_score "packet_sensor_window" s in
      if window.anomalous then anomaly window s1 else (
        record {
          rule_id = "RULE-01";
          fired = false;
          worm_triggered = false;
          action_taken = "packet window processed, no anomaly flag";
        },
        s1,
      )

  -- RULE-05
  chaos_result : Bool → String → RuleResult
  chaos_result fired action = record {
    rule_id = "RULE-05";
    fired = fired;
    worm_triggered = false;
    action_taken = action;
  }

  sustained_chaos : ChaosWindow F.Double → ℕ → Scene W → RuleResult × Scene W
  unfolding force tell chaos_result
  sustained_chaos window count s =
      let (_, s1) =
        force audit_adder port medium
          ("RULE-05 chaos_precursor K="
            ∷ F.to_text window.K
            ∷ " sustained_windows="
            ∷ nat_text count
            ∷ [])
          (count_fire s) in
      let s2 =
        tell audit_adder port "rule_engine_rule05_fired"
          ("rule=RULE-05"
            ∷ " window_index="
            ∷ nat_text window.window_index
            ∷ " K="
            ∷ F.streamed window.K
            ∷ " sustained_windows="
            ∷ nat_text count
            ∷ " action=preemptive_escalation_to_MEDIUM"
            ∷ [])
          s1 in
      (
        chaos_result true (
            concat (
              "chaos precursor: K="
              ∷ F.to_text window.K
              ∷ " sustained over "
              ∷ nat_text count
              ∷ " windows -- preemptive escalation to MEDIUM"
              ∷ [])),
        s2,
      )

  chaotic_window : ChaosWindow F.Double → ℕ → Scene W → RuleResult × Scene W
  unfolding sustained_chaos
  chaotic_window window count s =
      if leb rule05_sustained_windows count
      then sustained_chaos window count (set_chaos_count count s)
      else (
        chaos_result false (
            concat (
              "chaos signal accumulating: K="
              ∷ F.to_text window.K
              ∷ " count="
              ∷ nat_text count
              ∷ " (need "
              ∷ nat_text rule05_sustained_windows
              ∷ ")"
              ∷ [])),
        set_chaos_count count s,
      )

  unfoldable pub evaluate_chaos_window : ChaosWindow F.Double → Scene W → RuleResult × Scene W
  unfolding chaotic_window chaos_result
  evaluate_chaos_window window s =
      if F.lt F.seven_tenths window.K
      then chaotic_window window (s.engine.chaos_high_count + 1) s
      else (
        chaos_result false
            (concat ("chaos K=" ∷ F.to_text window.K ∷ " (below threshold, no action)" ∷ [])),
        set_chaos_count 0 s,
      )
