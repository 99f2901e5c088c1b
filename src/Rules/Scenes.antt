-- ===== src/Rules/Scenes.antt =====
-- The data of the rule engine, the calls that its rules share, and RULE-04.
use astartis_codex_control_p.Base.{
  ℕ, String, Bool, true, false, ◌&&◌, not, List, [], ◌∷◌, if◌then◌else◌, inc64, concat, ℤ, pos,
}
use astartis_codex_control_p.Callbacks.{AuditAdder, WormPort}
use astartis_codex_control_p.Threat.{
  ThreatTier, is_critical, ThreatStateMachine, SignalResult, observe_signal, force_tier,
}

-- The floating-point operations of the rules: a comparison, the literal 0.7, std::to_string and what
-- an ostringstream writes.
pub record Floats : Type 1 where
  pub Double : Type 0
  pub lt : Double → Double → Bool
  pub seven_tenths : Double
  pub to_text : Double → String
  pub streamed : Double → String

pub record RuleResult : Type 0 where
  pub rule_id : String
  pub fired : Bool
  pub worm_triggered : Bool
  pub action_taken : String

pub record RuleEngine : Type 0 where
  pub total_fires : ℕ
  pub worm_trigger_count : ℕ
  pub chaos_high_count : ℕ

abbrev pub new_engine : RuleEngine
new_engine = record { total_fires = 0; worm_trigger_count = 0; chaos_high_count = 0 }

-- The engine with the machine that it refers to and the outside.
pub record Scene (W : Type 0) : Type 0 where
  pub engine : RuleEngine
  pub tsm : ThreatStateMachine
  pub world : W

abbrev pub rule03_failure_threshold : ℤ
rule03_failure_threshold = pos 5

abbrev pub rule03_critical_threshold : ℤ
rule03_critical_threshold = pos 10

abbrev pub rule05_sustained_windows : ℕ
rule05_sustained_windows = 2

-- sensor::EntropyWindow and chaos::ChaosWindow
pub record EntropyWindow (D : Type 0) : Type 0 where
  pub window_index : ℕ
  pub packet_count : ℕ
  pub mean_entropy_bits : D
  pub max_entropy_bits : D
  pub min_entropy_bits : D
  pub threat_score : ℤ
  pub anomalous : Bool
  pub synthetic : Bool
  pub adapter_name : String

pub record ChaosWindow (D : Type 0) : Type 0 where
  pub window_index : ℕ
  pub sample_count : ℕ
  pub K : D
  pub lambda1 : D
  pub anomalous : Bool
  pub synthetic : Bool

module _ {W : Type 0} where
  abbrev pub count_fire : Scene W → Scene W
  count_fire s = record s { engine = record s.engine { total_fires = inc64 s.engine.total_fires } }

  abbrev pub set_chaos_count : ℕ → Scene W → Scene W
  set_chaos_count n s = record s { engine = record s.engine { chaos_high_count = n } }

module _ {W : Type 0} (audit_adder : AuditAdder W) (port : WormPort W audit_adder) where
  unfoldable pub tell : String → List String → Scene W → Scene W
  tell event_type payload s = record s {
    world = (audit_adder event_type (concat payload) s.world).1;
  }

  -- The calls of the state machine, with what they change put back into the scene.
  unfoldable pub signal : ℤ → String → Scene W → SignalResult × Scene W
  signal score source s =
      let r = observe_signal audit_adder port.trigger score source s.tsm s.world in
      (r.0, record s { tsm = r.1; world = r.2 })

  unfoldable pub force : ThreatTier → List String → Scene W → Bool × Scene W
  force tier reason s =
      let r = force_tier audit_adder port.trigger tier (concat reason) s.tsm s.world in
      (r.0, record s { tsm = r.1; world = r.2 })

  unfoldable pub engage_belt : String → Scene W → Scene W
  unfolding tell
  engage_belt triggering_rule s =
      tell "rule_engine_rule04_belt" ("rule=RULE-04 triggered_by=" ∷ triggering_rule ∷ [])
        (record s {
          engine = record s.engine { worm_trigger_count = inc64 s.engine.worm_trigger_count };
          world =
              port.trigger
                (concat (
                  "RULE-04 belt: " ∷ triggering_rule ∷ " confirmed CRITICAL, WORM not yet locked"
                  ∷ []))
                s.world;
        })

  unfoldable pub apply_rule04_belt : String → Scene W → Bool × Scene W
  unfolding engage_belt
  apply_rule04_belt triggering_rule s =
      if is_critical s.tsm.current_tier && not (port.is_locked s.world)
      then (true, engage_belt triggering_rule s)
      else (false, s)
