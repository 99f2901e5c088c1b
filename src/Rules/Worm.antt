-- ===== src/Rules/Worm.antt =====
-- RULE-04 and the WORM lock: when the evaluations leave the lock engaged.
use astartis_codex_control_p.Base.{
  ℕ, ◌+◌, ◌≤◌, String, ◌≡◌, sym, ap, ◌∙◌, inl, inr, Bool, true, false, ◌&&◌, not, List, [], ◌∷◌,
  arith, leb, if◌then◌else◌, le→leb, Bool-cases, concat, leb_ℤ, ℤ, pos,
}
use astartis_codex_control_p.Callbacks.{AuditAdder, WormPort}
use astartis_codex_control_p.Threat.{
  ThreatTier, low, medium, high, critical, is_critical, ThreatStateMachine, SignalResult,
  observe_signal, force_tier, do_transition, announce, tier_eq,
}
use astartis_codex_control_p.Threat.Signals.{Outcome, observe_signal-Outcome}
use astartis_codex_control_p.Rules.{
  Floats, Scene, EntropyWindow, ChaosWindow, tell, signal, force, apply_rule04_belt,
  rule03_critical_threshold, rule03_failure_threshold, rule05_sustained_windows,
  evaluate_threat_score, evaluate_auth_failures, evaluate_packet_window, evaluate_chaos_window,
  count_fire, set_chaos_count,
}

module _ {W : Type 0} (audit_adder : AuditAdder W) (port : WormPort W audit_adder) where
  -- The lock is engaged whenever the tier is CRITICAL.
  abbrev pub IsSafe : Scene W → Type 0
  IsSafe s = is_critical s.tsm.current_tier ≡ true → port.is_locked s.world ≡ true

  tell-IsSafe :
      (t : String) (p : List String) (s : Scene W) → IsSafe s → IsSafe (tell audit_adder port t p s)
  unfolding tell
  tell-IsSafe t p s h c = port.audit_keeps t (concat p) s.world ∙ h c

  announce-locked :
      (from to : ThreatTier) (reason : String) (w : W)
      → is_critical to ≡ true
      → port.is_locked (announce audit_adder port.trigger from to reason w) ≡ true
  unfolding announce
  announce-locked from critical reason w h = port.trigger_locks _ _
  announce-locked from low reason w h = cc
  announce-locked from medium reason w h = cc
  announce-locked from high reason w h = cc

  Outcome-IsSafe :
      (m : ThreatStateMachine) (w : W) (r : SignalResult × ThreatStateMachine × W)
      → Outcome audit_adder port.trigger m w r
      → (is_critical m.current_tier ≡ true → port.is_locked w ≡ true)
      → is_critical r.1.current_tier ≡ true
      → port.is_locked r.2 ≡ true
  Outcome-IsSafe m w (res, m', w') (inl (_, _, same, quiet)) h c =
      rw quiet (h (ap (λ (n : ThreatStateMachine). is_critical n.current_tier) (sym same) ∙ c))
  Outcome-IsSafe m w (res, m', w') (inr (reason, _, _, _, _, _, _, told)) h c =
      rw told (announce-locked m.current_tier m'.current_tier reason w c)

  signal-IsSafe :
      (score : ℤ) (source : String) (s : Scene W)
      → IsSafe s
      → IsSafe (signal audit_adder port score source s).1
  unfolding signal
  signal-IsSafe score source s =
      Outcome-IsSafe s.tsm s.world
        (observe_signal audit_adder port.trigger score source s.tsm s.world)
        (observe_signal-Outcome audit_adder port.trigger score source s.tsm s.world)

  pub tier-force :
      (t : ThreatTier) (reason : List String) (s : Scene W)
      → (force audit_adder port t reason s).1.tsm.current_tier ≡ t
  unfolding force force_tier do_transition
  tier-force low reason s = ground arith
  tier-force medium reason s = ground arith
  tier-force high reason s = ground arith
  tier-force critical reason s = ground arith

  force-IsSafe :
      (t : ThreatTier) (reason : List String) (s : Scene W)
      → IsSafe s
      → IsSafe (force audit_adder port t reason s).1
  unfolding force force_tier do_transition
  force-IsSafe t reason s h = elim (Bool-cases (tier_eq t s.tsm.current_tier)) [
    | inl same ↦ rw same h
    | inr other ↦ rw other (announce-locked s.tsm.current_tier t _ s.world)
  ]

  -- The tail of a rule that forces a tier and writes its entry.
  forced_told :
      (t : ThreatTier) (reason : List String) (event : String) (p : List String) (s : Scene W)
      → IsSafe s
      → IsSafe (tell audit_adder port event p (force audit_adder port t reason s).1)
  forced_told t reason event p s h =
      tell-IsSafe event p (force audit_adder port t reason s).1 (force-IsSafe t reason s h)

  -- Whatever the scene before, RULE-04 leaves it safe.
  belt-IsSafe : (rule : String) (s : Scene W) → IsSafe (apply_rule04_belt audit_adder port rule s).1
  unfolding apply_rule04_belt tell
  belt-IsSafe rule s c =
      elim (Bool-cases (is_critical s.tsm.current_tier && not (port.is_locked s.world))) [
        | inl acts ↦ rw acts (port.audit_keeps _ _ _ ∙ port.trigger_locks _ _)
        | inr idle ↦ rw idle (ground arith)
      ]

  pub tsm-belt :
      (rule : String) (s : Scene W) → (apply_rule04_belt audit_adder port rule s).1.tsm ≡ s.tsm
  unfolding apply_rule04_belt tell
  tsm-belt rule s = ground arith

  count_fire-IsSafe : (b : Bool) (s : Scene W) → IsSafe s → IsSafe (if b then count_fire s else s)
  count_fire-IsSafe true s h = h
  count_fire-IsSafe false s h = h

  evaluate_threat_score-IsSafe :
      (score : ℤ) (source : String) (s : Scene W)
      → IsSafe (evaluate_threat_score audit_adder port score source s).1
  unfolding evaluate_threat_score
  evaluate_threat_score-IsSafe score source s =
      count_fire-IsSafe _ _ (belt-IsSafe "RULE-02" (signal audit_adder port score source s).1)

  -- RULE-02 ends with RULE-04: whatever the score, the tier and the lock before, if the tier is
  -- CRITICAL afterwards then the lock is engaged.
  pub evaluate_threat_score-locks :
      (score : ℤ) (source : String) (s : Scene W)
      → (evaluate_threat_score audit_adder port score source s).1.tsm.current_tier ≡ critical
      → port.is_locked (evaluate_threat_score audit_adder port score source s).1.world ≡ true
  evaluate_threat_score-locks score source s c =
      evaluate_threat_score-IsSafe score source s (ap is_critical c)

  -- The tail that RULE-01 and RULE-03 share: force CRITICAL, apply RULE-04, write the entry.
  abbrev pub IsLocked : Scene W → Type 0
  IsLocked s = (s.tsm.current_tier ≡ critical) × (port.is_locked s.world ≡ true)

  forced_then_belt :
      (reason : List String) (rule t : String) (p : List String) (s : Scene W)
      → IsLocked (
          tell audit_adder port t p
            (apply_rule04_belt audit_adder port rule
              (force audit_adder port critical reason s).1).1)
  unfolding tell
  forced_then_belt reason rule t p s =
      let s1 = (force audit_adder port critical reason s).1 in
      let tier : (apply_rule04_belt audit_adder port rule s1).1.tsm.current_tier ≡ critical =
        ap (λ (n : ThreatStateMachine). n.current_tier) (tsm-belt rule s1)
        ∙ tier-force critical reason s in
      (tier, port.audit_keeps _ _ _ ∙ belt-IsSafe rule s1 (ap is_critical tier))

  -- RULE-03 with at least ten failures in the window leaves the tier CRITICAL and the lock engaged.
  pub evaluate_auth_failures-locks :
      (n : ℕ) (source : String) (s : Scene W)
      → 10 ≤ n
      → IsLocked (evaluate_auth_failures audit_adder port (pos n) source s).1
  unfolding evaluate_auth_failures
  evaluate_auth_failures-locks n source s h =
      rw (le→leb (10 + 0) (n + 0) (omega arith)) (forced_then_belt _ "RULE-03" _ _ s)

  evaluate_auth_failures-IsSafe :
      (failures : ℤ) (source : String) (s : Scene W)
      → IsSafe s
      → IsSafe (evaluate_auth_failures audit_adder port failures source s).1
  unfolding evaluate_auth_failures
  evaluate_auth_failures-IsSafe failures source s h =
      elim (Bool-cases (leb_ℤ rule03_critical_threshold failures)) [
        | inl many ↦ rw many (λ _. (forced_then_belt _ "RULE-03" _ _ s).1)
        | inr few ↦ rw few (elim (Bool-cases (leb_ℤ rule03_failure_threshold failures)) [
          | inl some_failures ↦ rw some_failures (forced_told high _ _ _ s h)
          | inr fewer ↦ rw fewer h
        ])
      ]

module _ {W : Type 0} (F : Floats) (audit_adder : AuditAdder W)
    (port : WormPort W audit_adder) where
  -- RULE-01: an anomalous packet window leaves the tier CRITICAL and the lock engaged, whatever its
  -- score and whatever the tier and the lock before.
  pub evaluate_packet_window-locks :
      (window : EntropyWindow F.Double) (s : Scene W)
      → window.anomalous ≡ true
      → IsLocked audit_adder port (evaluate_packet_window F audit_adder port window s).1
  unfolding evaluate_packet_window
  evaluate_packet_window-locks window s h =
      rw h (forced_then_belt audit_adder port _ "RULE-01" _ _ _)

  evaluate_packet_window-IsSafe :
      (window : EntropyWindow F.Double) (s : Scene W)
      → IsSafe audit_adder port s
      → IsSafe audit_adder port (evaluate_packet_window F audit_adder port window s).1
  unfolding evaluate_packet_window
  evaluate_packet_window-IsSafe window s h = elim (Bool-cases window.anomalous) [
    | inl yes_anomalous ↦
        rw yes_anomalous (λ _. (forced_then_belt audit_adder port _ "RULE-01" _ _ _).1)
    | inr calm ↦
        rw calm (signal-IsSafe audit_adder port window.threat_score "packet_sensor_window" s h)
  ]

  evaluate_chaos_window-IsSafe :
      (window : ChaosWindow F.Double) (s : Scene W)
      → IsSafe audit_adder port s
      → IsSafe audit_adder port (evaluate_chaos_window F audit_adder port window s).1
  unfolding evaluate_chaos_window
  evaluate_chaos_window-IsSafe window s h = elim (Bool-cases (F.lt F.seven_tenths window.K)) [
    | inl above ↦
        rw above (elim (Bool-cases (leb rule05_sustained_windows (s.engine.chaos_high_count + 1))) [
          | inl sustained ↦ rw sustained (
              forced_told audit_adder port medium _ _ _
                (count_fire (set_chaos_count (s.engine.chaos_high_count + 1) s)) h)
          | inr accumulating ↦ rw accumulating h
        ])
    | inr below ↦ rw below h
  ]

  pub data Evaluation : Type 0 where
    packet : EntropyWindow F.Double → Evaluation
    score : ℤ → String → Evaluation
    failures : ℤ → String → Evaluation
    chaos : ChaosWindow F.Double → Evaluation

  unfoldable pub evaluate : Evaluation → Scene W → Scene W
  evaluate (packet window) s = (evaluate_packet_window F audit_adder port window s).1
  evaluate (score n source) s = (evaluate_threat_score audit_adder port n source s).1
  evaluate (failures n source) s = (evaluate_auth_failures audit_adder port n source s).1
  evaluate (chaos window) s = (evaluate_chaos_window F audit_adder port window s).1

  unfoldable pub run : List Evaluation → Scene W → Scene W
  run [] s = s
  run (e ∷ es) s = run es (evaluate e s)

  evaluate-IsSafe :
      (e : Evaluation) (s : Scene W)
      → IsSafe audit_adder port s
      → IsSafe audit_adder port (evaluate e s)
  unfolding evaluate
  evaluate-IsSafe (packet window) s h = evaluate_packet_window-IsSafe window s h
  evaluate-IsSafe (score n source) s h = evaluate_threat_score-IsSafe audit_adder port n source s
  evaluate-IsSafe (failures n source) s h =
      evaluate_auth_failures-IsSafe audit_adder port n source s h
  evaluate-IsSafe (chaos window) s h = evaluate_chaos_window-IsSafe window s h

  -- No sequence of rule evaluations reaches a scene with the tier CRITICAL and the lock open, if the
  -- first scene is not such a one.
  pub run-IsSafe :
      (es : List Evaluation) (s : Scene W)
      → IsSafe audit_adder port s
      → IsSafe audit_adder port (run es s)
  unfolding run
  run-IsSafe [] s h = h
  run-IsSafe (e ∷ es) s h = run-IsSafe es (evaluate e s) (evaluate-IsSafe e s h)
