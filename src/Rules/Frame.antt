-- ===== src/Rules/Frame.antt =====
-- The rule engine reaches the outside through its callbacks: properties of the outside over the
-- evaluations.
use astartis_codex_control_p.Base.{
  ◌+◌, String, inl, inr, Bool, true, false, ◌&&◌, not, List, [], ◌∷◌, leb, if◌then◌else◌,
  Bool-cases, concat, leb_ℤ, ℤ,
}
use astartis_codex_control_p.Callbacks.{AuditAdder, WormPort}
use astartis_codex_control_p.Threat.{
  ThreatTier, is_critical, ThreatStateMachine, SignalResult, observe_signal, force_tier,
  do_transition, announce, tier_eq, medium, high, critical,
}
use astartis_codex_control_p.Threat.Signals.{Outcome, observe_signal-Outcome}
use astartis_codex_control_p.Rules.{
  Floats, Scene, EntropyWindow, ChaosWindow, tell, signal, force, apply_rule04_belt,
  rule03_critical_threshold, rule03_failure_threshold, rule05_sustained_windows,
  evaluate_threat_score, evaluate_auth_failures, evaluate_packet_window, evaluate_chaos_window,
  count_fire, set_chaos_count,
}
use astartis_codex_control_p.Rules.Worm.{Evaluation, packet, score, failures, chaos, evaluate, run}

module _ {W : Type 0} (audit_adder : AuditAdder W) (port : WormPort W audit_adder) (P : W → Type 0)
    (audited : (t p : String) (w : W) → P w → P (audit_adder t p w).1)
    (triggered : (reason : String) (w : W) → P w → P (port.trigger reason w)) where
  announce-keeps :
      (from to : ThreatTier) (reason : String) (w : W)
      → P w
      → P (announce audit_adder port.trigger from to reason w)
  unfolding announce
  announce-keeps from to reason w h = elim (Bool-cases (is_critical to)) [
    | inl worst ↦ rw worst (triggered _ _ (audited _ _ w h))
    | inr other ↦ rw other (audited _ _ w h)
  ]

  Outcome-keeps :
      (m : ThreatStateMachine) (w : W) (r : SignalResult × ThreatStateMachine × W)
      → Outcome audit_adder port.trigger m w r
      → P w
      → P r.2
  Outcome-keeps m w (res, m', w') (inl (_, _, _, quiet)) h = rw quiet h
  Outcome-keeps m w (res, m', w') (inr (reason, _, _, _, _, _, _, told)) h =
      rw told (announce-keeps m.current_tier m'.current_tier reason w h)

  signal-keeps :
      (n : ℤ) (source : String) (s : Scene W)
      → P s.world
      → P (signal audit_adder port n source s).1.world
  unfolding signal
  signal-keeps n source s =
      Outcome-keeps s.tsm s.world (observe_signal audit_adder port.trigger n source s.tsm s.world)
        (observe_signal-Outcome audit_adder port.trigger n source s.tsm s.world)

  tell-keeps :
      (t : String) (p : List String) (s : Scene W)
      → P s.world
      → P (tell audit_adder port t p s).world
  unfolding tell
  tell-keeps t p s h = audited t (concat p) s.world h

  force-keeps :
      (t : ThreatTier) (reason : List String) (s : Scene W)
      → P s.world
      → P (force audit_adder port t reason s).1.world
  unfolding force force_tier do_transition
  force-keeps t reason s h = elim (Bool-cases (tier_eq t s.tsm.current_tier)) [
    | inl same ↦ rw same h
    | inr other ↦ rw other (announce-keeps s.tsm.current_tier t _ s.world h)
  ]

  belt-keeps :
      (rule : String) (s : Scene W)
      → P s.world
      → P (apply_rule04_belt audit_adder port rule s).1.world
  unfolding apply_rule04_belt tell
  belt-keeps rule s h =
      elim (Bool-cases (is_critical s.tsm.current_tier && not (port.is_locked s.world))) [
        | inl acts ↦ rw acts (audited _ _ _ (triggered _ _ h))
        | inr idle ↦ rw idle h
      ]

  count_fire-keeps : (b : Bool) (s : Scene W) → P s.world → P (if b then count_fire s else s).world
  count_fire-keeps true s h = h
  count_fire-keeps false s h = h

  score-keeps :
      (n : ℤ) (source : String) (s : Scene W)
      → P s.world
      → P (evaluate_threat_score audit_adder port n source s).1.world
  unfolding evaluate_threat_score
  score-keeps n source s h =
      let s1 = (signal audit_adder port n source s).1 in
      count_fire-keeps _ (apply_rule04_belt audit_adder port "RULE-02" s1).1
        (belt-keeps "RULE-02" s1 (signal-keeps n source s h))

  forced_told_keeps :
      (t : ThreatTier) (reason : List String) (event : String) (p : List String) (s : Scene W)
      → P s.world
      → P (tell audit_adder port event p (force audit_adder port t reason s).1).world
  forced_told_keeps t reason event p s h =
      tell-keeps event p (force audit_adder port t reason s).1 (force-keeps t reason s h)

  forced_belted_keeps :
      (reason : List String) (rule t : String) (p : List String) (s : Scene W)
      → P s.world
      → P
          (tell audit_adder port t p
            (apply_rule04_belt audit_adder port rule
              (force audit_adder port critical reason s).1).1).world
  forced_belted_keeps reason rule t p s h =
      let s1 = (force audit_adder port critical reason s).1 in
      tell-keeps t p (apply_rule04_belt audit_adder port rule s1).1
        (belt-keeps rule s1 (force-keeps critical reason s h))

  failures-keeps :
      (n : ℤ) (source : String) (s : Scene W)
      → P s.world
      → P (evaluate_auth_failures audit_adder port n source s).1.world
  unfolding evaluate_auth_failures
  failures-keeps n source s h = elim (Bool-cases (leb_ℤ rule03_critical_threshold n)) [
    | inl many ↦ rw many (forced_belted_keeps _ "RULE-03" _ _ s h)
    | inr few ↦ rw few (elim (Bool-cases (leb_ℤ rule03_failure_threshold n)) [
      | inl spike ↦ rw spike (forced_told_keeps high _ _ _ s h)
      | inr fewer ↦ rw fewer h
    ])
  ]

  module _ (F : Floats) where
    packet-keeps :
        (window : EntropyWindow F.Double) (s : Scene W)
        → P s.world
        → P (evaluate_packet_window F audit_adder port window s).1.world
    unfolding evaluate_packet_window
    packet-keeps window s h =
        let s1 = (signal audit_adder port window.threat_score "packet_sensor_window" s).1 in
        let h1 : P s1.world = signal-keeps window.threat_score "packet_sensor_window" s h in
        elim (Bool-cases window.anomalous) [
          | inl odd ↦ rw odd (forced_belted_keeps _ "RULE-01" _ _ s1 h1)
          | inr calm ↦ rw calm h1
        ]

    chaos-keeps :
        (window : ChaosWindow F.Double) (s : Scene W)
        → P s.world
        → P (evaluate_chaos_window F audit_adder port window s).1.world
    unfolding evaluate_chaos_window
    chaos-keeps window s h = elim (Bool-cases (F.lt F.seven_tenths window.K)) [
      | inl above ↦
          rw above
            (elim (Bool-cases (leb rule05_sustained_windows (s.engine.chaos_high_count + 1))) [
              | inl sustained ↦ rw sustained (
                  forced_told_keeps medium _ _ _
                    (count_fire (set_chaos_count (s.engine.chaos_high_count + 1) s)) h)
              | inr accumulating ↦ rw accumulating h
            ])
      | inr below ↦ rw below h
    ]

    evaluate-keeps :
        (e : Evaluation F audit_adder port) (s : Scene W)
        → P s.world
        → P (evaluate F audit_adder port e s).world
    unfolding evaluate
    evaluate-keeps (packet window) s h = packet-keeps window s h
    evaluate-keeps (score n source) s h = score-keeps n source s h
    evaluate-keeps (failures n source) s h = failures-keeps n source s h
    evaluate-keeps (chaos window) s h = chaos-keeps window s h

    pub run-keeps :
        (es : List (Evaluation F audit_adder port)) (s : Scene W)
        → P s.world
        → P (run F audit_adder port es s).world
    unfolding run
    run-keeps [] s h = h
    run-keeps (e ∷ es) s h = run-keeps es (evaluate F audit_adder port e s) (evaluate-keeps e s h)
