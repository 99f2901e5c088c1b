-- ===== src/Tests/Threats.antt =====
-- The threat state machine.
use astartis_codex_control_p.Base.{◌+◌, ◌<◌, [], ◌∷◌, arith, ℤ, pos, negsuc}
use astartis_codex_control_p.Callbacks.{logging}
use astartis_codex_control_p.Threat.{
  ThreatStateMachine, new_machine, medium, high, tier_lower_threshold,
}
use astartis_codex_control_p.Threat.Bands.{after_signal}
use astartis_codex_control_p.Threat.Signals.{
  logging_trigger, signals, forces, run, IsReported, run_new-IsReported,
}

abbrev at_high : ThreatStateMachine
at_high = record { current_tier = high; transition_count = 2 }

abbrev after_probe : ℤ → ThreatStateMachine
after_probe = after_signal logging logging_trigger "probe" at_high []

within_band : (30 + 10 < tier_lower_threshold high) × (tier_lower_threshold high < 30 + 25)
unfolding tier_lower_threshold
within_band = (omega arith, omega arith)

run_new-IsReported_example : IsReported (
    run
      (signals (pos 80) "probe" ∷ forces medium "drill" ∷ signals (negsuc 3) "quiet" ∷ [])
      (new_machine, []))
run_new-IsReported_example =
    run_new-IsReported
      (signals (pos 80) "probe" ∷ forces medium "drill" ∷ signals (negsuc 3) "quiet" ∷ [])
