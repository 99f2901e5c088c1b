-- ===== src/Rules/Tiers.antt =====
-- The tier that a rule forces: force_tier sets the tier whatever it was.
use astartis_codex_control_p.Base.{
  ℕ, ◌+◌, ◌≤◌, ◌<◌, String, ◌≡◌, refl, true, false, arith, le→leb, lt→leb_false, pos_part, neg_part,
  ltb_ℤ, ℤ, pos,
}
use astartis_codex_control_p.Callbacks.{AuditAdder, WormPort}
use astartis_codex_control_p.Threat.{medium, high}
use astartis_codex_control_p.Rules.{
  Floats, Scene, ChaosWindow, evaluate_auth_failures, evaluate_chaos_window, count_fire,
  set_chaos_count,
}
use astartis_codex_control_p.Rules.Worm.{tier-force}

module _ {W : Type 0} (audit_adder : AuditAdder W) (port : WormPort W audit_adder) where
  -- RULE-03 with five to nine failures in the window leaves the tier at HIGH whatever it was: it
  -- takes a CRITICAL tier down.
  pub evaluate_auth_failures-high :
      (n : ℕ) (source : String) (s : Scene W)
      → 5 ≤ n
      → n < 10
      → (evaluate_auth_failures audit_adder port (pos n) source s).1.tsm.current_tier ≡ high
  unfolding evaluate_auth_failures
  evaluate_auth_failures-high n source s h k =
      rw (lt→leb_false (10 + 0) (n + 0) (omega arith), le→leb (5 + 0) (n + 0) (omega arith))
        (tier-force audit_adder port high _ s)

  -- RULE-03 with fewer than five failures, a negative number included, does nothing.
  pub evaluate_auth_failures-quiet :
      (failures : ℤ) (source : String) (s : Scene W)
      → ltb_ℤ failures (pos 5) ≡ true
      → ((evaluate_auth_failures audit_adder port failures source s).0.fired ≡ false)
        × ((evaluate_auth_failures audit_adder port failures source s).1 ≡ s)
  unfolding evaluate_auth_failures
  evaluate_auth_failures-quiet failures source s h =
      rw
        (
          lt→leb_false (10 + neg_part failures) (pos_part failures + 0) (ground arith),
          lt→leb_false (5 + neg_part failures) (pos_part failures + 0) (ground arith),
        )
        (refl, refl)

module _ {W : Type 0} (F : Floats) (audit_adder : AuditAdder W)
    (port : WormPort W audit_adder) where
  -- RULE-05 fires on the second of two windows in a row above 0.7. It then leaves the tier at MEDIUM
  -- whatever it was: it takes a HIGH or CRITICAL tier down.
  pub evaluate_chaos_window-medium :
      (window : ChaosWindow F.Double) (s : Scene W)
      → F.lt F.seven_tenths window.K ≡ true
      → 1 ≤ s.engine.chaos_high_count
      → ((evaluate_chaos_window F audit_adder port window s).0.fired ≡ true)
        × ((evaluate_chaos_window F audit_adder port window s).1.tsm.current_tier ≡ medium)
  unfolding evaluate_chaos_window
  evaluate_chaos_window-medium window s above again =
      rw (above, le→leb 2 (s.engine.chaos_high_count + 1) (omega arith))
        (
          refl,
          tier-force audit_adder port medium _
              (count_fire (set_chaos_count (s.engine.chaos_high_count + 1) s)),
        )
