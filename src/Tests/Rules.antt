-- ===== src/Tests/Rules.antt =====
-- The rules.
use astartis_codex_control_p.System.{World}
use astartis_codex_control_p.Threat.{critical}
use astartis_codex_control_p.Base.{◌≤◌, ◌≡◌, refl, true, ◌&&◌, [], ◌∷◌, arith, leb}
use astartis_codex_control_p.Rules.{Scene, evaluate_chaos_window}
use astartis_codex_control_p.Rules.Chaos.{feed, trailing, fired-feed}
use astartis_codex_control_p.Tests.Fixtures.{tenths, adder, port, calm, at_tier, chaos_window}

abbrev second_window : Scene World
second_window = feed tenths adder port (chaos_window 9 ∷ []) (at_tier critical)

second_counts : 1 ≤ second_window.engine.chaos_high_count
unfolding feed evaluate_chaos_window
second_counts = omega arith

fired-feed_example :
    (evaluate_chaos_window tenths adder port
      (chaos_window 8)
      (feed tenths adder port (chaos_window 3 ∷ chaos_window 9 ∷ []) calm)).0.fired
    ≡ true && leb 1 (trailing tenths adder port 0 (chaos_window 3 ∷ chaos_window 9 ∷ []))
fired-feed_example =
    fired-feed tenths adder port (chaos_window 3 ∷ chaos_window 9 ∷ []) (chaos_window 8) calm refl
