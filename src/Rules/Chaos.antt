-- ===== src/Rules/Chaos.antt =====
-- RULE-05 over a stream of chaos windows.
use astartis_codex_control_p.Base.{
  ℕ, ◌+◌, ◌≡◌, refl, ap, ◌∙◌, Bool, ◌&&◌, List, [], ◌∷◌, arith, leb, if◌then◌else◌,
}
use astartis_codex_control_p.Callbacks.{AuditAdder, WormPort}
use astartis_codex_control_p.Rules.{
  Floats, RuleEngine, Scene, ChaosWindow, evaluate_chaos_window, new_engine,
}

module _ {W : Type 0} (F : Floats) (audit_adder : AuditAdder W)
    (port : WormPort W audit_adder) where
  -- The windows arrive in the order of the list.
  unfoldable pub feed : List (ChaosWindow F.Double) → Scene W → Scene W
  feed [] s = s
  feed (w ∷ ws) s = feed ws (evaluate_chaos_window F audit_adder port w s).1

  abbrev pub is_high : ChaosWindow F.Double → Bool
  is_high w = F.lt F.seven_tenths w.K

  -- The length of the run of high windows at the end, if `n` high windows came just before.
  unfoldable pub trailing : ℕ → List (ChaosWindow F.Double) → ℕ
  trailing n [] = n
  trailing n (w ∷ ws) = trailing (if is_high w then n + 1 else 0) ws

  count-evaluate :
      (w : ChaosWindow F.Double) (s : Scene W)
      → (evaluate_chaos_window F audit_adder port w s).1.engine.chaos_high_count
        ≡ (if is_high w then s.engine.chaos_high_count + 1 else 0)
  unfolding evaluate_chaos_window
  count-evaluate w s = ground arith

  count-feed :
      (ws : List (ChaosWindow F.Double)) (s : Scene W)
      → (feed ws s).engine.chaos_high_count ≡ trailing s.engine.chaos_high_count ws
  unfolding feed trailing
  count-feed [] s = refl
  count-feed (w ∷ ws) s =
      count-feed ws (evaluate_chaos_window F audit_adder port w s).1
      ∙ ap (λ n. trailing n ws) (count-evaluate w s)

  fired-evaluate :
      (w : ChaosWindow F.Double) (s : Scene W)
      → (evaluate_chaos_window F audit_adder port w s).0.fired
        ≡ is_high w && leb 2 (s.engine.chaos_high_count + 1)
  unfolding evaluate_chaos_window
  fired-evaluate w s = ground arith

  -- After any stream of chaos windows on a new engine, RULE-05 fires on the next window exactly if that window is
  -- above 0.7 and the run of windows above 0.7 just before it is not empty.
  pub fired-feed :
      (ws : List (ChaosWindow F.Double)) (w : ChaosWindow F.Double) (s : Scene W)
      → s.engine ≡ new_engine
      → (evaluate_chaos_window F audit_adder port w (feed ws s)).0.fired
        ≡ is_high w && leb 1 (trailing 0 ws)
  fired-feed ws w s start =
      fired-evaluate w (feed ws s)
      ∙ ap (λ (n : ℕ). is_high w && leb 2 (n + 1))
          (count-feed ws s ∙ ap (λ (e : RuleEngine). trailing e.chaos_high_count ws) start)
      ∙ ap (λ (b : Bool). is_high w && b) (ground arith)
