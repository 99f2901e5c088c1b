-- ===== src/System/Evidence.antt =====
-- The wired engine: what the rule evaluations leave in the lock and in the audit chain.
use astartis_codex_control_p.Base.{String, ◌≡◌, refl, ap, inl, inr, true, List, Bool-cases}
use astartis_codex_control_p.Audit.{Host, verify_chain}
use astartis_codex_control_p.Audit.Linked.{add_entry-valid}
use astartis_codex_control_p.Worm.{trigger_lockdown, is_locked}
use astartis_codex_control_p.Rules.{Floats, Scene, new_engine}
use astartis_codex_control_p.Rules.Worm.{Evaluation, run, run-IsSafe}
use astartis_codex_control_p.Rules.Frame.{run-keeps}
use astartis_codex_control_p.Threat.{critical, is_critical, new_machine}
use astartis_codex_control_p.System.{World, new_world, audit_adder, worm_trigger, worm_port}

module _ (host : Host) where
  abbrev pub HasEvidence : World → Type 0
  HasEvidence w = (verify_chain host w.audit).is_valid ≡ true

  worm_trigger-HasEvidence :
      (reason : String) (w : World) → HasEvidence w → HasEvidence (worm_trigger host reason w)
  unfolding worm_trigger trigger_lockdown
  worm_trigger-HasEvidence reason w h = elim (Bool-cases (is_locked w.worm)) [
    | inl closed ↦ rw closed h
    | inr open_lock ↦ rw open_lock (add_entry-valid host _ _ w.audit h)
  ]

  start-HasEvidence : HasEvidence new_world
  unfolding verify_chain
  start-HasEvidence = refl

  module _ (F : Floats) where
    abbrev pub start : Scene World
    start = record { engine = new_engine; tsm = new_machine; world = new_world }

    -- The wired engine after some evaluations.
    abbrev pub after : List (Evaluation F (audit_adder host) (worm_port host)) → Scene World
    after es = run F (audit_adder host) (worm_port host) es start

    -- From the start of the program, any sequence of rule evaluations leaves a shared audit chain
    -- that verifies.
    pub after-verifies :
        (es : List (Evaluation F (audit_adder host) (worm_port host)))
        → (verify_chain host (after es).world.audit).is_valid ≡ true
    after-verifies es =
        run-keeps (audit_adder host) (worm_port host) HasEvidence
          (λ t p w. add_entry-valid host t p w.audit) worm_trigger-HasEvidence F es start
          start-HasEvidence

    -- From the start of the program, if any sequence of rule evaluations leaves the tier at CRITICAL,
    -- then it leaves the WORM lock engaged.
    pub after-locked :
        (es : List (Evaluation F (audit_adder host) (worm_port host)))
        → (after es).tsm.current_tier ≡ critical
        → is_locked (after es).world.worm ≡ true
    after-locked es c =
        run-IsSafe F (audit_adder host) (worm_port host) es start (λ h. cc) (ap is_critical c)
