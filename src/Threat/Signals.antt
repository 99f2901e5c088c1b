-- ===== src/Threat/Signals.antt =====
-- What the machine tells the outside, and what its counter counts.
use astartis_codex_control_p.Base.{
  ℕ, ◌+◌, ◌%◌, String, ◌≡◌, refl, ◌∙◌, ◌≢◌, ◌⊎◌, inl, inr, true, false, ◌&&◌, List, [], ◌∷◌, arith,
  ◌==◌, ltb, Bool-cases, u64_mod, inc64, ℤ,
}
use astartis_codex_control_p.Callbacks.{AuditAdder, Log, logging, entries_of}
use astartis_codex_control_p.Threat.{
  new_machine, clamp_score, tier_lower_threshold, ThreatTier, low, medium, high, critical,
  is_critical, rank, tier_eq, ThreatStateMachine, SignalResult, observe_clamped, observe_signal,
  do_transition, hold, announce, force_tier, target_tier,
}

-- The two ways a call can end: nothing happened, or a transition was made and announced once.
abbrev pub Outcome :
    {W : Type 0}
    → AuditAdder W
    → (String → W → W)
    → ThreatStateMachine
    → W
    → SignalResult × ThreatStateMachine × W
    → Type 0
Outcome audit_adder worm_trigger m w r =
    ((r.0.tier_changed ≡ false) × (r.0.worm_triggered ≡ false) × (r.1 ≡ m) × (r.2 ≡ w))
    ⊎ ((reason : String) × (r.0.tier_changed ≡ true)
        × (r.0.previous_tier ≡ m.current_tier)
        × (r.0.current_tier ≡ r.1.current_tier)
        × (rank r.1.current_tier ≢ rank m.current_tier)
        × (r.0.worm_triggered ≡ is_critical r.1.current_tier)
        × (r.1.transition_count ≡ inc64 m.transition_count)
        × (r.2 ≡ announce audit_adder worm_trigger m.current_tier r.1.current_tier reason w))

module _ {W : Type 0} (audit_adder : AuditAdder W) (worm_trigger : String → W → W) where
  transition_Outcome :
      (t : ThreatTier) (reason : String) (m : ThreatStateMachine) (w : W)
      → rank t ≢ rank m.current_tier
      → Outcome audit_adder worm_trigger m w (do_transition audit_adder worm_trigger t reason m w)
  unfolding do_transition
  transition_Outcome t reason m w d = inr (reason, refl, refl, refl, d, refl, refl, refl)

  observe_clamped-Outcome :
      (score : ℕ) (source : String) (m : ThreatStateMachine) (w : W)
      → Outcome audit_adder worm_trigger m w
          (observe_clamped audit_adder worm_trigger score source m w)
  unfolding observe_clamped hold
  observe_clamped-Outcome score source m w =
      elim (Bool-cases (ltb (rank m.current_tier) (rank (target_tier score)))) [
        | inl up ↦ rw up (transition_Outcome (target_tier score) _ m w (ground arith))
        | inr stay ↦
            elim (Bool-cases (
              ltb (rank (target_tier score)) (rank m.current_tier)
              && ltb (score + 10) (tier_lower_threshold m.current_tier))) [
                | inl down ↦
                    rw (stay, down) (transition_Outcome (target_tier score) _ m w (ground arith))
                | inr same ↦ rw (stay, same) (inl (refl, refl, refl, refl))
              ]
      ]

  -- A signal either changes neither the machine nor the outside, or makes one transition between
  -- two different tiers, counts it once, announces it once and reports a WORM trigger exactly when
  -- the new tier is CRITICAL.
  pub observe_signal-Outcome :
      (score : ℤ) (source : String) (m : ThreatStateMachine) (w : W)
      → Outcome audit_adder worm_trigger m w
          (observe_signal audit_adder worm_trigger score source m w)
  unfolding observe_signal
  observe_signal-Outcome score source m w = observe_clamped-Outcome (clamp_score score) source m w

-- A WORM trigger that is only written down.
abbrev pub logging_trigger : String → Log → Log
logging_trigger reason log = ("worm_trigger", reason) ∷ log

abbrev pub latest : Log → String
latest [] = ""
latest (e ∷ es) = e.0

pub data Call : Type 0 where
  signals : ℤ → String → Call
  forces : ThreatTier → String → Call

unfoldable pub step : Call → ThreatStateMachine × Log → ThreatStateMachine × Log
step (signals score source) (m, log) =
    let r = observe_signal logging logging_trigger score source m log in (r.1, r.2)
step (forces tier reason) (m, log) =
    let r = force_tier logging logging_trigger tier reason m log in (r.1, r.2)

unfoldable pub run : List Call → ThreatStateMachine × Log → ThreatStateMachine × Log
run [] s = s
run (c ∷ cs) s = run cs (step c s)

pub record IsReported (s : ThreatStateMachine × Log) : Type 0 where
  pub counted : s.0.transition_count ≡ entries_of "threat_tier_transition" s.1 % u64_mod
  pub triggered : (latest s.1 == "worm_trigger") ≡ is_critical s.0.current_tier

announced :
    (t : ThreatTier) (reason : String) (m : ThreatStateMachine) (log : Log)
    → IsReported (m, log)
    → IsReported (
      record { current_tier = t; transition_count = inc64 m.transition_count },
      announce logging logging_trigger m.current_tier t reason log,
    )
unfolding announce inc64
announced low reason m log r = ground (arith, r.counted)
announced medium reason m log r = ground (arith, r.counted)
announced high reason m log r = ground (arith, r.counted)
announced critical reason m log r = ground (arith, r.counted)

reported :
    (m : ThreatStateMachine) (log : Log) (r : SignalResult × ThreatStateMachine × Log)
    → Outcome logging logging_trigger m log r
    → IsReported (m, log)
    → IsReported (r.1, r.2)
reported m log (res, m', log') (inl (_, _, same, quiet)) h = rw (same, quiet) h
reported m log (res, m', log') (inr (reason, _, _, _, _, _, count, told)) h =
    let moved = announced m'.current_tier reason m log h in
    rw told (record { counted = count ∙ moved.counted; triggered = moved.triggered })

step-IsReported : (c : Call) (s : ThreatStateMachine × Log) → IsReported s → IsReported (step c s)
unfolding step force_tier
step-IsReported (signals score source) (m, log) r =
    reported m log (observe_signal logging logging_trigger score source m log)
      (observe_signal-Outcome logging logging_trigger score source m log) r
step-IsReported (forces tier reason) (m, log) r = elim (Bool-cases (tier_eq tier m.current_tier)) [
  | inl same ↦ rw same r
  | inr other ↦ rw other (announced tier _ m log r)
]

run-IsReported :
    (cs : List Call) (s : ThreatStateMachine × Log) → IsReported s → IsReported (run cs s)
unfolding run
run-IsReported [] s r = r
run-IsReported (c ∷ cs) s r = run-IsReported cs (step c s) (step-IsReported c s r)

-- After any signals and forced tiers on a new machine, transition_count is the number of
-- threat_tier_transition entries in the audit log modulo 2^64, and the tier is CRITICAL exactly
-- when the last thing that the machine told the outside was a WORM trigger.
pub run_new-IsReported : (cs : List Call) → IsReported (run cs (new_machine, []))
run_new-IsReported cs =
    run-IsReported cs (new_machine, []) (record { counted = refl; triggered = refl })
