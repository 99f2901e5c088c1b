-- ===== src/Threat/Bands.antt =====
-- How a score selects a tier, and how far the machine follows it.
use astartis_codex_control_p.Base.{ℕ, ◌+◌, ◌≤◌, ◌<◌, String, ◌≡◌, ◌↔◌, ◌⊎◌, arith, ℤ, pos, negsuc}
use astartis_codex_control_p.Callbacks.{AuditAdder}
use astartis_codex_control_p.Threat.{
  ThreatTier, low, medium, high, critical, rank, tier_lower_threshold, target_tier, clamp_score,
  ThreatStateMachine, observe_clamped, observe_signal, do_transition, hold,
}

-- The literals of observe_signal agree with tier_lower_threshold: the target of a score is the
-- highest tier whose lower threshold the score reaches.
pub target_tier-highest :
    (t : ThreatTier) (score : ℕ)
    → (tier_lower_threshold t ≤ score) ↔ (rank t ≤ rank (target_tier score))
unfolding tier_lower_threshold target_tier
target_tier-highest low score = (λ h. ground arith, λ h. ground arith)
target_tier-highest medium score = (λ h. ground arith, λ h. ground arith)
target_tier-highest high score = (λ h. ground arith, λ h. ground arith)
target_tier-highest critical score = (λ h. ground arith, λ h. ground arith)

pub clamp_score_le : (score : ℤ) → clamp_score score ≤ 100
unfolding clamp_score
clamp_score_le (pos n) = ground arith
clamp_score_le (negsuc n) = omega arith

module _ {W : Type 0} (audit_adder : AuditAdder W) (worm_trigger : String → W → W) (source : String)
    (m : ThreatStateMachine) (w : W) where
  -- The machine after a signal.
  abbrev pub after_signal : ℤ → ThreatStateMachine
  after_signal score = (observe_signal audit_adder worm_trigger score source m w).1

  -- After a signal the machine stands at the tier that it had or at the highest tier whose lower
  -- threshold the clamped score reaches, and never below the latter.
  pub observe_signal-tier :
      (score : ℤ)
      → (((after_signal score).current_tier ≡ m.current_tier)
          ⊎ ((after_signal score).current_tier ≡ target_tier (clamp_score score)))
        × (rank (target_tier (clamp_score score)) ≤ rank (after_signal score).current_tier)
  unfolding observe_signal observe_clamped do_transition hold
  observe_signal-tier score = (ground arith, ground arith)

  -- A signal lowers the tier exactly when the clamped score lies more than ten points below the
  -- lower threshold of the current tier.
  pub observe_signal-lowers :
      (score : ℤ)
      → (rank (after_signal score).current_tier < rank m.current_tier)
        ↔ (clamp_score score + 10 < tier_lower_threshold m.current_tier)
  unfolding observe_signal observe_clamped do_transition hold
  observe_signal-lowers score = (lowers, lowered)
    where
      below :
          (t : ThreatTier) (s : ℕ) → s + 10 < tier_lower_threshold t → rank (target_tier s) < rank t
      below t s h = grind (arith, target_tier-highest t s)

      lowers :
          rank (after_signal score).current_tier < rank m.current_tier
          → clamp_score score + 10 < tier_lower_threshold m.current_tier
      lowers h = ground arith

      lowered :
          clamp_score score + 10 < tier_lower_threshold m.current_tier
          → rank (after_signal score).current_tier < rank m.current_tier
      lowered h = ground (arith, below m.current_tier (clamp_score score) h)

  -- The header asks for a score a full band of 25 points below the threshold before the tier falls.
  -- The code lowers the tier for every score that lies between 11 and 24 points below it.
  pub observe_signal-lowers_within_band :
      (score : ℕ)
      → score + 10 < tier_lower_threshold m.current_tier
      → tier_lower_threshold m.current_tier < score + 25
      → rank (after_signal (pos score)).current_tier < rank m.current_tier
  unfolding clamp_score
  observe_signal-lowers_within_band score h k =
      (observe_signal-lowers (pos score)).1 (clamp_within score h)
    where
      clamp_within :
          (s : ℕ)
          → s + 10 < tier_lower_threshold m.current_tier
          → clamp_score (pos s) + 10 < tier_lower_threshold m.current_tier
      clamp_within s h = ground arith
