-- ===== src/Threat.antt =====
-- astartis/core/threat_level: the four-tier threat state machine. The mutex makes each call one
-- step; `W` is the state behind its two callbacks.
pub mod Bands
pub mod Signals
use astartis_codex_control_p.Base.{
  ℕ, ◌+◌, String, Bool, true, false, ◌&&◌, [], ◌∷◌, ltb, leb, nat_eq, if◌then◌else◌, inc64, concat,
  nat_text, ℤ, pos, negsuc,
}
use astartis_codex_control_p.Callbacks.{AuditAdder}

pub data ThreatTier : Type 0 where
  low medium high critical : ThreatTier

-- static_cast<int>(t)
abbrev pub rank : ThreatTier → ℕ
rank low = 0
rank medium = 1
rank high = 2
rank critical = 3

abbrev pub is_critical : ThreatTier → Bool
is_critical critical = true
is_critical _ = false

-- t == u
abbrev pub tier_eq : ThreatTier → ThreatTier → Bool
tier_eq t u = nat_eq (rank t) (rank u)

unfoldable pub tier_name : ThreatTier → String
tier_name low = "LOW"
tier_name medium = "MEDIUM"
tier_name high = "HIGH"
tier_name critical = "CRITICAL"

unfoldable pub tier_lower_threshold : ThreatTier → ℕ
tier_lower_threshold low = 0
tier_lower_threshold medium = 25
tier_lower_threshold high = 50
tier_lower_threshold critical = 75

pub record TierResponse : Type 0 where
  pub tier : ThreatTier
  pub description : String

unfoldable pub make_response : ThreatTier → TierResponse
make_response low = record {
  tier = low;
  description = "silent logging, behavioral note added, mild rate limiting";
}
make_response medium = record {
  tier = medium;
  description = "aggressive rate limiting, CAPTCHA-equivalent challenge, enhanced forensic logging";
}
make_response high = record {
  tier = high;
  description = "immediate session termination, account lockdown, forensic investigation flag";
}
make_response critical = record {
  tier = critical;
  description = "full WORM lockdown triggered, all non-essential access suspended";
}

pub record SignalResult : Type 0 where
  pub tier_changed : Bool
  pub previous_tier : ThreatTier
  pub current_tier : ThreatTier
  pub response_description : String
  pub worm_triggered : Bool

pub record ThreatStateMachine : Type 0 where
  pub current_tier : ThreatTier
  pub transition_count : ℕ

abbrev pub new_machine : ThreatStateMachine
new_machine = record { current_tier = low; transition_count = 0 }

-- The clamp at the head of observe_signal.
unfoldable pub clamp_score : ℤ → ℕ
clamp_score (pos n) = if ltb 100 n then 100 else n
clamp_score (negsuc n) = 0

-- The target tier of observe_signal.
unfoldable pub target_tier : ℕ → ThreatTier
target_tier score =
    if leb 75 score
    then critical
    else if leb 50 score
    then high
    else if leb 25 score
    then medium
    else low

module _ {W : Type 0} (audit_adder : AuditAdder W) (worm_trigger : String → W → W) where
  transition_payload : ThreatTier → ThreatTier → String → String
  transition_payload prev new_tier reason = concat (
      "from="
      ∷ tier_name prev
      ∷ " to="
      ∷ tier_name new_tier
      ∷ " reason=\""
      ∷ reason
      ∷ "\""
      ∷ " response=\""
      ∷ (make_response new_tier).description
      ∷ "\""
      ∷ [])

  -- What a transition does outside: one audit entry, then the WORM trigger if it enters CRITICAL.
  unfoldable pub announce : ThreatTier → ThreatTier → String → W → W
  unfolding transition_payload
  announce prev new_tier reason w =
      let logged =
        (audit_adder "threat_tier_transition" (transition_payload prev new_tier reason) w).1 in
      if is_critical new_tier
      then worm_trigger (concat ("threat tier reached CRITICAL — " ∷ reason ∷ [])) logged
      else logged

  unfoldable pub do_transition :
      ThreatTier → String → ThreatStateMachine → W → SignalResult × ThreatStateMachine × W
  do_transition new_tier reason m w = (
    record {
      tier_changed = true;
      previous_tier = m.current_tier;
      current_tier = new_tier;
      response_description = (make_response new_tier).description;
      worm_triggered = is_critical new_tier;
    },
    record { current_tier = new_tier; transition_count = inc64 m.transition_count },
    announce m.current_tier new_tier reason w,
  )

  unfoldable pub hold : ThreatStateMachine → W → SignalResult × ThreatStateMachine × W
  hold m w = (
    record {
      tier_changed = false;
      previous_tier = m.current_tier;
      current_tier = m.current_tier;
      response_description = "";
      worm_triggered = false;
    },
    m,
    w,
  )

  -- The part of observe_signal behind the clamp.
  unfoldable pub observe_clamped :
      ℕ → String → ThreatStateMachine → W → SignalResult × ThreatStateMachine × W
  unfolding do_transition hold target_tier
  observe_clamped score source m w =
      let target = target_tier score in
      if ltb (rank m.current_tier) (rank target)
      then do_transition target
          (concat ("score=" ∷ nat_text score ∷ " source=\"" ∷ source ∷ "\"" ∷ [])) m w
      else if ltb (rank target) (rank m.current_tier)
          && ltb (score + 10) (tier_lower_threshold m.current_tier)
      then do_transition target
          (concat ("de-escalation: score=" ∷ nat_text score ∷ " source=\"" ∷ source ∷ "\"" ∷ [])) m
          w
      else hold m w

  unfoldable pub observe_signal :
      ℤ → String → ThreatStateMachine → W → SignalResult × ThreatStateMachine × W
  unfolding observe_clamped clamp_score
  observe_signal score source m w = observe_clamped (clamp_score score) source m w

  unfoldable pub force_tier :
      ThreatTier → String → ThreatStateMachine → W → Bool × ThreatStateMachine × W
  unfolding do_transition
  force_tier tier reason m w =
      if tier_eq tier m.current_tier
      then (false, m, w)
      else (let r = do_transition tier (concat ("forced: " ∷ reason ∷ [])) m w in (true, r.1, r.2))
