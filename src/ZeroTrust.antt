-- ===== src/ZeroTrust.antt =====
-- astartis/network_arch/zerotrust/zerotrust_engine: the verdict on one access. The constructor's
-- tables are constants, zone_map in the order in which a std::map holds its keys. rfind(p, 0) == 0
-- is starts_with.
pub mod Verdicts
use astartis_codex_control_p.Base.{
  ℕ, ◌+◌, String, Bool, false, ◌&&◌, ◌||◌, not, none, some, List, [], ◌∷◌, ◌==◌, starts_with, leb,
  if◌then◌else◌, concat, has_text, nat_text, int_text, ℤ, Dict, lookup,
}
use astartis_codex_control_p.Callbacks.{AuditAdder}

pub data TrustDecision : Type 0 where
  allow deny quarantine mfa_required limited : TrustDecision

pub record AccessContext : Type 0 where
  pub user_id : String
  pub device_id : String
  pub source_ip : String
  pub destination_ip : String
  pub requested_resource : String
  pub ssid_name : String
  pub trust_score : ℤ

abbrev pub anomalous_actions : List String
anomalous_actions =
    "login_off_hours" ∷ "mass_download" ∷ "admin_from_public_ssid" ∷ "privilege_escalation_attempt"
    ∷ []

abbrev pub zone_map : Dict String
zone_map =
    ("10.0.200.", "enterprise")
    ∷ ("10.0.300.", "quarantine")
    ∷ ("10.0.99.", "management")
    ∷ ("192.168.100.", "public")
    ∷ []

abbrev pub zone_policies : Dict (List String)
zone_policies =
    ("public", "guest" ∷ "contractor" ∷ [])
    ∷ ("enterprise", "it_admin" ∷ "staff" ∷ "contractor" ∷ [])
    ∷ ("management", "it_admin" ∷ [])
    ∷ ("quarantine", [])
    ∷ []

abbrev pub known_users : List String
known_users = "kgosi.blanda" ∷ "admin" ∷ "user1" ∷ "user2" ∷ "contractor1" ∷ []

unfoldable pub zone_of : String → Dict String → String
zone_of ip [] = "unknown"
zone_of ip ((prefix, zone) ∷ zones) = if starts_with ip prefix then zone else zone_of ip zones

unfoldable pub is_anomalous_behavior : String → String → Bool
is_anomalous_behavior user_id action = has_text action anomalous_actions

abbrev pub points : Bool → ℕ → ℕ
points b n = if b then n else 0

unfoldable pub calculate_trust_score : AccessContext → ℕ
calculate_trust_score ctx =
    let user_known = has_text ctx.user_id known_users in
    let known_ssid = ctx.ssid_name == "eGov" || ctx.ssid_name == "Astartis-Admin" in
    let score =
      points user_known 40
      + points (user_known && known_ssid) 20
      + points (user_known && starts_with ctx.source_ip "10.0.200.") 20
      + points (not (is_anomalous_behavior ctx.user_id ctx.requested_resource)) 20 in
    if leb score 100 then score else 100

-- The lookup of zone_policies_ behind the hard rules
unfoldable pub is_role_allowed : String → String → Bool
is_role_allowed to_zone role = elim (lookup to_zone zone_policies) [
  | none ↦ false
  | some roles ↦ has_text role roles
]

unfoldable pub is_cross_zone_allowed : String → String → String → Bool
is_cross_zone_allowed from_zone to_zone role =
    if from_zone == "public" && to_zone == "enterprise"
    then false
    else if from_zone == "public" && to_zone == "management"
    then false
    else if from_zone == "quarantine"
    then false
    else is_role_allowed to_zone role

unfoldable pub decision_str : TrustDecision → String
decision_str allow = "ALLOW"
decision_str deny = "DENY"
decision_str quarantine = "QUARANTINE"
decision_str mfa_required = "MFA_REQUIRED"
decision_str limited = "LIMITED"

-- The decision and the reason that evaluate logs.
unfoldable pub decide : AccessContext → TrustDecision × String
decide ctx =
    let score = calculate_trust_score ctx in
    let from_zone = zone_of ctx.source_ip zone_map in
    let to_zone = zone_of ctx.destination_ip zone_map in
    if is_anomalous_behavior ctx.user_id ctx.requested_resource
    then (mfa_required, "Anomalous behavior detected — MFA required")
    else if not (is_cross_zone_allowed from_zone to_zone "staff")
    then (deny, concat ("Cross-zone routing denied: " ∷ from_zone ∷ " → " ∷ to_zone ∷ []))
    else if leb 70 score
    then (allow, concat ("Trust score " ∷ nat_text score ∷ " >= 70 — full access" ∷ []))
    else if leb 40 score
    then (limited, concat ("Trust score " ∷ nat_text score ∷ " — limited access" ∷ []))
    else (quarantine, concat ("Trust score " ∷ nat_text score ∷ " < 40 — quarantine" ∷ []))

unfoldable pub decision_payload : AccessContext → TrustDecision → String → String
decision_payload ctx decision reason = concat (
    "user="
    ∷ ctx.user_id
    ∷ " device="
    ∷ ctx.device_id
    ∷ " src="
    ∷ ctx.source_ip
    ∷ " dst="
    ∷ ctx.destination_ip
    ∷ " resource="
    ∷ ctx.requested_resource
    ∷ " ssid="
    ∷ ctx.ssid_name
    ∷ " score="
    ∷ int_text ctx.trust_score
    ∷ " decision="
    ∷ decision_str decision
    ∷ " reason="
    ∷ reason
    ∷ [])

module _ {W : Type 0} (audit_adder : AuditAdder W) where
  unfoldable pub log_decision : AccessContext → TrustDecision → String → W → W
  log_decision ctx decision reason w =
      (audit_adder "zerotrust_decision" (decision_payload ctx decision reason) w).1

  unfoldable pub evaluate : AccessContext → W → TrustDecision × W
  unfolding decide log_decision
  evaluate ctx w = let verdict = decide ctx in (verdict.0, log_decision ctx verdict.0 verdict.1 w)
