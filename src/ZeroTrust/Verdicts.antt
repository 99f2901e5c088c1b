-- ===== src/ZeroTrust/Verdicts.antt =====
-- When evaluate allows an access, and what it never allows.
use astartis_codex_control_p.Base.{
  String, ◌≡◌, refl, ◌≢◌, ◌↔◌, ◌⊎◌, true, false, arith, starts_with, eq_iff, has_text, lookup,
}
use astartis_codex_control_p.Callbacks.{AuditAdder}
use astartis_codex_control_p.ZeroTrust.{
  allow, limited, AccessContext, zone_map, known_users, zone_of, is_anomalous_behavior,
  calculate_trust_score, is_role_allowed, is_cross_zone_allowed, decide, evaluate,
}

is_role_allowed-staff :
    (to_zone : String) → (is_role_allowed to_zone "staff" ≡ true) ↔ (to_zone ≡ "enterprise")
unfolding is_role_allowed lookup has_text
is_role_allowed-staff to_zone =
    ((λ h. ground (arith, h, eq_iff "enterprise" to_zone)), λ e. rw e refl)

-- Staff may only enter the enterprise zone, and not from the public zone or from quarantine.
pub is_cross_zone_allowed-staff :
    (from_zone to_zone : String)
    → (is_cross_zone_allowed from_zone to_zone "staff" ≡ true)
      ↔ ((to_zone ≡ "enterprise") × (from_zone ≢ "public") × (from_zone ≢ "quarantine"))
unfolding is_cross_zone_allowed
is_cross_zone_allowed-staff from_zone to_zone = ground (
  arith,
  is_role_allowed-staff to_zone,
  eq_iff from_zone "public",
  eq_iff from_zone "quarantine",
  eq_iff to_zone "enterprise",
  eq_iff to_zone "management",
  eq_iff "management" "enterprise",
)

module _ {W : Type 0} (audit_adder : AuditAdder W) (ctx : AccessContext) (w : W) where
  -- An access is allowed in full exactly when the action is not an anomalous one, the user is a
  -- known one who comes by a known SSID or from the enterprise subnet, the destination lies in the
  -- enterprise zone and the source neither in the public zone nor in quarantine.
  pub evaluate-allow : ((evaluate audit_adder ctx w).0 ≡ allow) ↔ (
      (is_anomalous_behavior ctx.user_id ctx.requested_resource ≡ false)
      × (has_text ctx.user_id known_users ≡ true)
      × ((ctx.ssid_name ≡ "eGov")
          ⊎ (ctx.ssid_name ≡ "Astartis-Admin")
          ⊎ (starts_with ctx.source_ip "10.0.200." ≡ true))
      × (zone_of ctx.destination_ip zone_map ≡ "enterprise")
      × (zone_of ctx.source_ip zone_map ≢ "public")
      × (zone_of ctx.source_ip zone_map ≢ "quarantine"))
  unfolding evaluate decide calculate_trust_score
  evaluate-allow = ground (
    arith,
    is_cross_zone_allowed-staff (zone_of ctx.source_ip zone_map)
        (zone_of ctx.destination_ip zone_map),
    eq_iff ctx.ssid_name "eGov",
    eq_iff ctx.ssid_name "Astartis-Admin",
  )

  -- An access is limited exactly when the action is not an anomalous one, the user is a known one who
  -- comes neither by a known SSID nor from the enterprise subnet, the destination lies in the
  -- enterprise zone and the source neither in the public zone nor in quarantine.
  pub evaluate-limited : ((evaluate audit_adder ctx w).0 ≡ limited) ↔ (
      (is_anomalous_behavior ctx.user_id ctx.requested_resource ≡ false)
      × (has_text ctx.user_id known_users ≡ true)
      × (ctx.ssid_name ≢ "eGov")
      × (ctx.ssid_name ≢ "Astartis-Admin")
      × (starts_with ctx.source_ip "10.0.200." ≡ false)
      × (zone_of ctx.destination_ip zone_map ≡ "enterprise")
      × (zone_of ctx.source_ip zone_map ≢ "public")
      × (zone_of ctx.source_ip zone_map ≢ "quarantine"))
  unfolding evaluate decide calculate_trust_score
  evaluate-limited = ground (
    arith,
    is_cross_zone_allowed-staff (zone_of ctx.source_ip zone_map)
        (zone_of ctx.destination_ip zone_map),
    eq_iff ctx.ssid_name "eGov",
    eq_iff ctx.ssid_name "Astartis-Admin",
  )
