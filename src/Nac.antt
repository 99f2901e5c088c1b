-- ===== src/Nac.antt =====
-- astartis/network_arch/zerotrust/nac_workflow: the eight steps of network access control. The
-- chrono durations are numbers of seconds and of milliseconds; std::tolower over a MAC address is
-- the argument `lower` of is_known_device. What build_decision leaves as it is declared is written
-- out: no resources, a reauth_interval of 3600 seconds.
pub mod Decision
pub mod Access
use astartis_codex_control_p.Base.{
  String, Bool, true, false, ◌&&◌, not, List, [], ◌∷◌, if◌then◌else◌, concat, nat_text, length,
}
use astartis_codex_control_p.Nac.Decision.{
  DevicePosture, IdentityCredentials, AccessRequest, NacResult, NacDecision, Step, StepResult,
  is_compliant, authenticate_8021x, verify_identity, determine_role, build_decision, allow_full,
  allow_limited, mfa_required, quarantine, deny, connect, auth_8021x, verify_identity_step,
  posture_check, apply_policy, rbac_assign, continuous_monitor, remediate,
}

abbrev pub role_of : Bool → IdentityCredentials → String
role_of identity_ok creds =
    if identity_ok then determine_role creds.username creds.domain else "guest"

unfoldable pub process : AccessRequest → NacDecision
unfolding build_decision
process req =
    let identity_ok =
      authenticate_8021x req.ssid_name req.identity && verify_identity req.identity in
    let posture_ok = is_compliant req.posture in
    build_decision identity_ok posture_ok (role_of identity_ok req.identity) req.ssid_name

abbrev pub make_step : Step → Bool → String → StepResult
make_step s ok detail = record { step = s; passed = ok; detail = detail; duration_ms = 1 }

unfoldable pub posture_detail : DevicePosture → String
posture_detail posture =
    if is_compliant posture
    then "Device posture compliant (OS updated, AV running, disk encrypted, firewall on)"
    else concat (
        "Posture NON-COMPLIANT:"
        ∷ (if posture.os_updated then "" else " [OS not updated]")
        ∷ (if posture.antivirus_running then "" else " [AV not running]")
        ∷ (if posture.disk_encrypted then "" else " [disk not encrypted]")
        ∷ (if posture.firewall_enabled then "" else " [firewall disabled]")
        ∷ [])

-- policy_ok and needs_remediation of process_verbose
unfoldable pub policy_ok : NacResult → Bool
policy_ok allow_full = true
policy_ok allow_limited = true
policy_ok mfa_required = false
policy_ok quarantine = false
policy_ok deny = false

unfoldable pub needs_remediation : NacResult → Bool
needs_remediation allow_full = false
needs_remediation allow_limited = false
needs_remediation mfa_required = false
needs_remediation quarantine = true
needs_remediation deny = true

unfoldable pub process_verbose : AccessRequest → List StepResult
process_verbose req =
    let user = req.identity.username in
    let auth_ok = authenticate_8021x req.ssid_name req.identity in
    let id_ok = auth_ok && verify_identity req.identity in
    let posture_ok = is_compliant req.posture in
    let role = role_of id_ok req.identity in
    let decision = build_decision id_ok posture_ok role req.ssid_name in
    let allowed = policy_ok decision.result in
    let blocked = needs_remediation decision.result in
    make_step connect true (
      concat (
        "Device " ∷ req.device_name ∷ " (" ∷ req.device_mac ∷ ") connected to " ∷ req.ssid_name
        ∷ []))
    ∷ make_step auth_8021x auth_ok (
        if auth_ok
        then concat ("802.1X EAP accepted for " ∷ user ∷ "@" ∷ req.identity.domain ∷ [])
        else "802.1X EAP rejected — missing credentials")
    ∷ make_step verify_identity_step id_ok (
        if id_ok
        then concat ("AD/LDAP: user '" ∷ user ∷ "' found in directory" ∷ [])
        else concat ("AD/LDAP: user '" ∷ user ∷ "' not found" ∷ []))
    ∷ make_step posture_check posture_ok (posture_detail req.posture)
    ∷ make_step apply_policy allowed
        (concat ("Policy: VLAN=" ∷ decision.assigned_vlan ∷ " role=" ∷ decision.assigned_role ∷ []))
    ∷ make_step rbac_assign (allowed && id_ok) (
        concat (
          "RBAC: role="
          ∷ role
          ∷ " resources="
          ∷ nat_text (length decision.accessible_resources)
          ∷ []))
    ∷ make_step continuous_monitor true (
        concat (
          "Continuous monitoring enabled — reauth in "
          ∷ nat_text decision.reauth_interval
          ∷ "s"
          ∷ []))
    ∷ make_step remediate (not blocked) (
        if blocked
        then concat ("Remediation required: " ∷ decision.remediation_reason ∷ [])
        else "No remediation needed")
    ∷ []
