-- ===== src/Tests/Network.antt =====
-- Network access, verdicts and policy.
use astartis_codex_control_p.Nac.Decision.{
  determine_role, resources_for_role, verify_identity, authenticate_8021x, DevicePosture,
  AccessRequest, user_roles, is_compliant, allow_full,
}
use astartis_codex_control_p.Nac.{process}
use astartis_codex_control_p.Base.{
  String, ◌≡◌, refl, ◌≢◌, ◌↔◌, ◌⊎◌, true, false, [], starts_with, is_some, has_text, lookup, pos,
}
use astartis_codex_control_p.Callbacks.{logging}
use astartis_codex_control_p.Nac.Access.{process-full}
use astartis_codex_control_p.ZeroTrust.{
  AccessContext, allow, known_users, zone_map, zone_of, is_anomalous_behavior, evaluate,
}
use astartis_codex_control_p.ZeroTrust.Verdicts.{evaluate-allow}

abbrev healthy : DevicePosture
healthy = record {
  os_updated = true;
  antivirus_running = true;
  disk_encrypted = true;
  firewall_enabled = true;
  screen_lock_enabled = false;
  os_version = "11";
  last_update_date = "2026-01-01";
  critical_patches_missing = pos 0;
}

abbrev request_of : String → AccessRequest
request_of user = record {
  device_mac = "11:22:33:44:55:66";
  device_name = "Laptop-IT-001";
  ssid_name = "eGov";
  identity = record {
    username = user;
    domain = "egov.gov.bw";
    certificate_based = true;
    cert_thumbprint = "";
  };
  posture = healthy;
}

process-full_example :
    (((process (request_of "user1")).result ≡ allow_full) ↔ (
      ((request_of "user1").ssid_name ≢ "SmartBots")
      × ((request_of "user1").identity.username ≢ "")
      × ((request_of "user1").identity.domain ≢ "")
      × (is_some (lookup "user1" user_roles) ≡ true)
      × (true ≡ true)
      × (true ≡ true)
      × (true ≡ true)
      × (true ≡ true)))
    × (process (record (request_of "user1") { device_mac = "de:ad:be:ef:00:01"; device_name = "x" })
        ≡ process (request_of "user1"))
process-full_example = process-full (request_of "user1") "de:ad:be:ef:00:01" "x"

admin_has_portal :
    has_text "admin-portal" (process (request_of "admin")).accessible_resources ≡ true
unfolding process has_text authenticate_8021x verify_identity lookup is_compliant resources_for_role
    determine_role
admin_has_portal = refl

abbrev visit : AccessContext
visit = record {
  user_id = "user1";
  device_id = "Laptop-IT-001";
  source_ip = "10.0.200.17";
  destination_ip = "10.0.200.2";
  requested_resource = "intranet";
  ssid_name = "eGov";
  trust_score = pos 0;
}

evaluate-allow_example : ((evaluate logging visit []).0 ≡ allow) ↔ (
    (is_anomalous_behavior "user1" "intranet" ≡ false)
    × (has_text "user1" known_users ≡ true)
    × ((visit.ssid_name ≡ "eGov")
        ⊎ (visit.ssid_name ≡ "Astartis-Admin")
        ⊎ (starts_with "10.0.200.17" "10.0.200." ≡ true))
    × (zone_of "10.0.200.2" zone_map ≡ "enterprise")
    × (zone_of "10.0.200.17" zone_map ≢ "public")
    × (zone_of "10.0.200.17" zone_map ≢ "quarantine"))
evaluate-allow_example = evaluate-allow logging visit []
