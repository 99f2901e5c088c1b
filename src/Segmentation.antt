-- ===== src/Segmentation.antt =====
-- astartis/network_arch/segmentation/ssid_config.h: the three wireless networks and the routes
-- between their VLANs.
pub mod Isolation
use astartis_codex_control_p.Base.{ℕ, String, Bool, true, false, ◌&&◌, ◌==◌, if◌then◌else◌}

pub data SecurityPosture : Type 0 where
  filtered_internet zero_trust management : SecurityPosture

pub record SsidConfig : Type 0 where
  pub ssid_name : String
  pub vlan_id : String
  pub ip_subnet : String
  pub gateway : String
  pub posture : SecurityPosture
  pub client_isolation : Bool
  pub requires_8021x : Bool
  pub captive_portal_url : String
  pub bandwidth_limit_mbps : ℕ
  pub session_timeout_minutes : ℕ

abbrev pub make_public_ssid : SsidConfig
make_public_ssid = record {
  ssid_name = "SmartBots";
  vlan_id = "VLAN_100";
  ip_subnet = "192.168.100.0/24";
  gateway = "192.168.100.1";
  posture = filtered_internet;
  client_isolation = true;
  requires_8021x = false;
  captive_portal_url = "http://captive.astartis.local";
  bandwidth_limit_mbps = 10;
  session_timeout_minutes = 60;
}

abbrev pub make_enterprise_ssid : SsidConfig
make_enterprise_ssid = record {
  ssid_name = "eGov";
  vlan_id = "VLAN_200";
  ip_subnet = "10.0.200.0/24";
  gateway = "10.0.200.1";
  posture = zero_trust;
  client_isolation = false;
  requires_8021x = true;
  captive_portal_url = "";
  bandwidth_limit_mbps = 0;
  session_timeout_minutes = 0;
}

abbrev pub make_management_ssid : SsidConfig
make_management_ssid = record {
  ssid_name = "Astartis-Admin";
  vlan_id = "VLAN_999";
  ip_subnet = "10.0.99.0/24";
  gateway = "10.0.99.1";
  posture = management;
  client_isolation = true;
  requires_8021x = true;
  captive_portal_url = "";
  bandwidth_limit_mbps = 100;
  session_timeout_minutes = 30;
}

unfoldable pub vlan_routing_allowed : String → String → Bool
vlan_routing_allowed from_vlan to_vlan =
    if from_vlan == "VLAN_100" && to_vlan == "VLAN_200"
    then false
    else if from_vlan == "VLAN_100" && to_vlan == "VLAN_999"
    then false
    else if from_vlan == "VLAN_200" && to_vlan == "VLAN_999"
    then false
    else true
