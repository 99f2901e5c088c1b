-- ===== src/Segmentation/Isolation.antt =====
-- Routes between the VLANs of the three networks.
use astartis_codex_control_p.Base.{String, ◌≡◌, ◌≢◌, true, arith, eq_iff}
use astartis_codex_control_p.Segmentation.{
  make_public_ssid, make_enterprise_ssid, make_management_ssid, vlan_routing_allowed,
}

-- A route that is allowed from the VLAN of the public network leads neither to that of the enterprise
-- network nor to that of the management network.
pub vlan_routing_allowed-public :
    (from_vlan to_vlan : String)
    → vlan_routing_allowed from_vlan to_vlan ≡ true
    → from_vlan ≡ make_public_ssid.vlan_id
    → (to_vlan ≢ make_enterprise_ssid.vlan_id) × (to_vlan ≢ make_management_ssid.vlan_id)
unfolding vlan_routing_allowed
vlan_routing_allowed-public from_vlan to_vlan h e =
    ground (
      arith,
      h,
      e,
      eq_iff from_vlan "VLAN_100",
      eq_iff to_vlan "VLAN_200",
      eq_iff to_vlan "VLAN_999",
    )
