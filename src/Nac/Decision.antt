-- ===== src/Nac/Decision.antt =====
-- astartis/network_arch/zerotrust/nac_workflow: the data, the tables, the guards of the steps and
-- build_decision.
use astartis_codex_control_p.Base.{
  ℕ, String, Bool, true, ◌&&◌, not, none, some, List, [], ◌∷◌, ◌==◌, if◌then◌else◌, is_some,
  is_empty, has_text, ℤ, Dict, lookup,
}

pub record DevicePosture : Type 0 where
  pub os_updated : Bool
  pub antivirus_running : Bool
  pub disk_encrypted : Bool
  pub firewall_enabled : Bool
  pub screen_lock_enabled : Bool
  pub os_version : String
  pub last_update_date : String
  pub critical_patches_missing : ℤ

pub record IdentityCredentials : Type 0 where
  pub username : String
  pub domain : String
  pub certificate_based : Bool
  pub cert_thumbprint : String

pub record AccessRequest : Type 0 where
  pub device_mac : String
  pub device_name : String
  pub ssid_name : String
  pub identity : IdentityCredentials
  pub posture : DevicePosture

-- NACDecision::Result
pub data NacResult : Type 0 where
  allow_full : NacResult
  allow_limited : NacResult
  mfa_required : NacResult
  quarantine : NacResult
  deny : NacResult

pub record NacDecision : Type 0 where
  pub result : NacResult
  pub assigned_vlan : String
  pub assigned_role : String
  pub accessible_resources : List String
  pub remediation_reason : String
  pub reauth_interval : ℕ

-- NACWorkflow::Step
pub data Step : Type 0 where
  connect : Step
  auth_8021x : Step
  verify_identity_step : Step
  posture_check : Step
  apply_policy : Step
  rbac_assign : Step
  continuous_monitor : Step
  remediate : Step

pub record StepResult : Type 0 where
  pub step : Step
  pub passed : Bool
  pub detail : String
  pub duration_ms : ℕ

abbrev pub known_devices : List String
known_devices = "aa:bb:cc:dd:ee:ff" ∷ "11:22:33:44:55:66" ∷ "de:ad:be:ef:00:01" ∷ []

abbrev pub user_roles : Dict String
user_roles =
    ("kgosi.blanda", "it_admin")
    ∷ ("admin", "it_admin")
    ∷ ("user1", "staff")
    ∷ ("user2", "staff")
    ∷ ("contractor1", "contractor")
    ∷ ("guest", "guest")
    ∷ []

abbrev pub role_resources : Dict (List String)
role_resources =
    ("it_admin", "file-server" ∷ "admin-portal" ∷ "print-server" ∷ "dc01" ∷ "backup-repo" ∷ [])
    ∷ ("staff", "file-server" ∷ "print-server" ∷ "intranet" ∷ [])
    ∷ ("contractor", "intranet" ∷ [])
    ∷ ("guest", [])
    ∷ []

unfoldable pub is_compliant : DevicePosture → Bool
is_compliant posture =
    posture.os_updated && posture.antivirus_running && posture.disk_encrypted
    && posture.firewall_enabled

unfoldable pub is_known_device : (String → String) → String → Bool
is_known_device lower mac = has_text (lower mac) known_devices

unfoldable pub authenticate_8021x : String → IdentityCredentials → Bool
authenticate_8021x ssid_name creds =
    if ssid_name == "SmartBots"
    then true
    else not (is_empty creds.username) && not (is_empty creds.domain)

unfoldable pub verify_identity : IdentityCredentials → Bool
verify_identity creds = is_some (lookup creds.username user_roles)

unfoldable pub determine_role : String → String → String
determine_role username domain = elim (lookup username user_roles) [
  | none ↦ "guest"
  | some role ↦ role
]

unfoldable pub resources_for_role : String → List String
resources_for_role role = elim (lookup role role_resources) [ none ↦ [] | some rs ↦ rs ]

abbrev pub public_access : NacDecision
public_access = record {
  result = allow_limited;
  assigned_vlan = "VLAN_100";
  assigned_role = "guest";
  accessible_resources = [];
  remediation_reason = "";
  reauth_interval = 3600;
}

abbrev pub identity_failed : NacDecision
identity_failed = record {
  result = deny;
  assigned_vlan = "";
  assigned_role = "none";
  accessible_resources = [];
  remediation_reason = "Identity verification failed — unknown user or bad credentials";
  reauth_interval = 3600;
}

abbrev pub posture_failed : NacDecision
posture_failed = record {
  result = quarantine;
  assigned_vlan = "VLAN_300";
  assigned_role = "quarantine";
  accessible_resources = [];
  remediation_reason = "Device posture non-compliant — run OS updates and enable encryption";
  reauth_interval = 300;
}

abbrev pub full_access : String → NacDecision
full_access role = record {
  result = allow_full;
  assigned_vlan = "VLAN_200";
  assigned_role = role;
  accessible_resources = resources_for_role role;
  remediation_reason = "";
  reauth_interval = 3600;
}

unfoldable pub build_decision : Bool → Bool → String → String → NacDecision
build_decision identity_ok posture_ok role ssid_name =
    if ssid_name == "SmartBots"
    then public_access
    else if not identity_ok
    then identity_failed
    else if not posture_ok
    then posture_failed
    else full_access role

-- The local `role` of process and process_verbose
