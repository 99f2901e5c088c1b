-- ===== src/Nac/Access.antt =====
-- What a device is given by NACWorkflow::process, and what process_verbose reports of it.
use astartis_codex_control_p.Base.{
  String, ◌≡◌, refl, ◌≢◌, ◌↔◌, ◌⊎◌, inl, inr, Bool, true, ◌&&◌, not, List, [], ◌∷◌, map, arith,
  ◌==◌, eq_iff, is_some, if_cases, has_text, lookup,
}
use astartis_codex_control_p.Nac.Decision.{
  AccessRequest, NacDecision, public_access, identity_failed, posture_failed, full_access,
  StepResult, user_roles, is_compliant, authenticate_8021x, verify_identity, determine_role,
  resources_for_role, build_decision, allow_full,
}
use astartis_codex_control_p.Nac.{role_of, process, policy_ok, needs_remediation, process_verbose}

-- The four outcomes of build_decision, the last with its conditions.
build_decision-cases :
    (P : NacDecision → Type 0) (identity_ok posture_ok : Bool) (role ssid_name : String)
    → P public_access
    → P identity_failed
    → P posture_failed
    → (identity_ok ≡ true → posture_ok ≡ true → P (full_access role))
    → P (build_decision identity_ok posture_ok role ssid_name)
unfolding build_decision
build_decision-cases P identity_ok posture_ok role ssid_name p i q f =
    if_cases P (ssid_name == "SmartBots") _ _ (λ _. p)
      λ _.
        if_cases P (not identity_ok) _ _ (λ _. i)
          λ known.
            if_cases P (not posture_ok) _ _ (λ _. q)
              λ healthy. f (ground (arith, known)) (ground (arith, healthy))

-- Full access is given exactly to a request on another SSID than SmartBots whose user name and
-- domain are not empty, whose user is in the directory and whose device has an updated OS, a
-- running antivirus, an encrypted disk and an enabled firewall. The device itself is not looked at:
-- with any other MAC address and name, known or unknown, the decision is the same.
pub process-full :
    (req : AccessRequest) (mac name : String)
    → (((process req).result ≡ allow_full) ↔ (
        (req.ssid_name ≢ "SmartBots")
        × (req.identity.username ≢ "")
        × (req.identity.domain ≢ "")
        × (is_some (lookup req.identity.username user_roles) ≡ true)
        × (req.posture.os_updated ≡ true)
        × (req.posture.antivirus_running ≡ true)
        × (req.posture.disk_encrypted ≡ true)
        × (req.posture.firewall_enabled ≡ true)))
      × (process (record req { device_mac = mac; device_name = name }) ≡ process req)
unfolding process build_decision authenticate_8021x verify_identity is_compliant
process-full req mac name = (
  ground (
    arith,
    eq_iff req.ssid_name "SmartBots",
    eq_iff req.identity.username "",
    eq_iff req.identity.domain "",
  ),
  refl,
)

-- A request that is not given full access gets no resource, and not the enterprise VLAN.
pub process-limited :
    (req : AccessRequest)
    → (process req).result ≢ allow_full
    → ((process req).accessible_resources ≡ []) × ((process req).assigned_vlan ≢ "VLAN_200")
unfolding process
process-limited req =
    build_decision-cases
      (λ (d : NacDecision).
        d.result ≢ allow_full → (d.accessible_resources ≡ []) × (d.assigned_vlan ≢ "VLAN_200"))
      (authenticate_8021x req.ssid_name req.identity && verify_identity req.identity) _ _
      req.ssid_name (λ _. (refl, λ e. (ground (arith, e, eq_iff "VLAN_100" "VLAN_200"))))
      (λ _. (refl, λ e. (ground (arith, e, eq_iff "" "VLAN_200"))))
      (λ _. (refl, λ e. (ground (arith, e, eq_iff "VLAN_300" "VLAN_200"))))
      λ _ _ full. elim (full refl) [ ]

abbrev IsPrivileged : String → Type 0
IsPrivileged resource =
    (resource ≡ "admin-portal") ⊎ (resource ≡ "dc01") ⊎ (resource ≡ "backup-repo")

-- Only the role it_admin has a privileged resource.
privileged-role :
    (role resource : String)
    → IsPrivileged resource
    → has_text resource (resources_for_role role) ≡ true
    → role ≡ "it_admin"
unfolding resources_for_role lookup has_text
privileged-role role resource which = elim which [
  | inl e ↦ rw e λ h. ground (arith, h, eq_iff "it_admin" role)
  | inr (inl e) ↦ rw e λ h. ground (arith, h, eq_iff "it_admin" role)
  | inr (inr e) ↦ rw e λ h. ground (arith, h, eq_iff "it_admin" role)
]

it_admin-users :
    (username domain : String)
    → determine_role username domain ≡ "it_admin"
    → (username ≡ "kgosi.blanda") ⊎ (username ≡ "admin")
unfolding determine_role lookup
it_admin-users username domain h = ground (
  arith,
  h,
  eq_iff "kgosi.blanda" username,
  eq_iff "admin" username,
  eq_iff "staff" "it_admin",
  eq_iff "contractor" "it_admin",
  eq_iff "guest" "it_admin",
)

-- The admin portal, the domain controller and the backup repository are only given to the users
-- kgosi.blanda and admin.
pub process-privileged :
    (req : AccessRequest) (resource : String)
    → (resource ≡ "admin-portal") ⊎ (resource ≡ "dc01") ⊎ (resource ≡ "backup-repo")
    → has_text resource (process req).accessible_resources ≡ true
    → (req.identity.username ≡ "kgosi.blanda") ⊎ (req.identity.username ≡ "admin")
unfolding process has_text
process-privileged req resource which =
    let id_ok = authenticate_8021x req.ssid_name req.identity && verify_identity req.identity in
    build_decision-cases
      (λ (d : NacDecision).
        has_text resource d.accessible_resources ≡ true
        → (req.identity.username ≡ "kgosi.blanda") ⊎ (req.identity.username ≡ "admin"))
      id_ok _ (role_of id_ok req.identity) req.ssid_name (λ e. ground (arith, e))
      (λ e. ground (arith, e)) (λ e. ground (arith, e))
      λ known _ e.
        it_admin-users req.identity.username req.identity.domain
          (privileged-role _ resource which (ground (arith, known, e)))

module _ (req : AccessRequest) where
  abbrev pub auth_ok : Bool
  auth_ok = authenticate_8021x req.ssid_name req.identity

  abbrev pub id_ok : Bool
  id_ok = auth_ok && verify_identity req.identity

  abbrev pub access_given : Bool
  access_given = policy_ok (process req).result

  abbrev pub rbac_ok : Bool
  rbac_ok = access_given && id_ok

  abbrev pub step_flags : List Bool
  step_flags = map (λ (s : StepResult). s.passed) (process_verbose req)

  -- process_verbose reports eight steps. The first and the seventh, CONNECT and CONTINUOUS_MONITOR,
  -- always pass, the second to the fourth on 802.1X, the identity and the posture. The fifth,
  -- APPLY_POLICY, and the eighth, REMEDIATE, pass exactly when process gives access, full or
  -- limited; the sixth, RBAC_ASSIGN, passes exactly when moreover VERIFY_IDENTITY does.
  pub process_verbose-process :
      step_flags
      ≡ true
        ∷ auth_ok
        ∷ id_ok
        ∷ is_compliant req.posture
        ∷ access_given
        ∷ rbac_ok
        ∷ true
        ∷ access_given
        ∷ []
  unfolding process process_verbose build_decision policy_ok needs_remediation
  process_verbose-process = ground arith
