-- ===== src/Response.antt =====
-- astartis/core/active_response: synthetic answers to the sessions of an attacker, degraded as a
-- session goes on, with a forensic log. The reading of the clock is an argument of serve; the number
-- of interactions, an int, is not reduced.
pub mod Sessions
use astartis_codex_control_p.Base.{
  ℕ, zero, suc, ◌+◌, String, Bool, Option, none, some, List, [], ◌∷◌, ◌++◌, ◌==◌, ltb,
  if◌then◌else◌, is_some, concat, is_empty, bool_text, nat_text, Dict, lookup, insert,
}
use astartis_codex_control_p.Callbacks.{AuditAdder}

pub data IocType : Type 0 where
  ioc_ip ioc_domain ioc_hash : IocType

unfoldable pub ioc_type_name : IocType → String
ioc_type_name ioc_ip = "IOC_IP"
ioc_type_name ioc_domain = "IOC_DOMAIN"
ioc_type_name ioc_hash = "IOC_HASH"

pub record IocEntry : Type 0 where
  pub type : IocType
  pub indicator : String
  pub description : String
  pub source : String

pub record ResponseEvent : Type 0 where
  pub timestamp_ms : ℕ
  pub session_id : String
  pub resource : String
  pub response_tier : ℕ
  pub response_body : String
  pub ioc_match : Bool
  pub ioc_indicator : String

pub record ActiveResponse : Type 0 where
  pub session_counts : Dict ℕ
  pub forensic_log : List ResponseEvent
  pub ioc_list : List IocEntry

abbrev ioc : IocType → String → String → String → IocEntry
ioc type indicator description source = record {
  type = type;
  indicator = indicator;
  description = description;
  source = source;
}

-- kSampleIocs
abbrev pub sample_iocs : List IocEntry
sample_iocs =
    ioc ioc_ip "185.220.101.45" "Tor exit node used in credential stuffing (example)"
      "CISA AA22-040A"
    ∷ ioc ioc_ip "45.142.212.100" "C2 Cobalt Strike beacon (example)" "AlienVault OTX example"
    ∷ ioc ioc_ip "194.165.16.11" "Ransomware staging LockBit 3.0 (example)" "FBI Flash example"
    ∷ ioc ioc_ip "10.0.0.55" "Internal pivot source observed in auth.log" "Internal detection"
    ∷ ioc ioc_domain "update-service.corp-helpdesk.com"
        "Phishing domain impersonating IT helpdesk (example)" "PhishTank example"
    ∷ ioc ioc_domain "cdn-delivery.staticfiles.net" "Malware payload staging domain (example)"
        "URLHaus example"
    ∷ ioc ioc_domain "exfil.darkcomet-c2.xyz" "C2 domain for DarkComet RAT (example)"
        "OpenPhish example"
    ∷ ioc ioc_hash "aabbccddeeff00112233445566778899aabbccddeeff00112233445566778899"
        "Mimikatz variant credential dumping tool (example)" "Sigma rule example"
    ∷ []

-- The constructor.
abbrev pub new_response : ActiveResponse
new_response = record { session_counts = []; forensic_log = []; ioc_list = sample_iocs }

unfoldable pub response_tier_of : ℕ → ℕ
response_tier_of count =
    if ltb count 3 then 0 else if ltb count 6 then 1 else if ltb count 10 then 2 else 3

-- The part of the body that the switch over the tier writes.
response_body_of : ℕ → String → String
response_body_of zero resource = concat (
    "HTTP/1.1 200 OK\n\n{\"status\":\"ok\",\"resource\":\"" ∷ resource
    ∷ "\",\"data\":\"[synthetic payload]\"}" ∷ [])
response_body_of (suc zero) resource =
    concat (
      "HTTP/1.1 200 OK\n\n{\"status\":\"ok\",\"resource\":\"" ∷ resource ∷ "\",\"data\":null}" ∷ [])
response_body_of (suc (suc zero)) resource =
    concat ("HTTP/1.1 206 Partial\n\n" ∷ resource ∷ ": [PARTIAL] data truncated" ∷ [])
response_body_of (suc (suc (suc n))) resource =
    concat ("HTTP/1.1 200 OK\n\n{\"redirect\":\"" ∷ resource ∷ "\",\"retry_after\":0}" ∷ [])

unfoldable pub build_response : ℕ → String → ℕ → String
unfolding response_body_of
build_response tier resource n = concat (
    "SYNTHETIC [tier="
    ∷ nat_text tier
    ∷ " n="
    ∷ nat_text n
    ∷ "]\n"
    ∷ response_body_of tier resource
    ∷ [])

-- The first entry of the list with this indicator.
unfoldable pub find_ioc : String → List IocEntry → Option IocEntry
find_ioc indicator [] = none
find_ioc indicator (e ∷ es) = if e.indicator == indicator then some e else find_ioc indicator es

-- The correlation of serve: a hint that is empty is not looked up.
unfoldable pub hinted : String → List IocEntry → Option IocEntry
unfolding find_ioc
hinted ioc_hint es = if is_empty ioc_hint then none else find_ioc ioc_hint es

unfoldable pub session_interaction_count : String → ActiveResponse → ℕ
session_interaction_count sid r = elim (lookup sid r.session_counts) [ none ↦ 0 | some n ↦ n ]

abbrev pub described : String → IocEntry → List String
described indicator e =
    "indicator=\""
    ∷ indicator
    ∷ "\""
    ∷ " type="
    ∷ ioc_type_name e.type
    ∷ " description=\""
    ∷ e.description
    ∷ "\""
    ∷ " source=\""
    ∷ e.source
    ∷ "\""
    ∷ []

module _ {W : Type 0} (audit_adder : AuditAdder W) where
  -- The audit entry of a match.
  unfoldable pub correlated : Option IocEntry → String → List String → W → W
  correlated none indicator more w = w
  correlated (some e) indicator more w =
      (audit_adder "ioc_correlation_match" (concat (described indicator e ++ more)) w).1

  unfoldable pub serve :
      String → String → String → ℕ → ActiveResponse → W → ResponseEvent × ActiveResponse × W
  unfolding hinted correlated response_tier_of build_response session_interaction_count
  serve sid res ioc_hint now r w =
      let count = session_interaction_count sid r + 1 in
      let tier = response_tier_of count in
      let found = hinted ioc_hint r.ioc_list in
      let ev : ResponseEvent = record {
        timestamp_ms = now;
        session_id = sid;
        resource = res;
        response_tier = tier;
        response_body = build_response tier res count;
        ioc_match = is_some found;
        ioc_indicator = if is_some found then ioc_hint else "";
      } in
      (
        ev,
        record r {
          session_counts = insert sid count r.session_counts;
          forensic_log = r.forensic_log ++ ev ∷ [];
        },
        (audit_adder "active_response_served"
            (concat (
              "session="
              ∷ sid
              ∷ " resource="
              ∷ res
              ∷ " tier="
              ∷ nat_text tier
              ∷ " interaction="
              ∷ nat_text count
              ∷ " ioc_match="
              ∷ bool_text (is_some found)
              ∷ []))
            (correlated found ioc_hint (" session=" ∷ sid ∷ []) w)).1,
      )

  -- The match, if there is one, and the outside; the object is not changed.
  unfoldable pub check_ioc : String → ActiveResponse → W → Option IocEntry × W
  unfolding correlated find_ioc
  check_ioc indicator r w =
      let found = find_ioc indicator r.ioc_list in (found, correlated found indicator [] w)
