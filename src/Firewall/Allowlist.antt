-- ===== src/Firewall/Allowlist.antt =====
-- astartis/core/firewall: build_allowlist.
use astartis_codex_control_p.Base.{
  String, ◌||◌, List, [], ◌∷◌, ◌++◌, ◌==◌, if◌then◌else◌, is_empty, lt_text,
}

unfoldable pub named_addresses : List String → List String
named_addresses [] = []
named_addresses (ip ∷ ips) =
    let rest = named_addresses ips in if is_empty ip || ip == "0.0.0.0" then rest else ip ∷ rest

-- std::sort
unfoldable pub sorted_in : String → List String → List String
sorted_in x [] = x ∷ []
sorted_in x (y ∷ ys) = let rest = sorted_in x ys in if lt_text y x then y ∷ rest else x ∷ y ∷ ys

unfoldable pub sort : List String → List String
unfolding sorted_in
sort [] = []
sort (x ∷ xs) = sorted_in x (sort xs)

-- std::unique and the erase behind it
unfoldable pub unique : List String → List String
unique [] = []
unique (x ∷ []) = x ∷ []
unique (x ∷ y ∷ ys) = let rest = unique (y ∷ ys) in if x == y then rest else x ∷ rest

unfoldable pub build_allowlist : List String → List String → List String → List String
unfolding named_addresses sort unique
build_allowlist gateways dns_servers extra = unique (
    sort (
      ("127.0.0.1" ∷ "::1" ∷ "0.0.0.0" ∷ [])
      ++ (named_addresses gateways ++ (named_addresses dns_servers ++ extra))))
