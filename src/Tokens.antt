-- ===== src/Tokens.antt =====
-- astartis/core/access_token: short-lived scoped tokens. The time that a call reads from the clock,
-- in milliseconds, and the bytes that it draws are arguments; drawing `none` is a failure of
-- RAND_bytes. Times stay below 2^63.
pub mod Access
pub mod Lifetime
use astartis_codex_control_p.Base.{
  ℕ, ◌+◌, String, Bool, true, false, ◌&&◌, not, Option, none, some, List, [], ◌∷◌, ◌==◌, ltb, leb,
  if◌then◌else◌, inc64, concat, is_empty, int_text, hex_bytes, pos_part, leb_ℤ, ℤ, Dict, lookup,
  insert, values_where, pos,
}
use astartis_codex_control_p.Callbacks.{AuditAdder}
use astartis_codex_control_p.Result.{Result, ok, throws, invalid_argument, runtime_error}

pub record AccessToken : Type 0 where
  pub token_id : String
  pub identity_name : String
  pub scope : String
  pub granted_at_ms : ℕ
  pub expires_at_ms : ℕ

pub record StoredToken : Type 0 where
  pub token : AccessToken
  pub revoked : Bool

pub record AccessResult : Type 0 where
  pub granted : Bool
  pub reason : String

pub record TokenStore : Type 0 where
  pub tokens : Dict StoredToken
  pub total_granted : ℕ

abbrev pub new_store : TokenStore
new_store = record { tokens = []; total_granted = 0 }

unfoldable pub is_live : ℕ → StoredToken → Bool
is_live now st = not st.revoked && ltb now st.token.expires_at_ms

unfoldable pub live_token_count : ℕ → TokenStore → ℕ
live_token_count now s = values_where (is_live now) s.tokens

unfoldable pub generate_token_id : Option (List ℕ) → Result String
generate_token_id none = throws (runtime_error "RAND_bytes failed generating token ID")
generate_token_id (some bytes) = ok (hex_bytes bytes)

unfoldable pub issue : String → String → String → ℕ → ℕ → AccessToken
issue token_id identity scope ttl now = record {
  token_id = token_id;
  identity_name = identity;
  scope = scope;
  granted_at_ms = now;
  expires_at_ms = now + ttl;
}

module _ {W : Type 0} (audit_adder : AuditAdder W) where
  unfoldable pub store_token : AccessToken → ℤ → TokenStore → W → AccessToken × TokenStore × W
  store_token tok ttl_ms s w = (
    tok,
    record {
      tokens = insert tok.token_id (record { token = tok; revoked = false }) s.tokens;
      total_granted = inc64 s.total_granted;
    },
    (audit_adder "token_granted"
        (concat (
          "token_id="
          ∷ tok.token_id
          ∷ " identity="
          ∷ tok.identity_name
          ∷ " scope="
          ∷ tok.scope
          ∷ " ttl_ms="
          ∷ int_text ttl_ms
          ∷ []))
        w).1,
  )

  granted_with :
      Result String
      → String
      → String
      → ℤ
      → ℕ
      → TokenStore
      → W
      → Result (AccessToken × TokenStore × W)
  unfolding store_token issue
  granted_with (throws e) identity scope ttl_ms now s w = throws e
  granted_with (ok token_id) identity scope ttl_ms now s w =
      ok (store_token (issue token_id identity scope (pos_part ttl_ms) now) ttl_ms s w)

  unfoldable pub grant :
      String
      → String
      → ℤ
      → Option (List ℕ)
      → ℕ
      → TokenStore
      → W
      → Result (AccessToken × TokenStore × W)
  unfolding granted_with generate_token_id
  grant identity scope ttl_ms drawn now s w =
      if is_empty identity
      then throws (invalid_argument "identity must not be empty")
      else if is_empty scope
      then throws (invalid_argument "scope must not be empty")
      else if leb_ℤ ttl_ms (pos 0)
      then throws (invalid_argument "ttl_ms must be positive")
      else granted_with (generate_token_id drawn) identity scope ttl_ms now s w

  revoke_stored : String → String → StoredToken → TokenStore → W → Bool × TokenStore × W
  revoke_stored token_id reason st s w = if st.revoked then (false, s, w) else (
    true,
    record s { tokens = insert token_id (record st { revoked = true }) s.tokens },
    (audit_adder "token_revoked"
        (concat (
          "token_id=" ∷ token_id ∷ " identity=" ∷ st.token.identity_name ∷ " scope="
          ∷ st.token.scope ∷ " reason=\"" ∷ reason ∷ "\"" ∷ []))
        w).1,
  )

  revoke_found : String → String → Option StoredToken → TokenStore → W → Bool × TokenStore × W
  unfolding revoke_stored
  revoke_found token_id reason none s w = (false, s, w)
  revoke_found token_id reason (some st) s w = revoke_stored token_id reason st s w

  unfoldable pub revoke : String → String → TokenStore → W → Bool × TokenStore × W
  unfolding revoke_found
  revoke token_id reason s w = revoke_found token_id reason (lookup token_id s.tokens) s w

  denied : String → List String → W → AccessResult × W
  denied reason payload w = (
    record { granted = false; reason = reason },
    (audit_adder "token_denied" (concat payload) w).1,
  )

  check_stored : String → String → ℕ → StoredToken → W → AccessResult × W
  unfolding denied
  check_stored token_id required_scope now st w =
      if leb st.token.expires_at_ms now
      then denied "expired"
          ("token_id=" ∷ token_id ∷ " identity=" ∷ st.token.identity_name ∷ " scope="
            ∷ st.token.scope ∷ " required_scope=" ∷ required_scope ∷ " reason=expired" ∷ [])
          w
      else if st.revoked
      then denied "revoked"
          ("token_id=" ∷ token_id ∷ " identity=" ∷ st.token.identity_name ∷ " scope="
            ∷ st.token.scope ∷ " required_scope=" ∷ required_scope ∷ " reason=revoked" ∷ [])
          w
      else if st.token.scope == required_scope
      then (record { granted = true; reason = "ok" }, w)
      else denied "scope_mismatch"
          ("token_id=" ∷ token_id ∷ " identity=" ∷ st.token.identity_name ∷ " token_scope="
            ∷ st.token.scope ∷ " required_scope=" ∷ required_scope ∷ " reason=scope_mismatch" ∷ [])
          w

  check_found : String → String → ℕ → Option StoredToken → W → AccessResult × W
  unfolding check_stored
  check_found token_id required_scope now none w =
      denied "not_found"
        ("token_id=" ∷ token_id ∷ " required_scope=" ∷ required_scope ∷ " reason=not_found" ∷ []) w
  check_found token_id required_scope now (some st) w =
      check_stored token_id required_scope now st w

  -- The store is not changed: the result and the outside.
  unfoldable pub check_access : String → String → ℕ → TokenStore → W → AccessResult × W
  unfolding check_found
  check_access token_id required_scope now s w =
      check_found token_id required_scope now (lookup token_id s.tokens) w
