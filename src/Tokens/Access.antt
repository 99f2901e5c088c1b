-- ===== src/Tokens/Access.antt =====
-- When check_access grants.
use astartis_codex_control_p.Base.{
  ℕ, ◌<◌, String, ◌≡◌, refl, subst, ◌↔◌, ◌⊎◌, inl, inr, true, false, Option, none, some, arith,
  ◌==◌, eq_iff, leb, Bool-cases, lookup,
}
use astartis_codex_control_p.Callbacks.{AuditAdder}
use astartis_codex_control_p.Tokens.{
  StoredToken, TokenStore, check_access, check_stored, check_found, denied,
}

module _ {W : Type 0} (audit_adder : AuditAdder W) (token_id required_scope : String)
    (now : ℕ) where
  abbrev pub Allows : StoredToken → Type 0
  Allows st =
      (now < st.token.expires_at_ms) × (st.revoked ≡ false) × (st.token.scope ≡ required_scope)

  -- The token may be used for the scope at this time.
  abbrev pub Permits : Option StoredToken → Type 0
  Permits o = (st : StoredToken) × (o ≡ some st) × Allows st

  stored-granted :
      (st : StoredToken) (w : W)
      → ((check_stored audit_adder token_id required_scope now st w).0.granted ≡ true) ↔ Allows st
  unfolding check_stored
  stored-granted st w = (
    λ h. (ground arith, ground arith, ground (arith, eq_iff st.token.scope required_scope)),
    λ h. ground (arith, eq_iff st.token.scope required_scope),
  )

  found-granted :
      (o : Option StoredToken) (w : W)
      → ((check_found audit_adder token_id required_scope now o w).0.granted ≡ true) ↔ Permits o
  unfolding check_found
  found-granted none w = (λ h. cc, λ p. cc (p.1))
  found-granted (some st) w = (
    λ h. (st, refl, (stored-granted st w).0 h),
    λ p. (stored-granted st w).1 (subst Allows (same (some st) p.0 st p.1 refl) p.2),
  )
    where
      same : (o : Option StoredToken) (t u : StoredToken) → o ≡ some t → o ≡ some u → t ≡ u
      same o t u e f = cc

  -- check_access grants exactly when the token is in the store, has not expired, is not revoked and
  -- has the required scope.
  pub check_access-granted :
      (s : TokenStore) (w : W)
      → ((check_access audit_adder token_id required_scope now s w).0.granted ≡ true)
        ↔ Permits (lookup token_id s.tokens)
  unfolding check_access
  check_access-granted s w = found-granted (lookup token_id s.tokens) w

  found-audits :
      (o : Option StoredToken) (w : W)
      → (((check_found audit_adder token_id required_scope now o w).0.granted ≡ true)
          × ((check_found audit_adder token_id required_scope now o w).1 ≡ w))
        ⊎ (((check_found audit_adder token_id required_scope now o w).0.granted ≡ false)
            × ((payload : String) × ((check_found audit_adder token_id required_scope now o w).1
                  ≡ (audit_adder "token_denied" payload w).1)))
  unfolding check_found check_stored denied
  found-audits none w = inr (refl, (_, refl))
  found-audits (some st) w = elim (Bool-cases (leb st.token.expires_at_ms now)) [
    | inl late ↦ rw late (inr (refl, (_, refl)))
    | inr alive ↦ rw alive (elim (Bool-cases st.revoked) [
      | inl burned ↦ rw burned (inr (refl, (_, refl)))
      | inr kept ↦ rw kept (elim (Bool-cases (st.token.scope == required_scope)) [
        | inl fits ↦ rw fits (inl (refl, refl))
        | inr other ↦ rw other (inr (refl, (_, refl)))
      ])
    ])
  ]

  -- A check that grants writes nothing; a check that denies writes one token_denied entry.
  pub check_access-audits :
      (s : TokenStore) (w : W)
      → (((check_access audit_adder token_id required_scope now s w).0.granted ≡ true)
          × ((check_access audit_adder token_id required_scope now s w).1 ≡ w))
        ⊎ (((check_access audit_adder token_id required_scope now s w).0.granted ≡ false)
            × ((payload : String) × ((check_access audit_adder token_id required_scope now s w).1
                  ≡ (audit_adder "token_denied" payload w).1)))
  unfolding check_access
  check_access-audits s w = found-audits (lookup token_id s.tokens) w
