-- ===== src/Tokens/Lifetime.antt =====
-- The life of a token: from its grant to its expiry, or to its revocation.
use astartis_codex_control_p.Base.{
  ℕ, ◌+◌, ◌<◌, String, ◌≡◌, refl, ◌∙◌, ◌≢◌, ◌↔◌, inl, inr, true, false, Option, none, some, List,
  [], ◌∷◌, arith, eq_iff, Bool-cases, hex_bytes, pos_part, ◌≤ℤ◌, ℤ, lookup, lookup-insert,
  lookup-insert_self, pos,
}
use astartis_codex_control_p.Callbacks.{AuditAdder}
use astartis_codex_control_p.Result.{Result, ok, throws}
use astartis_codex_control_p.Tokens.{
  AccessToken, StoredToken, TokenStore, issue, store_token, grant, revoke_found, revoke,
  check_access,
}
use astartis_codex_control_p.Tokens.Access.{Permits, check_access-granted}

module _ {W : Type 0} (audit_adder : AuditAdder W) where
  -- What a successful grant has done.
  pub grant-ok :
      (identity scope : String) (ttl_ms : ℤ) (drawn : Option (List ℕ)) (now : ℕ) (s : TokenStore)
      (w : W) (r : AccessToken × TokenStore × W)
      → grant audit_adder identity scope ttl_ms drawn now s w ≡ ok r
      → (bytes : List ℕ) × (drawn ≡ some bytes)
        × (pos 0 ≤ℤ ttl_ms)
        × (r
            ≡ store_token audit_adder
                (issue (hex_bytes bytes) identity scope (pos_part ttl_ms) now)
                ttl_ms
                s
                w)
  unfolding grant
  grant-ok identity scope ttl_ms none now s w r h = ground arith
  grant-ok identity scope ttl_ms (some bytes) now s w r h =
      (bytes, refl, ground arith, ground arith)

  stored_lifetime :
      (token_id identity scope : String) (ttl now : ℕ) (s : TokenStore) (w v : W)
      (required_scope : String) (later : ℕ)
      → let r = store_token audit_adder (issue token_id identity scope ttl now) (pos ttl) s w in
        ((check_access audit_adder r.0.token_id required_scope later r.1 v).0.granted ≡ true)
        ↔ ((later < now + ttl) × (scope ≡ required_scope))
  unfolding store_token issue
  stored_lifetime token_id identity scope ttl now s w v required_scope later =
      let r = store_token audit_adder (issue token_id identity scope ttl now) (pos ttl) s w in
      let c = check_access-granted audit_adder token_id required_scope later r.1 v in
      let l = lookup-insert_self token_id (record { token = r.0; revoked = false }) s.tokens in
      (
        λ h. permitted (c.0 h) l,
        λ h. c.1 (record { token = r.0; revoked = false }, l, (h.0, refl, h.1)),
      )
    where
      permitted :
          {t : StoredToken} {o : Option StoredToken}
          → Permits audit_adder token_id required_scope later o
          → o ≡ some t
          → (later < t.token.expires_at_ms) × (t.token.scope ≡ required_scope)
      permitted {t} {o} (st, e, (a, b, c)) f = ground arith

  -- A token that was just granted is good for its own scope, and only for that, until its time to
  -- live has passed, and no longer.
  pub grant-lifetime :
      (identity scope : String) (ttl : ℕ) (drawn : Option (List ℕ)) (now : ℕ) (s : TokenStore)
      (w v : W) (r : AccessToken × TokenStore × W) (required_scope : String) (later : ℕ)
      → grant audit_adder identity scope (pos ttl) drawn now s w ≡ ok r
      → ((check_access audit_adder r.0.token_id required_scope later r.1 v).0.granted ≡ true)
        ↔ ((later < now + ttl) × (scope ≡ required_scope))
  grant-lifetime identity scope ttl drawn now s w v r required_scope later h =
      let g = grant-ok identity scope (pos ttl) drawn now s w r h in
      rw (g.3) (stored_lifetime (hex_bytes g.0) identity scope ttl now s w v required_scope later)

  -- A call of the store that changes it.
  pub data Call : Type 0 where
    grants : String → String → ℤ → Option (List ℕ) → ℕ → Call
    revokes : String → String → Call

  -- A call that throws changes nothing.
  abbrev kept : Result (AccessToken × TokenStore × W) → TokenStore × W → TokenStore × W
  kept (ok r) before = (r.1, r.2)
  kept (throws e) before = before

  unfoldable pub step : Call → TokenStore × W → TokenStore × W
  step (grants identity scope ttl_ms drawn now) (s, w) =
      kept (grant audit_adder identity scope ttl_ms drawn now s w) (s, w)
  step (revokes token_id reason) (s, w) =
      let r = revoke audit_adder token_id reason s w in (r.1, r.2)

  unfoldable pub run : List Call → TokenStore × W → TokenStore × W
  run [] s = s
  run (c ∷ cs) s = run cs (step c s)

  -- None of the calls draws this token id for a new token.
  abbrev pub Avoids : String → List Call → Type 0
  Avoids token_id [] = Unit {0}
  Avoids token_id (grants identity scope ttl_ms none now ∷ cs) = Avoids token_id cs
  Avoids token_id (grants identity scope ttl_ms (some bytes) now ∷ cs) =
      (hex_bytes bytes ≢ token_id) × Avoids token_id cs
  Avoids token_id (revokes other reason ∷ cs) = Avoids token_id cs

  abbrev pub IsBurned : String → TokenStore → Type 0
  IsBurned token_id s =
      (st : StoredToken) × (lookup token_id s.tokens ≡ some st) × (st.revoked ≡ true)

  revoke-IsBurned :
      (token_id other reason : String) (s : TokenStore) (w : W)
      → IsBurned token_id s
      → IsBurned token_id (revoke audit_adder other reason s w).1
  unfolding revoke
  revoke-IsBurned token_id other reason s w (st, found, burned) = go (lookup other s.tokens) refl
    where
      go :
          (o : Option StoredToken)
          → lookup other s.tokens ≡ o
          → IsBurned token_id (revoke_found audit_adder other reason o s w).1
      go none e = (st, found, burned)
      go (some u) e = elim (Bool-cases u.revoked) [
        | inl done ↦ rw done (st, found, burned)
        | inr fresh ↦ rw fresh (
          st,
          (lookup-insert other token_id (record u { revoked = true }) s.tokens
              ∙ ground (arith, eq_iff other token_id)),
          burned,
        )
      ]

  grant_fails-IsBurned :
      (token_id identity scope : String) (ttl_ms : ℤ) (now : ℕ) (s : TokenStore) (w : W)
      → IsBurned token_id s
      → IsBurned token_id (kept (grant audit_adder identity scope ttl_ms none now s w) (s, w)).0
  unfolding grant
  grant_fails-IsBurned token_id identity scope ttl_ms now s w (st, found, burned) =
      (st, ground arith, burned)

  grant-IsBurned :
      (token_id identity scope : String) (ttl_ms : ℤ) (bytes : List ℕ) (now : ℕ) (s : TokenStore)
      (w : W)
      → hex_bytes bytes ≢ token_id
      → IsBurned token_id s
      → IsBurned token_id
          (kept (grant audit_adder identity scope ttl_ms (some bytes) now s w) (s, w)).0
  unfolding grant store_token
  grant-IsBurned token_id identity scope ttl_ms bytes now s w d (st, found, burned) = (
    st,
    ground (
      arith,
      lookup-insert (hex_bytes bytes) token_id
          (record {
            token = issue (hex_bytes bytes) identity scope (pos_part ttl_ms) now;
            revoked = false;
          })
          s.tokens,
      eq_iff (hex_bytes bytes) token_id,
    ),
    burned,
  )

  run-IsBurned :
      (token_id : String) (cs : List Call) (s : TokenStore) (w : W)
      → Avoids token_id cs
      → IsBurned token_id s
      → IsBurned token_id (run cs (s, w)).0
  unfolding run step
  run-IsBurned token_id [] s w a b = b
  run-IsBurned token_id (grants identity scope ttl_ms none now ∷ cs) s w a b =
      let n = kept (grant audit_adder identity scope ttl_ms none now s w) (s, w) in
      run-IsBurned token_id cs n.0 n.1 a
        (grant_fails-IsBurned token_id identity scope ttl_ms now s w b)
  run-IsBurned token_id (grants identity scope ttl_ms (some bytes) now ∷ cs) s w a b =
      let n = kept (grant audit_adder identity scope ttl_ms (some bytes) now s w) (s, w) in
      run-IsBurned token_id cs n.0 n.1 a.1
        (grant-IsBurned token_id identity scope ttl_ms bytes now s w a.0 b)
  run-IsBurned token_id (revokes other reason ∷ cs) s w a b =
      let r = revoke audit_adder other reason s w in
      run-IsBurned token_id cs r.1 r.2 a (revoke-IsBurned token_id other reason s w b)

  check-IsBurned :
      (token_id required_scope : String) (now : ℕ) (s : TokenStore) (v : W)
      → IsBurned token_id s
      → (check_access audit_adder token_id required_scope now s v).0.granted ≡ false
  check-IsBurned token_id required_scope now s v (st, found, burned) =
      elim (Bool-cases (check_access audit_adder token_id required_scope now s v).0.granted) [
        | inl allowed ↦ absurd (
            clash ((check_access-granted audit_adder token_id required_scope now s v).0 allowed)
              found burned)
        | inr refused ↦ refused
      ]
    where
      clash :
          {t : StoredToken} {o : Option StoredToken}
          → Permits audit_adder token_id required_scope now o
          → o ≡ some t
          → t.revoked ≡ true
          → ⊥
      clash {t} {o} (u, e, (a, b, c)) f k = ground arith

  revoked-IsBurned :
      (token_id reason : String) (o : Option StoredToken) (s : TokenStore) (w : W)
      → (revoke_found audit_adder token_id reason o s w).0 ≡ true
      → IsBurned token_id (revoke_found audit_adder token_id reason o s w).1
  unfolding revoke_found
  revoked-IsBurned token_id reason none s w h = cc
  revoked-IsBurned token_id reason (some u) s w h = elim (Bool-cases u.revoked) [
    | inl done ↦ absurd (ground arith)
    | inr fresh ↦ rw fresh (
      record u { revoked = true },
      lookup-insert_self token_id (record u { revoked = true }) s.tokens,
      refl,
    )
  ]

  revoked-was_live :
      (token_id reason : String) (o : Option StoredToken) (s : TokenStore) (w : W)
      → (revoke_found audit_adder token_id reason o s w).0 ≡ true
      → (st : StoredToken) × (o ≡ some st) × (st.revoked ≡ false)
  unfolding revoke_found
  revoked-was_live token_id reason none s w h = cc
  revoked-was_live token_id reason (some u) s w h = (u, refl, ground (arith, h))

  -- If revoke returns true then the token was in the store and not revoked, and it is burned: from
  -- then on, whatever is granted and revoked, as long as no grant draws the same id again, every
  -- check of that token is denied, for every scope and at every time.
  pub revoke-final :
      (token_id reason : String) (s : TokenStore) (w : W) (cs : List Call) (required_scope : String)
      (now : ℕ) (v : W)
      → (revoke audit_adder token_id reason s w).0 ≡ true
      → Avoids token_id cs
      → ((st : StoredToken) × (lookup token_id s.tokens ≡ some st) × (st.revoked ≡ false))
        × ((check_access audit_adder token_id required_scope now
              (run cs (
                (revoke audit_adder token_id reason s w).1,
                (revoke audit_adder token_id reason s w).2,
              )).0
              v).0.granted
            ≡ false)
  unfolding revoke
  revoke-final token_id reason s w cs required_scope now v h a =
      let r = revoke_found audit_adder token_id reason (lookup token_id s.tokens) s w in
      (
        revoked-was_live token_id reason (lookup token_id s.tokens) s w h,
        check-IsBurned token_id required_scope now (run cs (r.1, r.2)).0 v (
            run-IsBurned token_id cs r.1 r.2 a
              (revoked-IsBurned token_id reason (lookup token_id s.tokens) s w h)),
      )
