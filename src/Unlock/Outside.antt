-- ===== src/Unlock/Outside.antt =====
-- What a vote that does not report the unlock does outside.
use mathlib.Core.Bool.{false≢true}
use astartis_codex_control_p.Base.{
  ℕ, String, ◌≡◌, sym, inl, inr, Bool, true, false, Option, none, some, List, leb, if_cases, lookup,
  insert,
}
use astartis_codex_control_p.Callbacks.{AuditAdder}
use astartis_codex_control_p.Crypto.{SignedRequest, verify_signed_request}
use astartis_codex_control_p.Tokens.{TokenStore, AccessResult, check_access}
use astartis_codex_control_p.Tokens.Access.{check_access-audits}
use astartis_codex_control_p.Unlock.Protocol.{
  ApproverRecord, VoteResult, ProtocolState, UnlockProtocol, collected, voted, touch, idle,
  collecting, granted,
}
use astartis_codex_control_p.Unlock.{
  reject, accept_vote, verify_vote, scope_vote, approver_vote, vote_in, cast_vote,
}

module _ {W : Type 0} (audit_adder : AuditAdder W) (worm_unlock : String → W → W)
    (ecdsa_verify : List ℕ → List ℕ → List ℕ → Bool) where
  module _ (P : W → Type 0) (audited : (t s : String) (w : W) → P w → P (audit_adder t s w).1) where
    -- `r` keeps the property, unless it reports the unlock.
    abbrev IsQuiet : VoteResult × UnlockProtocol × W → Type 0
    IsQuiet r = r.0.unlocked ≡ false → P r.2

    reject-IsQuiet :
        (name : String) (reason : List String) (p : UnlockProtocol) (w : W)
        → P w
        → IsQuiet (reject audit_adder worm_unlock ecdsa_verify name reason p w)
    unfolding reject
    reject-IsQuiet name reason p w h u = audited _ _ w h

    accept-IsQuiet :
        (name : String) (p : UnlockProtocol) (w : W)
        → P w
        → IsQuiet (accept_vote audit_adder worm_unlock ecdsa_verify name p w)
    unfolding accept_vote
    accept-IsQuiet name p w h =
        if_cases IsQuiet (leb p.threshold (collected (insert name true p.votes))) _ _
          (λ _ u. absurd (false≢true (sym u))) (λ _ _. audited _ _ w h)

    verify-IsQuiet :
        (name : String) (a : ApproverRecord) (req : SignedRequest) (o : Option (List ℕ))
        (p : UnlockProtocol) (w : W)
        → P w
        → IsQuiet (verify_vote audit_adder worm_unlock ecdsa_verify name a req o p w)
    unfolding verify_vote
    verify-IsQuiet name a req none p w h = reject-IsQuiet name _ p w h
    verify-IsQuiet name a req (some c) p w h =
        if_cases IsQuiet (verify_signed_request ecdsa_verify req c a.public_key_der) _ _
          (λ _. accept-IsQuiet name p w h) (λ _. reject-IsQuiet name _ p w h)

    access-keeps :
        (token_id scope : String) (now : ℕ) (tokens : TokenStore) (w : W)
        → P w
        → P (check_access audit_adder token_id scope now tokens w).1
    access-keeps token_id scope now tokens w h =
        elim (check_access-audits audit_adder token_id scope now tokens w) [
          | inl (_, same) ↦ rw same h
          | inr (_, (payload, told)) ↦ rw told (audited _ _ w h)
        ]

    scope-IsQuiet :
        (name : String) (a : ApproverRecord) (req : SignedRequest) (r : AccessResult × W)
        (p : UnlockProtocol)
        → P r.1
        → IsQuiet (scope_vote audit_adder worm_unlock ecdsa_verify name a req r p)
    unfolding scope_vote
    scope-IsQuiet name a req (access, w) p h =
        if_cases IsQuiet access.granted _ _
          (λ _. verify-IsQuiet name a req (lookup name p.challenges) p w h)
          (λ _. reject-IsQuiet name _ p w h)

    approver-IsQuiet :
        (name : String) (o : Option ApproverRecord) (req : SignedRequest) (now : ℕ)
        (tokens : TokenStore) (p : UnlockProtocol) (w : W)
        → P w
        → IsQuiet (approver_vote audit_adder worm_unlock ecdsa_verify name o req now tokens p w)
    unfolding approver_vote
    approver-IsQuiet name none req now tokens p w h = reject-IsQuiet name _ p w h
    approver-IsQuiet name (some a) req now tokens p w h =
        if_cases IsQuiet (voted name p.votes) _ _
          (λ _. reject-IsQuiet name _ (record p { votes = touch name p.votes }) w h)
          (λ _.
            scope-IsQuiet name a req
              (check_access audit_adder a.token_id "worm_unlock_vote" now tokens w)
              (record p { votes = touch name p.votes })
              (access-keeps a.token_id "worm_unlock_vote" now tokens w h))

    vote_in-IsQuiet :
        (name : String) (req : SignedRequest) (now : ℕ) (tokens : TokenStore) (p : UnlockProtocol)
        (w : W)
        → P w
        → (state : ProtocolState)
        → IsQuiet (vote_in audit_adder worm_unlock ecdsa_verify state name req now tokens p w)
    unfolding vote_in
    vote_in-IsQuiet name req now tokens p w h idle = reject-IsQuiet name _ p w h
    vote_in-IsQuiet name req now tokens p w h granted = reject-IsQuiet name _ p w h
    vote_in-IsQuiet name req now tokens p w h collecting =
        approver-IsQuiet name (lookup name p.approvers) req now tokens p w h

    -- A vote that does not report the unlock reaches the outside by audit entries alone: what audit
    -- entries keep, such as an engaged lock, it keeps.
    pub cast_vote-keeps :
        (name : String) (req : SignedRequest) (now : ℕ) (tokens : TokenStore) (p : UnlockProtocol)
        (w : W)
        → (cast_vote audit_adder worm_unlock ecdsa_verify name req now tokens p w).0.unlocked
          ≡ false
        → P w
        → P (cast_vote audit_adder worm_unlock ecdsa_verify name req now tokens p w).2
    unfolding cast_vote
    cast_vote-keeps name req now tokens p w u h =
        vote_in-IsQuiet name req now tokens p w h p.state u
