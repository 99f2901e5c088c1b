-- ===== src/Unlock/Once.antt =====
-- An approver votes once in a session.
use astartis_codex_control_p.Base.{
  ℕ, String, ◌≡◌, sym, ap, ◌∙◌, inl, inr, Bool, true, false, none, List, [], ◌∷◌, arith, eq_iff,
  is_some, Bool-cases, lookup, lookup-insert,
}
use astartis_codex_control_p.Callbacks.{AuditAdder}
use astartis_codex_control_p.Crypto.{SignedRequest}
use astartis_codex_control_p.Tokens.{TokenStore}
use astartis_codex_control_p.Unlock.Protocol.{
  ApproverRecord, ApproverSide, VoteResult, UnlockProtocol, voted, touch, register_approver,
  open_session, begin_session, get_challenge, collecting,
}
use astartis_codex_control_p.Unlock.{cast_vote}
use mathlib.Core.Bool.{false≢true}
use astartis_codex_control_p.Unlock.Voting.{
  Decides, cast_vote-Decides, cast_vote-accepted, voted-touch,
}
use astartis_codex_control_p.Unlock.Votes.{voted-insert, get_challenge-votes, accept_vote-votes}
use astartis_codex_control_p.Unlock.History.{
  Call, registers, begins, asks, votes, step, run, after_challenge,
}

-- A registered approver who has voted.
abbrev HasVoted : String → UnlockProtocol → Type 0
HasVoted name p = (is_some (lookup name p.approvers) ≡ true) × (voted name p.votes ≡ true)

register-HasVoted :
    (name other : String) (side : ApproverSide) (key : List ℕ) (token_id : String)
    (p : UnlockProtocol)
    → HasVoted name p
    → HasVoted name (register_approver other side key token_id p)
unfolding register_approver
register-HasVoted name other side key token_id p h =
    elim (Bool-cases (is_some (lookup other p.approvers))) [
      | inl known ↦ rw known h
      | inr new ↦
          let a : ApproverRecord = record {
            name = other;
            side = side;
            public_key_der = key;
            token_id = token_id;
          } in
          rw new (
            ground (arith, h.0, new, lookup-insert other name a p.approvers, eq_iff other name),
            ground (arith, h.0, h.1, new, voted-insert other name false p.votes, eq_iff other name),
          )
    ]

same-HasVoted :
    (name : String) (p q : UnlockProtocol)
    → q.approvers ≡ p.approvers
    → voted name q.votes ≡ voted name p.votes
    → HasVoted name p
    → HasVoted name q
same-HasVoted name p q same each h = (ap (λ m. is_some (lookup name m)) same ∙ h.0, each ∙ h.1)

module _ {W : Type 0} (audit_adder : AuditAdder W) (worm_unlock : String → W → W)
    (ecdsa_verify : List ℕ → List ℕ → List ℕ → Bool) where
  vote-HasVoted :
      (name other : String) (req : SignedRequest) (now : ℕ) (tokens : TokenStore)
      (p : UnlockProtocol) (w : W) (r : VoteResult × UnlockProtocol × W)
      → Decides audit_adder worm_unlock ecdsa_verify other req now tokens p w r
      → HasVoted name p
      → HasVoted name r.1
  vote-HasVoted name other req now tokens p w r (inl j) h =
      same-HasVoted name p r.1 j.same_approvers (j.same_votes name) h
  vote-HasVoted name other req now tokens p w r (inr (_, (w', e))) h =
      let q = record p { votes = touch other p.votes } in
      let a = accept_vote-votes audit_adder worm_unlock ecdsa_verify other q w' in
      (
        ap (λ (x : VoteResult × UnlockProtocol × W). is_some (lookup name x.1.approvers)) e
            ∙ ap (λ m. is_some (lookup name m)) a.2
            ∙ h.0,
        ap (λ (x : VoteResult × UnlockProtocol × W). voted name x.1.votes) e
            ∙ ap (voted name) a.1
            ∙ ground (
              arith,
              voted-insert other name true (touch other p.votes),
              voted-touch other name p.votes,
              h.1,
            ),
      )

  -- No call among these opens a new session: every begin_session finds one open.
  abbrev pub KeepsSession :
      List (Call audit_adder worm_unlock ecdsa_verify) → UnlockProtocol × W → Type 0
  KeepsSession [] s = Unit {0}
  KeepsSession (begins ∷ cs) s =
      (s.0.state ≡ collecting)
      × KeepsSession cs (step audit_adder worm_unlock ecdsa_verify begins s)
  KeepsSession (registers name side key token_id ∷ cs) s =
      KeepsSession cs
        (step audit_adder worm_unlock ecdsa_verify (registers name side key token_id) s)
  KeepsSession (asks name fresh ∷ cs) s =
      KeepsSession cs (step audit_adder worm_unlock ecdsa_verify (asks name fresh) s)
  KeepsSession (votes name req now tokens ∷ cs) s =
      KeepsSession cs (step audit_adder worm_unlock ecdsa_verify (votes name req now tokens) s)

  run-HasVoted :
      (name : String) (cs : List (Call audit_adder worm_unlock ecdsa_verify))
      (s : UnlockProtocol × W)
      → KeepsSession cs s
      → HasVoted name s.0
      → HasVoted name (run audit_adder worm_unlock ecdsa_verify cs s).0
  unfolding run step begin_session open_session
  run-HasVoted name [] s k h = h
  run-HasVoted name (registers other side key token_id ∷ cs) (p, w) k h =
      run-HasVoted name cs (register_approver other side key token_id p, w) k
        (register-HasVoted name other side key token_id p h)
  run-HasVoted name (begins ∷ cs) (p, w) k h =
      run-HasVoted name cs (begin_session p, w) k.1 (rw (k.0) h)
  run-HasVoted name (asks other fresh ∷ cs) (p, w) k h =
      let q = after_challenge (get_challenge other fresh p) p in
      let same = get_challenge-votes other fresh p in
      run-HasVoted name cs (q, w) k (same-HasVoted name p q same.1 (ap (voted name) same.0) h)
  run-HasVoted name (votes other req now tokens ∷ cs) (p, w) k h =
      let r = cast_vote audit_adder worm_unlock ecdsa_verify other req now tokens p w in
      run-HasVoted name cs (r.1, r.2) k
        (vote-HasVoted name other req now tokens p w r
          (cast_vote-Decides audit_adder worm_unlock ecdsa_verify other req now tokens p w) h)

  second :
      (name : String) (req : SignedRequest) (now : ℕ) (tokens : TokenStore) (p : UnlockProtocol)
      (w : W)
      → voted name p.votes ≡ true
      → (cast_vote audit_adder worm_unlock ecdsa_verify name req now tokens p w).0.accepted ≡ false
  second name req now tokens p w h =
      elim (Bool-cases
        (cast_vote audit_adder worm_unlock ecdsa_verify name req now tokens p w).0.accepted) [
          | inl taken ↦
              let may =
                (cast_vote-accepted audit_adder worm_unlock ecdsa_verify name req now tokens p w).0
                  taken in
              absurd (false≢true (sym (may.1.2) ∙ h))
          | inr refused ↦ refused
        ]

  -- What an accepted vote leaves.
  accepted-HasVoted :
      (name : String) (req : SignedRequest) (now : ℕ) (tokens : TokenStore) (p : UnlockProtocol)
      (w : W) (r : VoteResult × UnlockProtocol × W)
      → Decides audit_adder worm_unlock ecdsa_verify name req now tokens p w r
      → r.0.accepted ≡ true
      → (lookup name r.1.challenges ≡ none) × HasVoted name r.1
  accepted-HasVoted name req now tokens p w r (inl j) h = absurd (false≢true (sym j.refused ∙ h))
  accepted-HasVoted name req now tokens p w r (inr ((st, (a, found, _, _, _)), (w', e))) h =
      let q = record p { votes = touch name p.votes } in
      let left = accept_vote-votes audit_adder worm_unlock ecdsa_verify name q w' in
      (
        ap (λ (x : VoteResult × UnlockProtocol × W). lookup name x.1.challenges) e ∙ left.4,
        (
          ap (λ (x : VoteResult × UnlockProtocol × W). is_some (lookup name x.1.approvers)) e
              ∙ ap (λ m. is_some (lookup name m)) left.2
              ∙ ap is_some found,
          ap (λ (x : VoteResult × UnlockProtocol × W). voted name x.1.votes) e
              ∙ ap (voted name) left.1
              ∙ ground (arith, voted-insert name name true (touch name p.votes), eq_iff name name),
        ),
      )

  -- An accepted vote uses up the challenge. After it, whatever is called, as long as begin_session is
  -- only called while a session is open, the same approver cannot vote again, with this or any other
  -- request, at any time and with any token store.
  pub cast_vote-once :
      (name : String) (req again : SignedRequest) (now later : ℕ) (tokens others : TokenStore)
      (p : UnlockProtocol) (w : W) (cs : List (Call audit_adder worm_unlock ecdsa_verify)) (u v : W)
      → (cast_vote audit_adder worm_unlock ecdsa_verify name req now tokens p w).0.accepted ≡ true
      → KeepsSession cs
          ((cast_vote audit_adder worm_unlock ecdsa_verify name req now tokens p w).1, u)
      → (lookup name
            (cast_vote audit_adder worm_unlock ecdsa_verify name req now tokens p w).1.challenges
          ≡ none)
        × ((cast_vote audit_adder worm_unlock ecdsa_verify name again later others
              (run audit_adder worm_unlock ecdsa_verify cs
                ((cast_vote audit_adder worm_unlock ecdsa_verify name req now tokens p w).1, u)).0
              v).0.accepted
            ≡ false)
  cast_vote-once name req again now later tokens others p w cs u v h k =
      let r = cast_vote audit_adder worm_unlock ecdsa_verify name req now tokens p w in
      let left =
        accepted-HasVoted name req now tokens p w r
          (cast_vote-Decides audit_adder worm_unlock ecdsa_verify name req now tokens p w) h in
      let end = run audit_adder worm_unlock ecdsa_verify cs (r.1, u) in
      (left.0, second name again later others end.0 v (run-HasVoted name cs (r.1, u) k left.1).1)
