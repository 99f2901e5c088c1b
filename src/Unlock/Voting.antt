-- ===== src/Unlock/Voting.antt =====
-- Which votes cast_vote accepts, and what a vote that it rejects leaves alone.
use astartis_codex_control_p.Base.{
  ℕ, String, ◌≡◌, refl, sym, ap, ◌∙◌, ◌↔◌, ◌⊎◌, inl, inr, Bool, true, false, Option, none, some,
  List, arith, eq_iff, is_some, Bool-cases, Option-cases, if_cases, Dict, lookup, lookup-insert,
  values_where-insert_new,
}
use mathlib.Core.Bool.{false≢true}
use astartis_codex_control_p.Callbacks.{AuditAdder}
use astartis_codex_control_p.Crypto.{SignedRequest, verify_signed_request}
use astartis_codex_control_p.Tokens.{TokenStore, check_access}
use astartis_codex_control_p.Unlock.Protocol.{
  ApproverRecord, VoteResult, ProtocolState, UnlockProtocol, collected, voted, touch, idle,
  collecting, granted,
}
use astartis_codex_control_p.Unlock.{
  reject, accept_vote, verify_vote, scope_vote, approver_vote, vote_in, cast_vote,
}

pub collected-touch :
    (name : String) (votes : Dict Bool) → collected (touch name votes) ≡ collected votes
unfolding collected touch
collected-touch name votes = elim (Option-cases (lookup name votes)) [
  | inl gone ↦ rw gone (values_where-insert_new (λ b. b) name false votes gone ∙ omega arith)
  | inr (b, found) ↦ rw found refl
]

pub voted-touch : (name k : String) (votes : Dict Bool) → voted k (touch name votes) ≡ voted k votes
unfolding voted touch
voted-touch name k votes = ground (arith, lookup-insert name k false votes, eq_iff name k)

module _ {W : Type 0} (audit_adder : AuditAdder W) (worm_unlock : String → W → W)
    (ecdsa_verify : List ℕ → List ℕ → List ℕ → Bool) where
  -- The conditions on a vote, one for each step of cast_vote.
  abbrev pub MayVote : String → SignedRequest → ℕ → TokenStore → UnlockProtocol → W → Type 0
  MayVote name req now tokens p w =
      (p.state ≡ collecting)
      × ((a : ApproverRecord) × (lookup name p.approvers ≡ some a)
          × (voted name p.votes ≡ false)
          × ((check_access audit_adder a.token_id "worm_unlock_vote" now tokens w).0.granted ≡ true)
          × ((c : List ℕ) × (lookup name p.challenges ≡ some c)
              × (verify_signed_request ecdsa_verify req c a.public_key_der ≡ true)))

  -- What a rejected vote leaves: everything but the outside, and `voted` at every name.
  pub record Rejects (p : UnlockProtocol) (r : VoteResult × UnlockProtocol × W) : Type 0 where
    pub refused : r.0.accepted ≡ false
    pub still_locked : r.0.unlocked ≡ false
    pub same_threshold : r.1.threshold ≡ p.threshold
    pub same_state : r.1.state ≡ p.state
    pub same_approvers : r.1.approvers ≡ p.approvers
    pub same_challenges : r.1.challenges ≡ p.challenges
    pub same_votes : (k : String) → voted k r.1.votes ≡ voted k p.votes
    pub same_count : collected r.1.votes ≡ collected p.votes
    pub told : r.0.votes_now ≡ collected p.votes
    pub slots :
        (r.1.votes ≡ p.votes)
        ⊎ ((name : String) × (is_some (lookup name p.approvers) ≡ true)
            × (r.1.votes ≡ touch name p.votes))

  pub reject-Rejects :
      (name : String) (reason : List String) (p : UnlockProtocol) (w : W)
      → Rejects p (reject audit_adder worm_unlock ecdsa_verify name reason p w)
  unfolding reject
  reject-Rejects name reason p w = record {
    refused = refl;
    still_locked = refl;
    same_threshold = refl;
    same_state = refl;
    same_approvers = refl;
    same_challenges = refl;
    same_votes = λ k. refl;
    same_count = refl;
    told = refl;
    slots = inl refl;
  }

  -- A rejection after votes_[name] has been read.
  Rejects-touch :
      (name : String) (reason : List String) (p : UnlockProtocol) (w : W)
      → is_some (lookup name p.approvers) ≡ true
      → Rejects p (
          reject audit_adder worm_unlock ecdsa_verify name reason
            (record p { votes = touch name p.votes })
            w)
  unfolding reject
  Rejects-touch name reason p w known = record {
    refused = refl;
    still_locked = refl;
    same_threshold = refl;
    same_state = refl;
    same_approvers = refl;
    same_challenges = refl;
    same_votes = λ k. voted-touch name k p.votes;
    same_count = collected-touch name p.votes;
    told = collected-touch name p.votes;
    slots = inr (name, known, refl);
  }

  -- A call of cast_vote on `p`, which either rejects, or meets the conditions and accepts.
  abbrev pub Decides :
      String
      → SignedRequest
      → ℕ
      → TokenStore
      → UnlockProtocol
      → W
      → VoteResult × UnlockProtocol × W
      → Type 0
  Decides name req now tokens p w r =
      Rejects p r
      ⊎ (MayVote name req now tokens p w
          × ((w' : W) × (r
                ≡ accept_vote audit_adder worm_unlock ecdsa_verify name
                    (record p { votes = touch name p.votes }) w')))

  -- The rest of a vote, on the state `p` with the vote of the approver `a` looked up.
  cast_signed :
      (name : String) (req : SignedRequest) (now : ℕ) (tokens : TokenStore) (p : UnlockProtocol)
      (w w' : W) (a : ApproverRecord) (o : Option (List ℕ))
      → p.state ≡ collecting
      → lookup name p.approvers ≡ some a
      → voted name p.votes ≡ false
      → (check_access audit_adder a.token_id "worm_unlock_vote" now tokens w).0.granted ≡ true
      → lookup name p.challenges ≡ o
      → Decides name req now tokens p w (
          verify_vote audit_adder worm_unlock ecdsa_verify name a req o
            (record p { votes = touch name p.votes })
            w')
  unfolding verify_vote
  cast_signed name req now tokens p w w' a none st found fresh access pending =
      inl (Rejects-touch name _ p w' (ap is_some found))
  cast_signed name req now tokens p w w' a (some c) st found fresh access pending =
      elim (Bool-cases (verify_signed_request ecdsa_verify req c a.public_key_der)) [
        | inl good ↦ rw good (inr ((st, (a, found, fresh, access, (c, pending, good))), (w', refl)))
        | inr bad ↦ rw bad (inl (Rejects-touch name _ p w' (ap is_some found)))
      ]

  cast_scoped :
      (name : String) (req : SignedRequest) (now : ℕ) (tokens : TokenStore) (p : UnlockProtocol)
      (w : W) (a : ApproverRecord)
      → p.state ≡ collecting
      → lookup name p.approvers ≡ some a
      → voted name p.votes ≡ false
      → Decides name req now tokens p w (
          scope_vote audit_adder worm_unlock ecdsa_verify name a req
            (check_access audit_adder a.token_id "worm_unlock_vote" now tokens w)
            (record p { votes = touch name p.votes }))
  unfolding scope_vote
  cast_scoped name req now tokens p w a st found fresh =
      let r = check_access audit_adder a.token_id "worm_unlock_vote" now tokens w in
      elim (Bool-cases r.0.granted) [
        | inl access ↦ rw access (
            cast_signed name req now tokens p w r.1 a (lookup name p.challenges) st found fresh
              access refl)
        | inr denied ↦ rw denied (inl (Rejects-touch name _ p r.1 (ap is_some found)))
      ]

  cast_open :
      (name : String) (req : SignedRequest) (now : ℕ) (tokens : TokenStore) (p : UnlockProtocol)
      (w : W) (o : Option ApproverRecord)
      → p.state ≡ collecting
      → lookup name p.approvers ≡ o
      → Decides name req now tokens p w
          (approver_vote audit_adder worm_unlock ecdsa_verify name o req now tokens p w)
  unfolding approver_vote
  cast_open name req now tokens p w none st found = inl (reject-Rejects name _ p w)
  cast_open name req now tokens p w (some a) st found =
      if_cases (Decides name req now tokens p w) (voted name p.votes) _ _
        (λ again. inl (Rejects-touch name _ p w (ap is_some found)))
        (cast_scoped name req now tokens p w a st found)

  vote_in-Decides :
      (name : String) (req : SignedRequest) (now : ℕ) (tokens : TokenStore) (p : UnlockProtocol)
      (w : W) (state : ProtocolState)
      → p.state ≡ state
      → Decides name req now tokens p w
          (vote_in audit_adder worm_unlock ecdsa_verify state name req now tokens p w)
  unfolding vote_in
  vote_in-Decides name req now tokens p w idle st = inl (reject-Rejects name _ p w)
  vote_in-Decides name req now tokens p w granted st = inl (reject-Rejects name _ p w)
  vote_in-Decides name req now tokens p w collecting st =
      cast_open name req now tokens p w (lookup name p.approvers) st refl

  -- Every call of cast_vote either rejects the vote, leaving the session, the approvers, the
  -- challenges and every vote as they were, or finds all conditions met and accepts it.
  pub cast_vote-Decides :
      (name : String) (req : SignedRequest) (now : ℕ) (tokens : TokenStore) (p : UnlockProtocol)
      (w : W)
      → Decides name req now tokens p w
          (cast_vote audit_adder worm_unlock ecdsa_verify name req now tokens p w)
  unfolding cast_vote
  cast_vote-Decides name req now tokens p w = vote_in-Decides name req now tokens p w p.state refl

  pub accept_vote-accepted :
      (name : String) (p : UnlockProtocol) (w : W)
      → (accept_vote audit_adder worm_unlock ecdsa_verify name p w).0.accepted ≡ true
  unfolding accept_vote
  accept_vote-accepted name p w = ground arith

  -- A vote that meets the conditions is accepted: none of the steps rejects it.
  MayVote-accepted :
      (name : String) (req : SignedRequest) (now : ℕ) (tokens : TokenStore) (p : UnlockProtocol)
      (w : W)
      → MayVote name req now tokens p w
      → (cast_vote audit_adder worm_unlock ecdsa_verify name req now tokens p w).0.accepted ≡ true
  unfolding cast_vote vote_in approver_vote scope_vote verify_vote
  MayVote-accepted name req now tokens p w (st, (a, found, fresh, access, (c, pending, good))) =
      rw (st, vote_in)
        (rw (found, approver_vote)
          (rw fresh
            (rw access (rw (pending, verify_vote) (rw good (accept_vote-accepted name _ _))))))

  -- cast_vote accepts a vote exactly when a session is open, the approver is registered and has not
  -- voted, the approver's token grants the scope worm_unlock_vote at this time, a challenge was
  -- issued to the approver, and the signed request answers it under the approver's key.
  pub cast_vote-accepted :
      (name : String) (req : SignedRequest) (now : ℕ) (tokens : TokenStore) (p : UnlockProtocol)
      (w : W)
      → ((cast_vote audit_adder worm_unlock ecdsa_verify name req now tokens p w).0.accepted ≡ true)
        ↔ MayVote name req now tokens p w
  cast_vote-accepted name req now tokens p w = (
    λ h. elim (cast_vote-Decides name req now tokens p w) [
      | inl r ↦ absurd (false≢true (sym r.refused ∙ h))
      | inr (may, _) ↦ may
    ],
    MayVote-accepted name req now tokens p w,
  )
