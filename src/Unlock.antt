-- ===== src/Unlock.antt =====
-- astartis/core/unlock_protocol: votes of registered approvers that lift the WORM lock. The token
-- store is another object that the protocol only reads; the clock reading of a vote and the bytes
-- of a fresh challenge are arguments (`none` where RAND_bytes fails; the exception that is thrown
-- then carries no text of OpenSSL's).
pub mod Protocol
pub mod Voting
pub mod Quorum
pub mod History
pub mod Votes
pub mod Ballots
pub mod Once
pub mod Outside
use astartis_codex_control_p.Base.{
  ℕ, String, Bool, true, false, Option, none, some, List, [], ◌∷◌, leb, if◌then◌else◌, concat,
  nat_text, lookup, insert, erase,
}
use astartis_codex_control_p.Callbacks.{AuditAdder}
use astartis_codex_control_p.Result.{ok}
use astartis_codex_control_p.Crypto.{SignedRequest, verify_signed_request}
use astartis_codex_control_p.Tokens.{AccessResult, TokenStore, check_access}
use astartis_codex_control_p.Unlock.Protocol.{
  ApproverRecord, VoteResult, ProtocolState, UnlockProtocol, collected, voted, touch, idle,
  collecting, granted,
}

module _ {W : Type 0} (audit_adder : AuditAdder W) (worm_unlock : String → W → W)
    (ecdsa_verify : List ℕ → List ℕ → List ℕ → Bool) where
  -- The lambda `reject` of cast_vote.
  unfoldable pub reject :
      String → List String → UnlockProtocol → W → VoteResult × UnlockProtocol × W
  reject approver_name reason p w = (
    record {
      accepted = false;
      reason = concat reason;
      votes_now = collected p.votes;
      threshold = p.threshold;
      unlocked = false;
    },
    p,
    (audit_adder "worm_unlock_vote_rejected"
        (concat ("approver=" ∷ approver_name ∷ " reason=" ∷ concat reason ∷ [])) w).1,
  )

  -- Steps 6 and 7: accept the vote and check the threshold.
  unfoldable pub close_vote : ℕ → UnlockProtocol → W → VoteResult × UnlockProtocol × W
  close_vote count p w =
      if leb p.threshold count
      then (
        record {
          accepted = true;
          reason = "ok";
          votes_now = count;
          threshold = p.threshold;
          unlocked = true;
        },
        record p { state = granted },
        worm_unlock "12eye_protocol_demo_scale"
            (audit_adder "worm_unlock_granted"
              (concat ("votes=" ∷ nat_text count ∷ " threshold=" ∷ nat_text p.threshold ∷ [])) w).1,
      )
      else (
        record {
          accepted = true;
          reason = "ok";
          votes_now = count;
          threshold = p.threshold;
          unlocked = false;
        },
        p,
        w,
      )

  unfoldable pub accept_vote : String → UnlockProtocol → W → VoteResult × UnlockProtocol × W
  unfolding close_vote collected
  accept_vote approver_name p w =
      let votes = insert approver_name true p.votes in
      let count = collected votes in
      close_vote count (record p { votes = votes; challenges = erase approver_name p.challenges })
        (audit_adder "worm_unlock_vote"
          (concat (
            "approver="
            ∷ approver_name
            ∷ " votes_now="
            ∷ nat_text count
            ∷ "/"
            ∷ nat_text p.threshold
            ∷ []))
          w).1

  -- Step 5: the signature over the pending challenge.
  unfoldable pub verify_vote :
      String
      → ApproverRecord
      → SignedRequest
      → Option (List ℕ)
      → UnlockProtocol
      → W
      → VoteResult × UnlockProtocol × W
  unfolding accept_vote reject
  verify_vote approver_name a signed_req none p w =
      reject approver_name ("no_challenge_issued" ∷ []) p w
  verify_vote approver_name a signed_req (some challenge) p w =
      if verify_signed_request ecdsa_verify signed_req challenge a.public_key_der
      then accept_vote approver_name p w
      else reject approver_name ("bad_signature" ∷ []) p w

  -- Step 4: the scope token.
  unfoldable pub scope_vote :
      String
      → ApproverRecord
      → SignedRequest
      → AccessResult × W
      → UnlockProtocol
      → VoteResult × UnlockProtocol × W
  unfolding verify_vote
  scope_vote approver_name a signed_req (access, w) p =
      if access.granted
      then verify_vote approver_name a signed_req (lookup approver_name p.challenges) p w
      else reject approver_name ("scope_denied:" ∷ access.reason ∷ []) p w

  -- Steps 2 and 3: the approver is registered and has not voted.
  unfoldable pub approver_vote :
      String
      → Option ApproverRecord
      → SignedRequest
      → ℕ
      → TokenStore
      → UnlockProtocol
      → W
      → VoteResult × UnlockProtocol × W
  unfolding scope_vote touch voted
  approver_vote approver_name none signed_req now tokens p w =
      reject approver_name ("unknown_approver" ∷ []) p w
  approver_vote approver_name (some a) signed_req now tokens p w =
      let p' = record p { votes = touch approver_name p.votes } in
      if voted approver_name p.votes
      then reject approver_name ("duplicate" ∷ []) p' w
      else scope_vote approver_name a signed_req
          (check_access audit_adder a.token_id "worm_unlock_vote" now tokens w) p'

  -- Step 1: a session is open.
  unfoldable pub vote_in :
      ProtocolState
      → String
      → SignedRequest
      → ℕ
      → TokenStore
      → UnlockProtocol
      → W
      → VoteResult × UnlockProtocol × W
  unfolding approver_vote
  vote_in idle approver_name signed_req now tokens p w =
      reject approver_name ("not_collecting" ∷ []) p w
  vote_in granted approver_name signed_req now tokens p w =
      reject approver_name ("already_granted" ∷ []) p w
  vote_in collecting approver_name signed_req now tokens p w =
      approver_vote approver_name (lookup approver_name p.approvers) signed_req now tokens p w

  unfoldable pub cast_vote :
      String → SignedRequest → ℕ → TokenStore → UnlockProtocol → W → VoteResult × UnlockProtocol × W
  unfolding vote_in
  cast_vote approver_name signed_req now tokens p w =
      vote_in p.state approver_name signed_req now tokens p w
