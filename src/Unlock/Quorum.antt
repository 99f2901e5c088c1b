-- ===== src/Unlock/Quorum.antt =====
-- The quorum: the lock is lifted by threshold many approvers, and by nothing less.
use mathlib.Core.Bool.{false≢true}
use astartis_codex_control_p.Base.{
  ℕ, suc, ◌+◌, ◌≤◌, ◌<◌, String, ◌≡◌, refl, sym, ap, ◌∙◌, ◌≢◌, inl, inr, Bool, true, false, none,
  List, [], ◌∷◌, arith, eq_iff, is_some, Option-cases, if_cases, length, ℤ, Dict, lookup, insert,
  lookup-insert, values_where-insert, values_where-insert_new, length-insert,
}
use astartis_codex_control_p.Callbacks.{AuditAdder}
use astartis_codex_control_p.Crypto.{SignedRequest}
use astartis_codex_control_p.Tokens.{TokenStore}
use astartis_codex_control_p.Unlock.Protocol.{
  ApproverSide, VoteResult, ProtocolState, UnlockProtocol, collected, voted, touch, clear_votes,
  new_protocol, register_approver, open_session, idle, collecting, granted,
}
use astartis_codex_control_p.Unlock.{accept_vote, cast_vote}
use astartis_codex_control_p.Unlock.Voting.{Rejects, Decides, cast_vote-Decides}

-- Every registered approver has an entry in votes_ and nobody else has one, and the state tells
-- whether the votes reach the threshold.
pub record IsSound (p : UnlockProtocol) : Type 0 where
  pub positive : 0 < p.threshold
  pub known : (k : String) → is_some (lookup k p.votes) ≡ is_some (lookup k p.approvers)
  pub sized : length p.votes ≡ length p.approvers
  pub met : p.state ≡ granted → p.threshold ≤ collected p.votes
  pub unmet : p.state ≢ granted → collected p.votes < p.threshold

pub new_protocol-IsSound : (t : ℤ) → IsSound (new_protocol t)
unfolding new_protocol collected lookup
new_protocol-IsSound t = record {
  positive = ground arith;
  known = λ k. refl;
  sized = refl;
  met = λ h. cc;
  unmet = λ h. ground arith;
}

pub register-IsSound :
    (name : String) (side : ApproverSide) (key : List ℕ) (token_id : String) (p : UnlockProtocol)
    → IsSound p
    → IsSound (register_approver name side key token_id p)
unfolding register_approver collected
register-IsSound name side key token_id p h =
    if_cases IsSound (is_some (lookup name p.approvers)) _ _ (λ _. h)
      λ new.
        let fresh : lookup name p.votes ≡ none = ground (arith, h.known name) in
        let same = values_where-insert_new (λ b. b) name false p.votes fresh in
        record {
          positive = h.positive;
          known = λ k. ground (
            arith,
            h.known k,
            lookup-insert name k false p.votes,
            lookup-insert name k
                (record { name = name; side = side; public_key_der = key; token_id = token_id })
                p.approvers,
          );
          sized = ground (
            arith,
            h.sized,
            length-insert name false p.votes,
            length-insert name
                (record { name = name; side = side; public_key_der = key; token_id = token_id })
                p.approvers,
          );
          met = λ g. ground (arith, h.met g, same);
          unmet = λ g. ground (arith, h.unmet g, same);
        }

pub collected-clear : (votes : Dict Bool) → collected (clear_votes votes) ≡ 0
unfolding collected
collected-clear [] = refl
collected-clear ((k, b) ∷ votes) = collected-clear votes

known-clear :
    (k : String) (votes : Dict Bool)
    → is_some (lookup k (clear_votes votes)) ≡ is_some (lookup k votes)
unfolding lookup
known-clear k [] = refl
known-clear k ((j, b) ∷ votes) = ground (arith, known-clear k votes)

length-clear : (votes : Dict Bool) → length (clear_votes votes) ≡ length votes
length-clear [] = refl
length-clear ((k, b) ∷ votes) = ap suc (length-clear votes)

opened-IsSound :
    (p : UnlockProtocol)
    → IsSound p
    → IsSound (record p { votes = clear_votes p.votes; challenges = []; state = collecting })
opened-IsSound p h = record {
  positive = h.positive;
  known = λ k. known-clear k p.votes ∙ h.known k;
  sized = length-clear p.votes ∙ h.sized;
  met = λ g. cc;
  unmet = λ g. omega (arith, collected-clear p.votes, h.positive);
}

pub open_session-IsSound :
    (state : ProtocolState) (p : UnlockProtocol) → IsSound p → IsSound (open_session state p)
unfolding open_session
open_session-IsSound collecting p h = h
open_session-IsSound idle p h = opened-IsSound p h
open_session-IsSound granted p h = opened-IsSound p h

module _ {W : Type 0} (audit_adder : AuditAdder W) (worm_unlock : String → W → W)
    (ecdsa_verify : List ℕ → List ℕ → List ℕ → Bool) where
  pub touch_known :
      (name : String) (p : UnlockProtocol)
      → IsSound p
      → is_some (lookup name p.approvers) ≡ true
      → touch name p.votes ≡ p.votes
  unfolding touch
  touch_known name p h k = rw (h.known name ∙ k)

  rejected_votes :
      (p : UnlockProtocol) (r : VoteResult × UnlockProtocol × W)
      → IsSound p
      → Rejects audit_adder worm_unlock ecdsa_verify p r
      → r.1.votes ≡ p.votes
  rejected_votes p r h j = elim j.slots [
    | inl same ↦ same
    | inr (name, known, same) ↦ same ∙ touch_known name p h known
  ]

  reject-IsSound :
      (p : UnlockProtocol) (r : VoteResult × UnlockProtocol × W)
      → IsSound p
      → Rejects audit_adder worm_unlock ecdsa_verify p r
      → IsSound r.1
  reject-IsSound p r h j =
      let v = rejected_votes p r h j in
      record {
        positive = ground (arith, h.positive, j.same_threshold);
        known = λ k. rw (v, j.same_approvers) (h.known k);
        sized = rw (v, j.same_approvers) h.sized;
        met = λ g. rw (v, j.same_threshold) (h.met (sym j.same_state ∙ g));
        unmet = λ g. rw (v, j.same_threshold) (h.unmet (λ e. g (j.same_state ∙ e)));
      }

  -- The votes after an accepted vote: one more than before.
  pub collected-accept :
      (name : String) (votes : Dict Bool)
      → is_some (lookup name votes) ≡ true
      → voted name votes ≡ false
      → collected (insert name true votes) ≡ collected votes + 1
  unfolding collected voted
  collected-accept name votes known fresh = elim (Option-cases (lookup name votes)) [
    | inl gone ↦ absurd (false≢true (ap is_some (sym gone) ∙ known))
    | inr (b, found) ↦ ground (arith, values_where-insert (λ c. c) name true b votes found)
  ]

  pub accept-IsSound :
      (name : String) (p : UnlockProtocol) (w : W)
      → IsSound p
      → p.state ≡ collecting
      → is_some (lookup name p.approvers) ≡ true
      → voted name p.votes ≡ false
      → IsSound (accept_vote audit_adder worm_unlock ecdsa_verify name p w).1
  unfolding accept_vote
  accept-IsSound name p w h st found fresh =
      let known : is_some (lookup name p.votes) ≡ true = h.known name ∙ found in
      let more = collected-accept name p.votes known fresh in
      let before : collected p.votes < p.threshold = h.unmet (λ g. ground (arith, st, g)) in
      record {
        positive = ground (arith, h.positive);
        known =
            λ k. ground (arith, h.known k, known, lookup-insert name k true p.votes, eq_iff name k);
        sized = ground (arith, h.sized, known, length-insert name true p.votes);
        met = λ g. ground (arith, st, more);
        unmet = λ g. ground (arith, st, more);
      }

  pub cast_vote-IsSound :
      (name : String) (req : SignedRequest) (now : ℕ) (tokens : TokenStore) (p : UnlockProtocol)
      (w : W)
      → IsSound p
      → IsSound (cast_vote audit_adder worm_unlock ecdsa_verify name req now tokens p w).1
  cast_vote-IsSound name req now tokens p w h =
      decided (cast_vote audit_adder worm_unlock ecdsa_verify name req now tokens p w)
        (cast_vote-Decides audit_adder worm_unlock ecdsa_verify name req now tokens p w)
    where
      decided :
          (r : VoteResult × UnlockProtocol × W)
          → Decides audit_adder worm_unlock ecdsa_verify name req now tokens p w r
          → IsSound r.1
      decided r (inl j) = reject-IsSound p r h j
      decided r (inr ((st, (a, found, fresh, _, _)), (w', e))) =
          let known = ap is_some found in
          rw (e, touch_known name p h known) (accept-IsSound name p w' h st known fresh)
