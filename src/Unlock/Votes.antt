-- ===== src/Unlock/Votes.antt =====
-- What a call does to the votes of the approvers.
use astartis_codex_control_p.Base.{
  ℕ, String, ◌≡◌, refl, Bool, true, false, Option, none, some, List, [], ◌∷◌, arith, ◌==◌, eq_iff,
  if◌then◌else◌, is_some, if_cases, Dict, lookup, insert, lookup-insert, lookup-erase,
}
use astartis_codex_control_p.Callbacks.{AuditAdder}
use astartis_codex_control_p.Result.{Result}
use astartis_codex_control_p.Unlock.Protocol.{
  UnlockProtocol, voted, clear_votes, get_challenge, pending_challenge,
}
use astartis_codex_control_p.Unlock.{close_vote, accept_vote}
use astartis_codex_control_p.Unlock.History.{after_challenge}

pub voted-insert :
    (name k : String) (b : Bool) (votes : Dict Bool)
    → voted k (insert name b votes) ≡ (if name == k then b else voted k votes)
unfolding voted
voted-insert name k b votes = ground (arith, lookup-insert name k b votes, eq_iff name k)

pub voted-clear : (k : String) (votes : Dict Bool) → voted k (clear_votes votes) ≡ false
unfolding voted lookup
voted-clear k [] = refl
voted-clear k ((j, b) ∷ votes) = ground (arith, voted-clear k votes)

pub voted-known :
    (k : String) (votes : Dict Bool) → voted k votes ≡ true → is_some (lookup k votes) ≡ true
unfolding voted
voted-known k votes h = ground (arith, h)

-- A call of get_challenge changes challenges_ only.
pub get_challenge-votes :
    (name : String) (fresh : Option (List ℕ)) (p : UnlockProtocol)
    → (let q = after_challenge (get_challenge name fresh p) p in
        (q.votes ≡ p.votes) × (q.approvers ≡ p.approvers) × (q.threshold ≡ p.threshold))
unfolding get_challenge pending_challenge
get_challenge-votes name fresh p =
    if_cases
      (λ (r : Result (List ℕ × UnlockProtocol)).
        let q = after_challenge r p in
        (q.votes ≡ p.votes) × (q.approvers ≡ p.approvers) × (q.threshold ≡ p.threshold))
      (is_some (lookup name p.approvers)) _ _ (λ _. pending (lookup name p.challenges) fresh)
      (λ _. (refl, refl, refl))
  where
    pending :
        (o drawn : Option (List ℕ))
        → (let q = after_challenge (pending_challenge name o drawn p) p in
            (q.votes ≡ p.votes) × (q.approvers ≡ p.approvers) × (q.threshold ≡ p.threshold))
    pending (some bytes) drawn = (refl, refl, refl)
    pending none none = (refl, refl, refl)
    pending none (some bytes) = (refl, refl, refl)

module _ {W : Type 0} (audit_adder : AuditAdder W) (worm_unlock : String → W → W)
    (ecdsa_verify : List ℕ → List ℕ → List ℕ → Bool) where
  pub accept_vote-votes :
      (name : String) (p : UnlockProtocol) (w : W)
      → (let r = accept_vote audit_adder worm_unlock ecdsa_verify name p w in
          (r.0.accepted ≡ true)
          × (r.1.votes ≡ insert name true p.votes)
          × (r.1.approvers ≡ p.approvers)
          × (r.1.threshold ≡ p.threshold)
          × (lookup name r.1.challenges ≡ none))
  unfolding accept_vote close_vote
  accept_vote-votes name p w = (
    ground arith,
    ground arith,
    ground arith,
    ground arith,
    ground (arith, lookup-erase name name p.challenges, eq_iff name name),
  )
