-- ===== src/Unlock/Ballots.antt =====
-- The quorum, against the votes that cast_vote has accepted.
use astartis_codex_control_p.Base.{
  ℕ, ◌≤◌, String, ◌≡◌, refl, sym, ap, ◌∙◌, inl, inr, Bool, true, false, none, List, [], ◌∷◌, arith,
  eq_iff, if◌then◌else◌, is_some, Bool-cases, has_text, length, ℤ, Dict, lookup, insert,
  values_where-insert_new,
}
use astartis_codex_control_p.Callbacks.{AuditAdder}
use astartis_codex_control_p.Crypto.{SignedRequest}
use astartis_codex_control_p.Tokens.{TokenStore}
use astartis_codex_control_p.Unlock.Protocol.{
  ApproverSide, VoteResult, ProtocolState, UnlockProtocol, collected, voted, new_protocol,
  register_approver, open_session, begin_session, get_challenge, idle, collecting, granted,
}
use astartis_codex_control_p.Unlock.{accept_vote, cast_vote}
use astartis_codex_control_p.Unlock.Voting.{Decides, cast_vote-Decides}
use astartis_codex_control_p.Unlock.Quorum.{
  IsSound, collected-clear, collected-accept, new_protocol-IsSound, touch_known,
}
use astartis_codex_control_p.Unlock.Votes.{
  voted-insert, voted-clear, voted-known, get_challenge-votes, accept_vote-votes,
}
use astartis_codex_control_p.Unlock.History.{
  Call, registers, begins, asks, votes, step, run, step-IsSound, after_challenge,
}

abbrev pub AreDistinct : List String → Type 0
AreDistinct [] = Unit {0}
AreDistinct (x ∷ xs) = (has_text x xs ≡ false) × AreDistinct xs

-- The accepted votes at a call of begin_session: a new session starts without any.
unfoldable pub reopened : ProtocolState → List String → List String
reopened collecting names = names
reopened idle names = []
reopened granted names = []

-- `names` are the approvers whose votes were accepted in this session.
record IsTallied (t : ℕ) (p : UnlockProtocol) (names : List String) : Type 0 where
  pub sound : IsSound p
  pub same : p.threshold ≡ t
  pub counted : collected p.votes ≡ length names
  pub told : (k : String) → voted k p.votes ≡ has_text k names
  pub distinct : AreDistinct names

new_protocol-IsTallied : (t : ℤ) → IsTallied (new_protocol t).threshold (new_protocol t) []
unfolding new_protocol collected voted lookup has_text
new_protocol-IsTallied t = record {
  sound = new_protocol-IsSound t;
  same = refl;
  counted = refl;
  told = λ k. refl;
  distinct = tt;
}

-- A call that keeps the votes.
kept :
    {t : ℕ} {names : List String} (p q : UnlockProtocol)
    → IsSound q
    → q.threshold ≡ p.threshold
    → collected q.votes ≡ collected p.votes
    → ((k : String) → voted k q.votes ≡ voted k p.votes)
    → IsTallied t p names
    → IsTallied t q names
kept p q sound same count each h = record {
  sound = sound;
  same = same ∙ h.same;
  counted = count ∙ h.counted;
  told = λ k. each k ∙ h.told k;
  distinct = h.distinct;
}

register-IsTallied :
    {t : ℕ} {names : List String} (name : String) (side : ApproverSide) (key : List ℕ)
    (token_id : String) (p : UnlockProtocol)
    → IsSound (register_approver name side key token_id p)
    → IsTallied t p names
    → IsTallied t (register_approver name side key token_id p) names
unfolding register_approver collected voted
register-IsTallied {t} {names} name side key token_id p sound h =
    elim (Bool-cases (is_some (lookup name p.approvers))) [
      | inl known ↦ rw known h
      | inr new ↦
          let fresh : lookup name p.votes ≡ none = ground (arith, h.sound.known name, new) in
          kept p (register_approver name side key token_id p) sound (rw new refl)
            (rw new (values_where-insert_new (λ b. b) name false p.votes fresh ∙ omega arith))
            (λ k. rw new (ground (arith, voted-insert name k false p.votes, fresh, eq_iff name k)))
            h
    ]

open_session-IsTallied :
    {t : ℕ} {names : List String} (state : ProtocolState) (p : UnlockProtocol)
    → IsSound (open_session state p)
    → IsTallied t p names
    → IsTallied t (open_session state p) (reopened state names)
unfolding open_session reopened has_text
open_session-IsTallied collecting p sound h = h
open_session-IsTallied idle p sound h = record {
  sound = sound;
  same = h.same;
  counted = collected-clear p.votes;
  told = λ k. voted-clear k p.votes;
  distinct = tt;
}
open_session-IsTallied granted p sound h = record {
  sound = sound;
  same = h.same;
  counted = collected-clear p.votes;
  told = λ k. voted-clear k p.votes;
  distinct = tt;
}

module _ {W : Type 0} (audit_adder : AuditAdder W) (worm_unlock : String → W → W)
    (ecdsa_verify : List ℕ → List ℕ → List ℕ → Bool) where
  -- The approvers whose votes were accepted since the last session was opened, the latest first.
  unfoldable pub ballot :
      Call audit_adder worm_unlock ecdsa_verify → UnlockProtocol × W → List String → List String
  unfolding reopened
  ballot (registers name side key token_id) s names = names
  ballot begins (p, w) names = reopened p.state names
  ballot (asks name fresh) s names = names
  ballot (votes name req now tokens) (p, w) names =
      if (cast_vote audit_adder worm_unlock ecdsa_verify name req now tokens p w).0.accepted
      then name ∷ names
      else names

  unfoldable pub ballots :
      List (Call audit_adder worm_unlock ecdsa_verify)
      → UnlockProtocol × W
      → List String
      → List String
  unfolding ballot
  ballots [] s names = names
  ballots (c ∷ cs) s names =
      ballots cs (step audit_adder worm_unlock ecdsa_verify c s) (ballot c s names)

  accept-IsTallied :
      {t : ℕ} {names : List String} (name : String) (p : UnlockProtocol) (w : W)
      (r : VoteResult × UnlockProtocol × W)
      → r ≡ accept_vote audit_adder worm_unlock ecdsa_verify name p w
      → IsSound r.1
      → is_some (lookup name p.approvers) ≡ true
      → voted name p.votes ≡ false
      → IsTallied t p names
      → IsTallied t r.1 (if r.0.accepted then name ∷ names else names)
  unfolding has_text
  accept-IsTallied {names = names} name p w r e sound found fresh h =
      let a = accept_vote-votes audit_adder worm_unlock ecdsa_verify name p w in
      let vs : r.1.votes ≡ insert name true p.votes =
        ap (λ (x : VoteResult × UnlockProtocol × W). x.1.votes) e ∙ a.1 in
      let more =
        collected-accept audit_adder worm_unlock ecdsa_verify name p.votes
          (h.sound.known name ∙ found) fresh in
      let yes : r.0.accepted ≡ true =
        ap (λ (x : VoteResult × UnlockProtocol × W). x.0.accepted) e ∙ a.0 in
      rw yes (record {
        sound = sound;
        same = ap (λ (x : VoteResult × UnlockProtocol × W). x.1.threshold) e ∙ a.3 ∙ h.same;
        counted = ap collected vs ∙ omega (arith, more, h.counted);
        told = λ k. ap (voted k) vs ∙ ground (arith, voted-insert name k true p.votes, h.told k);
        distinct = (sym (h.told name) ∙ fresh, h.distinct);
      })

  vote-IsTallied :
      {t : ℕ} {names : List String} (name : String) (req : SignedRequest) (now : ℕ)
      (tokens : TokenStore) (p : UnlockProtocol) (w : W) (r : VoteResult × UnlockProtocol × W)
      → Decides audit_adder worm_unlock ecdsa_verify name req now tokens p w r
      → IsSound r.1
      → IsTallied t p names
      → IsTallied t r.1 (if r.0.accepted then name ∷ names else names)
  vote-IsTallied name req now tokens p w r (inl j) sound h =
      rw (j.refused) (kept p r.1 sound j.same_threshold j.same_count j.same_votes h)
  vote-IsTallied name req now tokens p w r (inr ((st, (a, found, fresh, _, _)), (w', e))) sound h =
      let known = ap is_some found in
      accept-IsTallied name p w' r
        (e
          ∙ ap
              (λ (v : Dict Bool).
                accept_vote audit_adder worm_unlock ecdsa_verify name (record p { votes = v }) w')
              (touch_known audit_adder worm_unlock ecdsa_verify name p h.sound known))
        sound known fresh h

  step-IsTallied :
      {t : ℕ} {names : List String} (c : Call audit_adder worm_unlock ecdsa_verify)
      (s : UnlockProtocol × W)
      → IsTallied t s.0 names
      → IsTallied t (step audit_adder worm_unlock ecdsa_verify c s).0 (ballot c s names)
  unfolding step ballot begin_session
  step-IsTallied (registers name side key token_id) (p, w) h =
      register-IsTallied name side key token_id p
        (step-IsSound audit_adder worm_unlock ecdsa_verify (registers name side key token_id) (p, w)
          h.sound)
        h
  step-IsTallied begins (p, w) h =
      open_session-IsTallied p.state p
        (step-IsSound audit_adder worm_unlock ecdsa_verify begins (p, w) h.sound) h
  step-IsTallied (asks name fresh) (p, w) h =
      let q = after_challenge (get_challenge name fresh p) p in
      let same = get_challenge-votes name fresh p in
      kept p q (step-IsSound audit_adder worm_unlock ecdsa_verify (asks name fresh) (p, w) h.sound)
        same.2 (ap collected same.0) (λ k. ap (voted k) same.0) h
  step-IsTallied (votes name req now tokens) (p, w) h =
      vote-IsTallied name req now tokens p w
        (cast_vote audit_adder worm_unlock ecdsa_verify name req now tokens p w)
        (cast_vote-Decides audit_adder worm_unlock ecdsa_verify name req now tokens p w)
        (step-IsSound audit_adder worm_unlock ecdsa_verify (votes name req now tokens) (p, w)
          h.sound)
        h

  run-IsTallied :
      {t : ℕ} (cs : List (Call audit_adder worm_unlock ecdsa_verify)) (s : UnlockProtocol × W)
      {names : List String}
      → IsTallied t s.0 names
      → IsTallied t (run audit_adder worm_unlock ecdsa_verify cs s).0 (ballots cs s names)
  unfolding run ballots
  run-IsTallied [] s h = h
  run-IsTallied {t} (c ∷ cs) s {names} h =
      run-IsTallied cs (step audit_adder worm_unlock ecdsa_verify c s) (step-IsTallied c s h)

  -- Whatever is called on a new protocol, if it stands at GRANTED then, since the last session was
  -- opened, cast_vote has accepted the votes of at least as many approvers as the threshold that the
  -- protocol was constructed with; they are all registered, and no two of them are the same.
  pub run_new-quorum :
      (t : ℤ) (cs : List (Call audit_adder worm_unlock ecdsa_verify)) (w : W)
      → (run audit_adder worm_unlock ecdsa_verify cs (new_protocol t, w)).0.state ≡ granted
      → (let names = ballots cs (new_protocol t, w) [] in
          ((new_protocol t).threshold ≤ length names)
          × AreDistinct names
          × ((k : String)
              → has_text k names ≡ true
              → is_some (
                  lookup k
                    (run audit_adder worm_unlock ecdsa_verify cs (new_protocol t, w)).0.approvers)
                ≡ true))
  run_new-quorum t cs w g =
      let p = (run audit_adder worm_unlock ecdsa_verify cs (new_protocol t, w)).0 in
      let h = run-IsTallied cs (new_protocol t, w) (new_protocol-IsTallied t) in
      (
        omega (arith, h.sound.met g, h.counted, h.same),
        h.distinct,
        λ k e. sym (h.sound.known k) ∙ voted-known k p.votes (h.told k ∙ e),
      )
