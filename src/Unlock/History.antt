-- ===== src/Unlock/History.antt =====
-- The protocol over a history of calls.
use mathlib.Core.Bool.{false≢true}
use astartis_codex_control_p.Base.{
  ℕ, ◌+◌, ◌≤◌, ◌<◌, String, ◌≡◌, sym, ap, ◌∙◌, inl, inr, Bool, true, false, Option, none, some,
  List, [], ◌∷◌, arith, is_some, if_cases, Dict, lookup, insert,
}
use astartis_codex_control_p.Callbacks.{AuditAdder}
use astartis_codex_control_p.Result.{Result, ok, throws}
use astartis_codex_control_p.Crypto.{SignedRequest}
use astartis_codex_control_p.Tokens.{TokenStore}
use astartis_codex_control_p.Unlock.Protocol.{
  ApproverSide, VoteResult, UnlockProtocol, collected, voted, register_approver, begin_session,
  get_challenge, pending_challenge, collecting, granted,
}
use astartis_codex_control_p.Unlock.{close_vote, accept_vote, cast_vote}
use astartis_codex_control_p.Unlock.Voting.{Decides, cast_vote-Decides}
use astartis_codex_control_p.Unlock.Quorum.{
  collected-accept, IsSound, register-IsSound, open_session-IsSound, cast_vote-IsSound, touch_known,
}

-- The challenge calls change nothing but challenges_.
abbrev pub after_challenge : Result (List ℕ × UnlockProtocol) → UnlockProtocol → UnlockProtocol
after_challenge (ok r) p = r.1
after_challenge (throws e) p = p

IsSound-challenges :
    (p : UnlockProtocol) (c : Dict (List ℕ)) → IsSound p → IsSound (record p { challenges = c })
IsSound-challenges p c h = record {
  positive = h.positive;
  known = h.known;
  sized = h.sized;
  met = h.met;
  unmet = h.unmet;
}

pending-IsSound :
    (name : String) (o fresh : Option (List ℕ)) (p : UnlockProtocol)
    → IsSound p
    → IsSound (after_challenge (pending_challenge name o fresh p) p)
unfolding pending_challenge
pending-IsSound name (some bytes) fresh p h = h
pending-IsSound name none none p h = h
pending-IsSound name none (some bytes) p h = IsSound-challenges p _ h

get_challenge-IsSound :
    (name : String) (fresh : Option (List ℕ)) (p : UnlockProtocol)
    → IsSound p
    → IsSound (after_challenge (get_challenge name fresh p) p)
unfolding get_challenge
get_challenge-IsSound name fresh p h =
    if_cases (λ (r : Result (List ℕ × UnlockProtocol)). IsSound (after_challenge r p))
      (is_some (lookup name p.approvers)) _ _
      (λ _. pending-IsSound name (lookup name p.challenges) fresh p h) (λ _. h)

module _ {W : Type 0} (audit_adder : AuditAdder W) (worm_unlock : String → W → W)
    (ecdsa_verify : List ℕ → List ℕ → List ℕ → Bool) where
  pub data Call : Type 0 where
    registers : String → ApproverSide → List ℕ → String → Call
    begins : Call
    asks : String → Option (List ℕ) → Call
    votes : String → SignedRequest → ℕ → TokenStore → Call

  unfoldable pub step : Call → UnlockProtocol × W → UnlockProtocol × W
  step (registers name side key token_id) (p, w) = (register_approver name side key token_id p, w)
  step begins (p, w) = (begin_session p, w)
  step (asks name fresh) (p, w) = (after_challenge (get_challenge name fresh p) p, w)
  step (votes name req now tokens) (p, w) =
      let r = cast_vote audit_adder worm_unlock ecdsa_verify name req now tokens p w in (r.1, r.2)

  unfoldable pub run : List Call → UnlockProtocol × W → UnlockProtocol × W
  run [] s = s
  run (c ∷ cs) s = run cs (step c s)

  pub step-IsSound : (c : Call) (s : UnlockProtocol × W) → IsSound s.0 → IsSound (step c s).0
  unfolding step begin_session
  step-IsSound (registers name side key token_id) (p, w) h =
      register-IsSound name side key token_id p h
  step-IsSound begins (p, w) h = open_session-IsSound p.state p h
  step-IsSound (asks name fresh) (p, w) h = get_challenge-IsSound name fresh p h
  step-IsSound (votes name req now tokens) (p, w) h =
      cast_vote-IsSound audit_adder worm_unlock ecdsa_verify name req now tokens p w h

  pub run-IsSound : (cs : List Call) (s : UnlockProtocol × W) → IsSound s.0 → IsSound (run cs s).0
  unfolding run
  run-IsSound [] s h = h
  run-IsSound (c ∷ cs) s h = run-IsSound cs (step c s) (step-IsSound c s h)

  closes :
      (count : ℕ) (p : UnlockProtocol) (w : W)
      → (close_vote audit_adder worm_unlock ecdsa_verify count p w).0.unlocked ≡ true
      → ((close_vote audit_adder worm_unlock ecdsa_verify count p w).1.state ≡ granted)
        × (p.threshold ≤ count)
  unfolding close_vote
  closes count p w h = (ground arith, ground arith)

  filled :
      (name : String) (p : UnlockProtocol) (w : W)
      → IsSound p
      → p.state ≡ collecting
      → is_some (lookup name p.approvers) ≡ true
      → voted name p.votes ≡ false
      → (accept_vote audit_adder worm_unlock ecdsa_verify name p w).0.unlocked ≡ true
      → ((accept_vote audit_adder worm_unlock ecdsa_verify name p w).1.state ≡ granted)
        × (collected p.votes + 1 ≡ p.threshold)
  unfolding accept_vote
  filled name p w h st found fresh u =
      let more =
        collected-accept audit_adder worm_unlock ecdsa_verify name p.votes (h.known name ∙ found)
          fresh in
      let before : collected p.votes < p.threshold = h.unmet (λ g. ground (arith, st, g)) in
      let k = closes (collected (insert name true p.votes)) _ _ u in
      (k.0, omega (arith, more, before, k.1))

  -- In a protocol whose invariant holds, the vote that reports the unlock is the one that fills the
  -- quorum: a session was open, the state is GRANTED afterwards, and the votes collected before were
  -- one fewer than the threshold.
  pub cast_vote-unlocks :
      (name : String) (req : SignedRequest) (now : ℕ) (tokens : TokenStore) (p : UnlockProtocol)
      (w : W)
      → IsSound p
      → (cast_vote audit_adder worm_unlock ecdsa_verify name req now tokens p w).0.unlocked ≡ true
      → (p.state ≡ collecting)
        × ((cast_vote audit_adder worm_unlock ecdsa_verify name req now tokens p w).1.state
            ≡ granted)
        × (collected p.votes + 1 ≡ p.threshold)
  cast_vote-unlocks name req now tokens p w h =
      decided (cast_vote audit_adder worm_unlock ecdsa_verify name req now tokens p w)
        (cast_vote-Decides audit_adder worm_unlock ecdsa_verify name req now tokens p w)
    where
      decided :
          (r : VoteResult × UnlockProtocol × W)
          → Decides audit_adder worm_unlock ecdsa_verify name req now tokens p w r
          → r.0.unlocked ≡ true
          → (p.state ≡ collecting) × (r.1.state ≡ granted) × (collected p.votes + 1 ≡ p.threshold)
      decided r (inl j) u = absurd (false≢true (sym j.still_locked ∙ u))
      decided r (inr ((st, (a, found, fresh, _, _)), (w', e))) u =
          let known = ap is_some found in
          let e' =
            e
            ∙ ap
                (λ (v : Dict Bool).
                  accept_vote audit_adder worm_unlock ecdsa_verify name (record p { votes = v }) w')
                (touch_known audit_adder worm_unlock ecdsa_verify name p h known) in
          let k =
            filled name p w' h st known fresh
              (ap (λ (x : VoteResult × UnlockProtocol × W). x.0.unlocked) (sym e') ∙ u) in
          (st, ap (λ (x : VoteResult × UnlockProtocol × W). x.1.state) e' ∙ k.0, k.1)
