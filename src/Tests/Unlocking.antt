-- ===== src/Tests/Unlocking.antt =====
-- Two approvers out of two lift the lock of a world. A signature is good here when it is the key.
use astartis_codex_control_p.Base.{
  ℕ, ◌+◌, ◌≤◌, String, ◌≡◌, refl, ◌↔◌, Bool, true, false, none, some, List, [], ◌∷◌, ◌++◌, is_some,
  has_text, length, bytes_eq, lookup, insert, erase, pos,
}
use astartis_codex_control_p.Crypto.{verify_signed_request, SignedRequest}
use astartis_codex_control_p.Tokens.{check_access, TokenStore}
use astartis_codex_control_p.Unlock.Protocol.{
  register_approver, begin_session, get_challenge, UnlockProtocol, new_protocol, collected,
  astartis, client, collecting, granted,
}
use astartis_codex_control_p.Unlock.{cast_vote}
use astartis_codex_control_p.Unlock.History.{
  step, Call, registers, begins, asks, votes, run, run-IsSound, cast_vote-unlocks,
}
use astartis_codex_control_p.Unlock.Ballots.{AreDistinct, ballots, run_new-quorum}
use astartis_codex_control_p.Unlock.Once.{KeepsSession, cast_vote-once}
use astartis_codex_control_p.Worm.{is_locked, locked}
use astartis_codex_control_p.System.{World, worm_unlock}
use astartis_codex_control_p.Audit.{empty_chain}
use astartis_codex_control_p.Unlock.Voting.{MayVote, cast_vote-accepted}
use astartis_codex_control_p.Unlock.Quorum.{IsSound, new_protocol-IsSound}
use astartis_codex_control_p.Tests.Fixtures.{host, adder}

abbrev good : List ℕ → List ℕ → List ℕ → Bool
good message signature key = bytes_eq signature key

abbrev opener : String → World → World
opener = worm_unlock host

abbrev tokens : TokenStore
tokens = record {
  tokens =
      (
        "t1",
        record {
          token = record {
            token_id = "t1";
            identity_name = "ada";
            scope = "worm_unlock_vote";
            granted_at_ms = 0;
            expires_at_ms = 900;
          };
          revoked = false;
        },
      )
      ∷ (
        "t2",
        record {
          token = record {
            token_id = "t2";
            identity_name = "bob";
            scope = "worm_unlock_vote";
            granted_at_ms = 0;
            expires_at_ms = 900;
          };
          revoked = false;
        },
      )
      ∷ [];
  total_granted = 2;
}

abbrev answer : String → ℕ → ℕ → SignedRequest
answer name challenge key = record {
  identity_name = name;
  challenge = challenge ∷ [];
  timestamp_ms = 100;
  signature = key ∷ [];
}

abbrev locked_world : World
locked_world = record {
  worm = record { state = locked; lock_reason = "drill"; lockdown_count = 1 };
  audit = empty_chain;
}

abbrev opened : List (Call adder opener good)
opened =
    registers "ada" astartis (1 ∷ []) "t1"
    ∷ registers "bob" client (2 ∷ []) "t2"
    ∷ begins
    ∷ asks "ada" (some (7 ∷ []))
    ∷ asks "bob" (some (8 ∷ []))
    ∷ []

abbrev first_vote : Call adder opener good
first_vote = votes "ada" (answer "ada" 7 1) 100 tokens

abbrev before_votes : UnlockProtocol × World
before_votes = run adder opener good opened (new_protocol (pos 2), locked_world)

abbrev after_one : UnlockProtocol × World
after_one = run adder opener good (opened ++ first_vote ∷ []) (new_protocol (pos 2), locked_world)

abbrev all_calls : List (Call adder opener good)
all_calls = opened ++ first_vote ∷ votes "bob" (answer "bob" 8 2) 100 tokens ∷ []

all_granted :
    (run adder opener good all_calls (new_protocol (pos 2), locked_world)).0.state ≡ granted
unfolding run step cast_vote get_challenge lookup begin_session register_approver new_protocol
    insert check_access verify_signed_request bytes_eq erase
all_granted = refl

run_new-quorum_example :
    (let names = ballots adder opener good all_calls (new_protocol (pos 2), locked_world) [] in
      ((new_protocol (pos 2)).threshold ≤ length names)
      × AreDistinct names
      × ((k : String)
          → has_text k names ≡ true
          → is_some (
              lookup k
                (run adder opener good all_calls (new_protocol (pos 2), locked_world)).0.approvers)
            ≡ true))
run_new-quorum_example = run_new-quorum adder opener good (pos 2) all_calls locked_world all_granted

bob_and_ada :
    ballots adder opener good all_calls (new_protocol (pos 2), locked_world) [] ≡ "bob" ∷ "ada" ∷ []
unfolding ballots run step cast_vote get_challenge lookup begin_session register_approver
    new_protocol insert check_access verify_signed_request bytes_eq erase
bob_and_ada = refl

cast_vote-accepted_example :
    ((cast_vote adder opener good "ada"
        (answer "ada" 7 1)
        100
        tokens
        before_votes.0
        before_votes.1).0.accepted
      ≡ true)
    ↔ MayVote adder opener good "ada" (answer "ada" 7 1) 100 tokens before_votes.0 before_votes.1
cast_vote-accepted_example =
    cast_vote-accepted adder opener good "ada" (answer "ada" 7 1) 100 tokens before_votes.0
      before_votes.1

after_one-IsSound : IsSound after_one.0
after_one-IsSound =
    run-IsSound adder opener good (opened ++ first_vote ∷ []) (new_protocol (pos 2), locked_world)
      (new_protocol-IsSound (pos 2))

second_unlocks :
    (cast_vote adder opener good "bob"
      (answer "bob" 8 2)
      100
      tokens
      after_one.0
      after_one.1).0.unlocked
    ≡ true
unfolding run cast_vote step get_challenge lookup begin_session register_approver new_protocol
    insert check_access verify_signed_request bytes_eq erase
second_unlocks = refl

cast_vote-unlocks_example :
    (after_one.0.state ≡ collecting)
    × ((cast_vote adder opener good "bob"
          (answer "bob" 8 2)
          100
          tokens
          after_one.0
          after_one.1).1.state
        ≡ granted)
    × (collected after_one.0.votes + 1 ≡ after_one.0.threshold)
cast_vote-unlocks_example =
    cast_vote-unlocks adder opener good "bob" (answer "bob" 8 2) 100 tokens after_one.0 after_one.1
      after_one-IsSound second_unlocks

first_accepted :
    (cast_vote adder opener good "ada"
      (answer "ada" 7 1)
      100
      tokens
      before_votes.0
      before_votes.1).0.accepted
    ≡ true
unfolding run cast_vote step get_challenge lookup begin_session register_approver new_protocol
    insert check_access verify_signed_request bytes_eq
first_accepted = refl

abbrev first_result : UnlockProtocol
first_result =
    (cast_vote adder opener good "ada" (answer "ada" 7 1) 100 tokens before_votes.0
      before_votes.1).1

abbrev meanwhile : List (Call adder opener good)
meanwhile = begins ∷ asks "ada" (some (9 ∷ [])) ∷ registers "ada" astartis (1 ∷ []) "t1" ∷ []

still_open : KeepsSession adder opener good meanwhile (first_result, locked_world)
unfolding run cast_vote step get_challenge lookup begin_session register_approver new_protocol
    insert check_access verify_signed_request bytes_eq
still_open = (refl, tt)

cast_vote-once_example :
    (lookup "ada" first_result.challenges ≡ none)
    × ((cast_vote adder opener good "ada"
          (answer "ada" 9 1)
          200
          tokens
          (run adder opener good meanwhile (first_result, locked_world)).0
          locked_world).0.accepted
        ≡ false)
cast_vote-once_example =
    cast_vote-once adder opener good "ada" (answer "ada" 7 1) (answer "ada" 9 1) 100 200 tokens
      tokens before_votes.0 before_votes.1 meanwhile locked_world locked_world first_accepted
      still_open

abbrev StaysLocked : World → Type 0
StaysLocked w = is_locked w.worm ≡ true

audit-StaysLocked : (t s : String) (w : World) → StaysLocked w → StaysLocked (adder t s w).1
audit-StaysLocked t s w h = h

first_waits :
    (cast_vote adder opener good "ada"
      (answer "ada" 7 1)
      100
      tokens
      before_votes.0
      before_votes.1).0.unlocked
    ≡ false
unfolding run cast_vote step get_challenge lookup begin_session register_approver new_protocol
    insert check_access verify_signed_request bytes_eq
first_waits = refl

still_locked : StaysLocked before_votes.1
unfolding run is_locked step
still_locked = refl
