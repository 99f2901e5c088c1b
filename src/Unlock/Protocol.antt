-- ===== src/Unlock/Protocol.antt =====
-- astartis/core/unlock_protocol: the protocol, its approvers and its challenges.
use astartis_codex_control_p.Base.{
  ℕ, String, Bool, false, Option, none, some, List, [], ◌∷◌, if◌then◌else◌, is_some, pos_part,
  ltb_ℤ, ℤ, Dict, lookup, insert, values_where, pos,
}
use astartis_codex_control_p.Result.{Result, ok, throws, runtime_error}

pub data ApproverSide : Type 0 where
  astartis client : ApproverSide

pub record ApproverRecord : Type 0 where
  pub name : String
  pub side : ApproverSide
  pub public_key_der : List ℕ
  pub token_id : String

pub record VoteResult : Type 0 where
  pub accepted : Bool
  pub reason : String
  pub votes_now : ℕ
  pub threshold : ℕ
  pub unlocked : Bool

pub data ProtocolState : Type 0 where
  idle collecting granted : ProtocolState

pub record ApproverStatus : Type 0 where
  pub name : String
  pub side : ApproverSide
  pub voted : Bool

pub record UnlockStatus : Type 0 where
  pub state : ProtocolState
  pub votes_collected : ℕ
  pub threshold : ℕ
  pub approvers : List ApproverStatus

pub record UnlockProtocol : Type 0 where
  pub threshold : ℕ
  pub state : ProtocolState
  pub approvers : Dict ApproverRecord
  pub challenges : Dict (List ℕ)
  pub votes : Dict Bool

abbrev pub demo_threshold : ℕ
demo_threshold = 3

-- The constructor.
unfoldable pub new_protocol : ℤ → UnlockProtocol
new_protocol threshold = record {
  threshold = if ltb_ℤ (pos 0) threshold then pos_part threshold else demo_threshold;
  state = idle;
  approvers = [];
  challenges = [];
  votes = [];
}

-- std::count_if over votes_
unfoldable pub collected : Dict Bool → ℕ
collected votes = values_where (λ b. b) votes

unfoldable pub votes_collected : UnlockProtocol → ℕ
unfolding collected
votes_collected p = collected p.votes

-- votes_[name], which enters `false` for a name that is not there
unfoldable pub voted : String → Dict Bool → Bool
voted name votes = elim (lookup name votes) [ none ↦ false | some b ↦ b ]

unfoldable pub touch : String → Dict Bool → Dict Bool
touch name votes = if is_some (lookup name votes) then votes else insert name false votes

unfoldable pub register_approver :
    String → ApproverSide → List ℕ → String → UnlockProtocol → UnlockProtocol
register_approver name side public_key_der token_id p =
    if is_some (lookup name p.approvers) then p else record p {
      approvers =
          insert name
            (record {
              name = name;
              side = side;
              public_key_der = public_key_der;
              token_id = token_id;
            })
            p.approvers;
      votes = insert name false p.votes;
    }

abbrev pub clear_votes : Dict Bool → Dict Bool
clear_votes [] = []
clear_votes ((name, b) ∷ votes) = (name, false) ∷ clear_votes votes

unfoldable pub open_session : ProtocolState → UnlockProtocol → UnlockProtocol
open_session collecting p = p
open_session _ p = record p { votes = clear_votes p.votes; challenges = []; state = collecting }

unfoldable pub begin_session : UnlockProtocol → UnlockProtocol
unfolding open_session
begin_session p = open_session p.state p

-- crypto::generate_challenge(32)
unfoldable pub generate_challenge : Option (List ℕ) → Result (List ℕ)
generate_challenge none = throws (runtime_error "RAND_bytes failed")
generate_challenge (some bytes) = ok bytes

unfoldable pub issue_challenge :
    String → Result (List ℕ) → UnlockProtocol → Result (List ℕ × UnlockProtocol)
issue_challenge name (throws e) p = throws e
issue_challenge name (ok bytes) p =
    ok (bytes, record p { challenges = insert name bytes p.challenges })

unfoldable pub pending_challenge :
    String → Option (List ℕ) → Option (List ℕ) → UnlockProtocol → Result (List ℕ × UnlockProtocol)
unfolding issue_challenge generate_challenge
pending_challenge name (some bytes) fresh p = ok (bytes, p)
pending_challenge name none fresh p = issue_challenge name (generate_challenge fresh) p

unfoldable pub get_challenge :
    String → Option (List ℕ) → UnlockProtocol → Result (List ℕ × UnlockProtocol)
unfolding pending_challenge
get_challenge approver_name fresh p =
    if is_some (lookup approver_name p.approvers)
    then pending_challenge approver_name (lookup approver_name p.challenges) fresh p
    else ok ([], p)

status_of : Dict Bool → Dict ApproverRecord → List ApproverStatus
unfolding voted
status_of votes [] = []
status_of votes ((name, a) ∷ approvers) =
    record { name = name; side = a.side; voted = voted name votes } ∷ status_of votes approvers

unfoldable pub status : UnlockProtocol → UnlockStatus
unfolding status_of collected
status p = record {
  state = p.state;
  votes_collected = collected p.votes;
  threshold = p.threshold;
  approvers = status_of p.votes p.approvers;
}
