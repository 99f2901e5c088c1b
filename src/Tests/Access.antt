-- ===== src/Tests/Access.antt =====
-- Tokens and signed requests.
use astartis_codex_control_p.Base.{
  ◌≡◌, refl, ◌≢◌, ◌↔◌, true, false, some, List, [], ◌∷◌, arith, eq_iff, hex_bytes, lookup, insert,
  pos,
}
use astartis_codex_control_p.Callbacks.{Log, logging}
use astartis_codex_control_p.Result.{ok}
use astartis_codex_control_p.Tokens.{
  StoredToken, AccessToken, TokenStore, new_store, issue, store_token, grant, revoke, check_access,
}
use astartis_codex_control_p.Tokens.Access.{Permits, check_access-granted}
use astartis_codex_control_p.Tokens.Lifetime.{Call, grants, revokes, run, revoke-final}

abbrev issued : AccessToken × TokenStore × Log
issued = store_token logging (issue "0a0b" "ada" "read" 60 1000) (pos 60) new_store []

is_issued : grant logging "ada" "read" (pos 60) (some (10 ∷ 11 ∷ [])) 1000 new_store [] ≡ ok issued
unfolding grant store_token hex_bytes
is_issued = refl

check_access-granted_example :
    ((check_access logging "0a0b" "read" 1010 issued.1 []).0.granted ≡ true)
    ↔ Permits logging "0a0b" "read" 1010 (lookup "0a0b" issued.1.tokens)
check_access-granted_example = check_access-granted logging "0a0b" "read" 1010 issued.1 []

abbrev later_calls : List (Call logging)
later_calls = grants "eve" "read" (pos 5) (some (12 ∷ [])) 1020 ∷ revokes "0c" "expired" ∷ []

other_id : hex_bytes (12 ∷ []) ≢ "0a0b"
unfolding hex_bytes
other_id e = ground (arith, e, eq_iff "0c" "0a0b")

is_revoked : (revoke logging "0a0b" "lost" issued.1 []).0 ≡ true
unfolding revoke lookup store_token insert issue
is_revoked = refl

revoke-final_example :
    ((st : StoredToken) × (lookup "0a0b" issued.1.tokens ≡ some st) × (st.revoked ≡ false))
    × ((check_access logging "0a0b" "read" 1030
          (run logging later_calls (
            (revoke logging "0a0b" "lost" issued.1 []).1,
            (revoke logging "0a0b" "lost" issued.1 []).2,
          )).0
          []).0.granted
        ≡ false)
revoke-final_example =
    revoke-final logging "0a0b" "lost" issued.1 [] later_calls "read" 1030 [] is_revoked
      (other_id, tt)
