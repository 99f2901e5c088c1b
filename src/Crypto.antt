-- ===== src/Crypto.antt =====
-- astartis/core/crypto_identity: the message that is signed for a request, and its verification.
-- ECDSA is OpenSSL's: `ecdsa_verify message signature public_key_der` is the answer of
-- Identity::verify.
use astartis_codex_control_p.Base.{
  ℕ, zero, suc, ◌/◌, ◌%◌, ◌^◌, String, ◌≡◌, ◌↔◌, Bool, true, false, List, [], ◌∷◌, ◌++◌, arith,
  if◌then◌else◌, utf8_bytes, bytes_eq, bytes_eq→eq, bytes_eq_refl,
}

pub record SignedRequest : Type 0 where
  pub identity_name : String
  pub challenge : List ℕ
  pub timestamp_ms : ℕ
  pub signature : List ℕ

-- `count` bytes of a number, the most significant first.
unfoldable pub big_endian : ℕ → ℕ → List ℕ
big_endian zero n = []
big_endian (suc count) n = (n / 256 ^ count % 256) ∷ big_endian count n

unfoldable pub build_request_message : String → List ℕ → ℕ → List ℕ
unfolding utf8_bytes big_endian
build_request_message identity_name challenge timestamp_ms =
    utf8_bytes identity_name ++ challenge ++ big_endian 8 timestamp_ms

unfoldable pub verify_signed_request :
    (List ℕ → List ℕ → List ℕ → Bool) → SignedRequest → List ℕ → List ℕ → Bool
unfolding build_request_message
verify_signed_request ecdsa_verify request expected_challenge public_key_der =
    if bytes_eq request.challenge expected_challenge
    then ecdsa_verify
        (build_request_message request.identity_name request.challenge request.timestamp_ms)
        request.signature public_key_der
    else false

-- A request verifies exactly when it answers the expected challenge and its signature is good for
-- the message made of its name, that challenge and its time.
pub verify_signed_request_sound :
    (ecdsa_verify : List ℕ → List ℕ → List ℕ → Bool) (r : SignedRequest) (expected key : List ℕ)
    → (verify_signed_request ecdsa_verify r expected key ≡ true) ↔ (
        (r.challenge ≡ expected)
        × (ecdsa_verify
              (build_request_message r.identity_name expected r.timestamp_ms)
              r.signature
              key
            ≡ true))
unfolding verify_signed_request
verify_signed_request_sound ecdsa_verify r expected key = (
  λ h.
      let e : r.challenge ≡ expected = bytes_eq→eq r.challenge expected (ground arith) in
      (e, ground (arith, e)),
  λ h. answered h.0 h.1,
)
  where
    answered :
        r.challenge ≡ expected
        → ecdsa_verify
            (build_request_message r.identity_name expected r.timestamp_ms)
            r.signature
            key
          ≡ true
        → (if bytes_eq r.challenge expected
            then ecdsa_verify
                (build_request_message r.identity_name r.challenge r.timestamp_ms)
                r.signature
                key
            else false)
          ≡ true
    answered e v = rw e (rw bytes_eq_refl v)
