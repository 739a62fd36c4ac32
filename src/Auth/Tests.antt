-- ===== src/Auth/Tests.antt =====
-- The challenge store's theorems at a short history.
use sterun.Common.{
  true, false, [], ◌∷◌, some, str_eq, string-Eq, eq_iff, get, put, remove, ◌≡◌, ◌≢◌, ◌↔◌, refl,
  arith,
}
use sterun.Auth.{
  Keys, Request, take, sweep, throws, returns, unknown_nonce, issue, signature_ok, check_taken,
  verify_given, verify,
}
use sterun.Auth.History.{issues, verifies, History, after, Admits, verify_iff, nonce_spent}

-- Every signature is valid in the second scheme that is the text "signed".
abbrev sample_keys : Keys
sample_keys = record {
  is_valid_public_key = λ address. true;
  decoded_length = λ signature. 64;
  verify_raw = λ address nonce signature. some false;
  verify_message = λ address nonce signature. some (str_eq signature "signed");
}

abbrev sample_request : Request
sample_request = record { address = some "G1"; nonce = some "n1"; signature = some "signed" }

abbrev sample_history : History
sample_history = (20, issues "G2" "n2") ∷ (10, issues "G1" "n1") ∷ []

accepts_then_refuses :
    ((verify sample_keys (after sample_keys sample_history) 30 sample_request).1 ≡ returns "G1")
    × ((verify sample_keys
          (after sample_keys ((30, verifies sample_request) ∷ sample_history))
          31
          sample_request).1
        ≡ throws unknown_nonce)
unfolding take sweep issue signature_ok check_taken verify_given verify get put remove
accepts_then_refuses = (refl, refl)

verify_iff_example :
    ((verify sample_keys (after sample_keys sample_history) 30 sample_request).1 ≡ returns "G1")
    ↔ Admits sample_keys sample_history 30 sample_request "G1"
verify_iff_example =
    verify_iff sample_keys sample_history 30 sample_request "G1" (omega arith, (omega arith, tt))
      (omega arith)

nonce_spent_example :
    (verify sample_keys
      (after sample_keys ((40, issues "G1" "n3") ∷ (30, verifies sample_request) ∷ sample_history))
      50
      sample_request).1
    ≢ returns "G1"
nonce_spent_example =
    nonce_spent sample_keys ((40, issues "G1" "n3") ∷ []) sample_history 30 50 sample_request
      sample_request "G1" refl refl (λ e. cc ((eq_iff "n3" "n1").1 e), tt)
