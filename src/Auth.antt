-- ===== src/Auth.antt =====
-- be/src/auth.ts: the challenge store. An address, a nonce and a signature are strings. The address
-- check, the length of a decoded signature and the two signature checks of the Stellar SDK are
-- parameters; a check that throws is `none`. The clock and the random nonce are arguments. The
-- backend is the class `MemoryNonces`.
pub mod History
pub mod Tests
use sterun.Common.{
  ℕ, ◌+◌, ◌*◌, String, Bool, true, false, not, ◌||◌, List, [], ◌∷◌, Option, none, some, ◌==◌, leb,
  str_eq, if◌then◌else◌, filter, Dict, string-Eq, get, put, remove,
}

abbrev pub nonce_ttl_ms : ℕ
nonce_ttl_ms = 2 * 60 * 1000

abbrev pub signature_bytes : ℕ
signature_bytes = 64

pub data AuthError : Type 0 where
  malformed_address missing_credentials unknown_nonce expired_nonce : AuthError
  malformed_signature bad_signature : AuthError

pub record Issued : Type 0 where
  pub address : String
  pub expires_at_ms : ℕ

abbrev pub MemoryNonces : Type 0
MemoryNonces = Dict String Issued

unfoldable pub take : MemoryNonces → String → MemoryNonces × Option Issued
take issued nonce = elim (get issued nonce) [
  | none ↦ (issued, none)
  | some found ↦ (remove issued nonce, some found)
]

unfoldable pub sweep : MemoryNonces → ℕ → MemoryNonces
sweep issued now = filter (λ entry. not (leb entry.1.expires_at_ms now)) issued

pub data Checked {ℓ} (A : Type ℓ) : Type ℓ where
  throws : AuthError → Checked A
  returns : A → Checked A

-- The nonce and when it expires.
pub record Challenge : Type 0 where
  pub nonce : String
  pub expires_at_ms : ℕ

pub record Request : Type 0 where
  pub address : Option String
  pub nonce : Option String
  pub signature : Option String

-- The parts of the Stellar SDK and of `Buffer` that are called.
pub record Keys : Type 0 where
  pub is_valid_public_key : String → Bool
  pub decoded_length : String → ℕ
  pub verify_raw : (address nonce signature : String) → Option Bool
  pub verify_message : (address nonce signature : String) → Option Bool

-- `!value`.
abbrev pub absent : Option String → Bool
absent none = true
absent (some s) = str_eq s ""

abbrev pub text_of : Option String → String
text_of none = ""
text_of (some s) = s

module _ (keys : Keys) where
  unfoldable pub issue :
      MemoryNonces
      → (address : String) (now : ℕ) (random : String) → MemoryNonces × Checked Challenge
  issue issued address now random =
      if not (keys.is_valid_public_key address) then (issued, throws malformed_address) else (
        put (sweep issued now) random
            (record { address = address; expires_at_ms = now + nonce_ttl_ms }),
        returns (record { nonce = random; expires_at_ms = now + nonce_ttl_ms }),
      )

  -- `key.verify(…) || key.verifyMessage(…)`, and false when one throws.
  unfoldable pub signature_ok : (address nonce signature : String) → Bool
  signature_ok address nonce signature = elim (keys.verify_raw address nonce signature) [
    | none ↦ false
    | some true ↦ true
    | some false ↦ elim (keys.verify_message address nonce signature) [
      | none ↦ false
      | some ok ↦ ok
    ]
  ]

  -- The checks after a nonce is taken.
  unfoldable pub check_taken :
      (now : ℕ) (address nonce signature : String) → Option Issued → Checked String
  check_taken now address nonce signature none = throws unknown_nonce
  check_taken now address nonce signature (some found) =
      if leb found.expires_at_ms now
      then throws expired_nonce
      else if not (str_eq found.address address)
      then throws bad_signature
      else if not (keys.decoded_length signature == signature_bytes)
      then throws malformed_signature
      else if not (signature_ok address nonce signature)
      then throws bad_signature
      else returns address

  unfoldable pub verify_given :
      MemoryNonces → ℕ → (address nonce signature : String) → MemoryNonces × Checked String
  verify_given issued now address nonce signature =
      let (rest, found) = take issued nonce in (rest, check_taken now address nonce signature found)

  unfoldable pub verify : MemoryNonces → ℕ → Request → MemoryNonces × Checked String
  verify issued now r =
      if absent r.address || (absent r.nonce || absent r.signature)
      then (issued, throws missing_credentials)
      else verify_given issued now (text_of r.address) (text_of r.nonce) (text_of r.signature)
