-- ===== src/Announcements.antt =====
-- be/src/announcements.ts: the message that an organiser signs, and the check of its signature. A text
-- is its code units; SHA-256 in hex and the key's two checks are parameters, none where one throws.
pub mod Injective
pub mod Sdk
pub mod Agreement
mod Tests
use sterun.Common.{
  ◌>>=◌, ℕ, ◌+◌, ◌/◌, ◌%◌, zero, suc, Text, codes, Bool, true, false, not, List, [], ◌∷◌, ◌++◌,
  Option, none, some, ◌==◌, ltb, if◌then◌else◌, length,
}

abbrev pub announcement_header : Text
announcement_header = codes "Sterun announcement v1"

pub data SignatureScheme : Type 0 where
  ed25519 sep53 : SignatureScheme

pub record AnnouncementFields : Type 0 where
  pub network_passphrase : Text
  pub event_registry : Text
  pub event_id : ℕ
  pub published_at : Text
  pub body : Text

abbrev pub line_feed : ℕ
line_feed = 0xa

-- `String` of a whole number below 10^21; the fuel is the number, which has no more digits than itself.
unfoldable pub decimal_from : (fuel : ℕ) → ℕ → Text
decimal_from zero n = (0x30 + n % 10) ∷ []
decimal_from (suc fuel) n =
    let front = decimal_from fuel (n / 10) in
    if ltb n 10 then (0x30 + n) ∷ [] else front ++ (0x30 + n % 10) ∷ []

unfoldable pub decimal : ℕ → Text
decimal n = decimal_from n n

-- `join("\n")`.
unfoldable pub join_lines : List Text → Text
join_lines [] = []
join_lines (x ∷ []) = x
join_lines (x ∷ y ∷ rest) = x ++ line_feed ∷ join_lines (y ∷ rest)

module _ (body_sha256 : Text → Text) where
  unfoldable pub message_lines : AnnouncementFields → List Text
  message_lines fields =
      announcement_header
      ∷ (codes "network: " ++ fields.network_passphrase)
      ∷ (codes "event_registry: " ++ fields.event_registry)
      ∷ (codes "event_id: " ++ decimal fields.event_id)
      ∷ (codes "published_at: " ++ fields.published_at)
      ∷ (codes "body_sha256: " ++ body_sha256 fields.body)
      ∷ []

  unfoldable pub announcement_message : AnnouncementFields → Text
  announcement_message fields = join_lines (message_lines fields)

pub record Signer : Type 0 where
  pub is_public_key : Bool
  pub verify : (message signature : Text) → Option Bool
  pub verify_message : (message signature : Text) → Option Bool

unfoldable pub verify_announcement_signature :
    Text → Signer → (signature : Text) → Option SignatureScheme
verify_announcement_signature message signer signature =
    if not (length signature == 64) then none else if not signer.is_public_key then none else (do
      raw ← signer.verify message signature
      if raw then some ed25519 else (do
        wallet ← signer.verify_message message signature
        if wallet then some sep53 else none))
