-- ===== src/Announcements/Sdk.antt =====
-- sdk/src/announcement.ts: how anyone checks an announcement. `event_id` is none where the number is
-- no whole number or negative; the decoding of base64, SHA-256 in hex and the key's checks are parameters.
use sterun.Common.{
  ◌>>=◌, ℕ, Text, codes, Bool, true, false, not, ◌&&◌, [], ◌∷◌, ◌++◌, Option, none, some, ◌==◌, leb,
  if◌then◌else◌, length,
}
use sterun.Announcements.{SignatureScheme, ed25519, sep53, decimal, join_lines, Signer}

abbrev pub announcement_header : Text
announcement_header = codes "Sterun announcement v1"

pub record AnnouncementFields : Type 0 where
  pub network_passphrase : Text
  pub event_registry : Text
  pub event_id : Option ℕ
  pub published_at : Text
  pub body : Text

-- PUBLISHED_AT, with 9 for `[0-9]`: no other character of it is a digit.
abbrev pub published_at_pattern : Text
published_at_pattern = codes "9999-99-99T99:99:99.999Z"

abbrev pub is_digit : ℕ → Bool
is_digit c = leb 0x30 c && leb c 0x39

unfoldable pub fits : (pattern text : Text) → Bool
fits [] [] = true
fits [] (c ∷ text) = false
fits (p ∷ pattern) [] = false
fits (p ∷ pattern) (c ∷ text) = (if p == 0x39 then is_digit c else c == p) && fits pattern text

pub data Verification : Type 0 where
  valid : SignatureScheme → Verification
  invalid : Verification

-- none where it throws.
module _ (body_sha256 : Text → Text) where
  unfoldable pub message_of : AnnouncementFields → ℕ → Text
  message_of fields event_id = join_lines (
      announcement_header
      ∷ (codes "network: " ++ fields.network_passphrase)
      ∷ (codes "event_registry: " ++ fields.event_registry)
      ∷ (codes "event_id: " ++ decimal event_id)
      ∷ (codes "published_at: " ++ fields.published_at)
      ∷ (codes "body_sha256: " ++ body_sha256 fields.body)
      ∷ [])

  unfoldable pub sdk_message : AnnouncementFields → Option Text
  sdk_message fields =
      if not (fits published_at_pattern fields.published_at)
      then none
      else (do event_id ← fields.event_id; some (message_of fields event_id))

-- The checks of one key, none where one throws.
unfoldable pub check_with : Signer → (message signature : Text) → Option Verification
check_with signer message signature = if not signer.is_public_key then none else (do
  raw ← signer.verify message signature
  if raw then some (valid ed25519) else (do
    wallet ← signer.verify_message message signature
    if wallet then some (valid sep53) else some invalid))

unfoldable pub or_invalid : Option Verification → Verification
or_invalid none = invalid
or_invalid (some v) = v

unfoldable pub verify_decoded : Option Text → Signer → (signature : Text) → Verification
verify_decoded none signer signature = invalid
verify_decoded (some message) signer signature =
    if not (length signature == 64)
    then invalid
    else or_invalid (check_with signer message signature)

unfoldable pub verify_announcement :
    (body_sha256 from_base64 : Text → Text)
    → AnnouncementFields
    → Signer
    → (signature : Text) → Verification
verify_announcement body_sha256 from_base64 fields signer signature =
    verify_decoded (sdk_message body_sha256 fields) signer (from_base64 signature)
