-- ===== src/Announcements/Agreement.antt =====
-- The SDK's check of an announcement and the backend's.
use sterun.Common.{
  ℕ, Text, Bool, true, false, not, Option, none, some, if◌then◌else◌, ◌>>=◌, ◌≡◌, ◌↔◌, subst, refl,
  arith,
}
use sterun.Announcements.{
  AnnouncementFields, SignatureScheme, Signer, announcement_message, message_lines,
  verify_announcement_signature,
}
use sterun.Announcements.Sdk
use sterun.Announcements.Sdk.{
  Verification, valid, invalid, fits, published_at_pattern, message_of, sdk_message, check_with,
  or_invalid, verify_decoded, verify_announcement,
}

abbrev pub backend_fields : Sdk.AnnouncementFields → ℕ → AnnouncementFields
backend_fields a event_id = record {
  network_passphrase = a.network_passphrase;
  event_registry = a.event_registry;
  event_id = event_id;
  published_at = a.published_at;
  body = a.body;
}

abbrev pub verification_of : Option SignatureScheme → Verification
verification_of none = invalid
verification_of (some scheme) = valid scheme

verify_decoded_lem :
    (message : Text) (signer : Signer) (signature : Text)
    → verify_decoded (some message) signer signature
      ≡ verification_of (verify_announcement_signature message signer signature)
unfolding verify_decoded verify_announcement_signature check_with or_invalid
verify_decoded_lem message signer signature = ground arith

message_of_lem :
    (body_sha256 : Text → Text) (a : Sdk.AnnouncementFields) (event_id : ℕ)
    → message_of body_sha256 a event_id
      ≡ announcement_message body_sha256 (backend_fields a event_id)
unfolding message_of announcement_message message_lines
message_of_lem body_sha256 a event_id = refl

verification_of_iff :
    (r : Option SignatureScheme) (scheme : SignatureScheme)
    → (verification_of r ≡ valid scheme) ↔ (r ≡ some scheme)
verification_of_iff none scheme = (λ e. ground arith, λ e. ground arith)
verification_of_iff (some s) scheme = (λ e. ground arith, λ e. ground arith)

module _ (message : ℕ → Text) (signer : Signer) (signature : Text) (scheme : SignatureScheme) where
  abbrev Signed : ℕ → Type 0
  Signed n = verify_announcement_signature (message n) signer signature ≡ some scheme

  verify_decoded_iff :
      (fit : Bool) (event_id : Option ℕ)
      → (verify_decoded
            (if not fit then none else (do n ← event_id; some (message n)))
            signer
            signature
          ≡ valid scheme)
        ↔ ((fit ≡ true) × (n : ℕ) × (event_id ≡ some n) × Signed n)
  unfolding verify_decoded
  verify_decoded_iff false event_id = (λ e. ground arith, λ (h, n, e, _). ground arith)
  verify_decoded_iff true none = (λ e. ground arith, λ (h, n, e, _). ground arith)
  verify_decoded_iff true (some n) =
      let agree : verify_decoded (some (message n)) signer signature ≡ valid scheme ↔ Signed n =
        rw (verify_decoded_lem (message n) signer signature) (verification_of_iff _ scheme) in
      (λ e. (refl, n, refl, agree.0 e), λ (_, m, e, h). agree.1 (subst Signed (ground arith) h))

-- The SDK takes an announcement as signed under a scheme exactly when its time of publication has the
-- pattern, its event id is a whole number that is not negative, and the backend takes the decoded
-- signature under that scheme for the message of the same fields.
pub verify_announcement_iff :
    (body_sha256 from_base64 : Text → Text) (a : Sdk.AnnouncementFields) (signer : Signer)
    (signature : Text) (scheme : SignatureScheme)
    → (verify_announcement body_sha256 from_base64 a signer signature ≡ valid scheme) ↔ (
        (fits published_at_pattern a.published_at ≡ true)
        × (event_id : ℕ) × (a.event_id ≡ some event_id)
        × (verify_announcement_signature
              (announcement_message body_sha256 (backend_fields a event_id))
              signer
              (from_base64 signature)
            ≡ some scheme))
unfolding verify_announcement sdk_message message_of announcement_message message_lines
verify_announcement_iff body_sha256 from_base64 a signer signature scheme =
    verify_decoded_iff (message_of body_sha256 a) signer (from_base64 signature) scheme
      (fits published_at_pattern a.published_at) a.event_id
