-- ===== src/Announcements/Tests.antt =====
-- Runs of the announcements at concrete inputs.
use sterun.Common.{codes, ℕ, Text, true, false, some, ◌≡◌, ◌↔◌, refl}
use sterun.Announcements.{
  AnnouncementFields, sep53, Signer, announcement_message, verify_announcement_signature,
}
use sterun.Announcements.Sdk
use sterun.Announcements.Sdk.{valid, fits, published_at_pattern, verify_announcement}
use sterun.Announcements.Agreement.{backend_fields, verify_announcement_iff}
use sterun.Announcements.Injective.{announcement_message-injective}

abbrev sample_fields : AnnouncementFields
sample_fields = record {
  network_passphrase = codes "Test SDF Network ; September 2015";
  event_registry = codes "CREG";
  event_id = 12;
  published_at = codes "2026-07-01T00:00:00.000Z";
  body = codes "Start moved to 06:00";
}

announcement_message-injective_example :
    ((sample_fields.network_passphrase ≡ sample_fields.network_passphrase)
      × (sample_fields.event_registry ≡ sample_fields.event_registry))
    × ((sample_fields.event_id ≡ sample_fields.event_id)
        × ((sample_fields.published_at ≡ sample_fields.published_at)
            × (codes "af31" ≡ codes "af31")))
announcement_message-injective_example =
    announcement_message-injective (λ body. codes "af31") (λ body. refl) sample_fields sample_fields
      (refl, (refl, refl)) (refl, (refl, refl)) refl

-- A key that a wallet signs with.
abbrev wallet_key : Signer
wallet_key = record {
  is_public_key = true;
  verify = λ message signature. some false;
  verify_message = λ message signature. some true;
}

abbrev sample_published : Sdk.AnnouncementFields
sample_published = record {
  network_passphrase = sample_fields.network_passphrase;
  event_registry = sample_fields.event_registry;
  event_id = some 12;
  published_at = sample_fields.published_at;
  body = sample_fields.body;
}

-- 64 bytes.
abbrev sample_signature : Text
sample_signature = codes "0123456789abcdef0123456789abcdef0123456789abcdef0123456789abcdef"

verify_announcement_iff_example :
    (verify_announcement
        (λ body. codes "af31")
        (λ t. t)
        sample_published
        wallet_key
        sample_signature
      ≡ valid sep53)
    ↔ ((fits published_at_pattern sample_published.published_at ≡ true)
        × (event_id : ℕ) × (sample_published.event_id ≡ some event_id)
        × (verify_announcement_signature
              (announcement_message
                (λ body. codes "af31")
                (backend_fields sample_published event_id))
              wallet_key
              sample_signature
            ≡ some sep53))
verify_announcement_iff_example =
    verify_announcement_iff (λ body. codes "af31") (λ t. t) sample_published wallet_key
      sample_signature sep53

wallet_signed :
    verify_announcement (λ body. codes "af31") (λ t. t) sample_published wallet_key sample_signature
    ≡ valid sep53
unfolding verify_announcement Sdk.verify_decoded Sdk.sdk_message fits Sdk.or_invalid Sdk.check_with
wallet_signed = refl
