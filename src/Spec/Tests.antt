-- ===== src/Spec/Tests.antt =====
-- The normal form of a name, an id and a contact.
use sterun.Common.{
  ℕ, List, [], ◌∷◌, ◌==◌, any, if◌then◌else◌, map, filter, ◌↔◌, ◌+◌, ◌≤◌, some, true, codes,
  text_eq, ◌≡◌, refl,
}
use sterun.Spec.Totp.{
  time_step, last_byte, truncate, pad_code, ascii_bytes, codes_equal, code_at_step, verify_totp,
}
use sterun.Spec.Totp.Accepted.{verify_totp_iff}
use sterun.Spec.Normalize.{
  is_spec_whitespace, refuses, e_empty, e_nul, normalizes, nul, trim_start, is_empty, trim_end,
  collapse_one, collapse, concluded, stripped, strip_id, strip_contact, after_base, norm_base,
  norm_name, norm_id, norm_contact,
}
use sterun.Spec.Normalize.Separators.{
  unless_refused, is_id_char, is_contact_char, capital, norm_id_lem,
}
use sterun.Spec.Normalize.Words.{is_white_space, words, join, norm_base_lem}

-- " a\tb " with no-break spaces, and NFC as it leaves such a text.
abbrev sample_text : List ℕ
sample_text = 0xa0 ∷ 0x61 ∷ 0x9 ∷ 0x20 ∷ 0x62 ∷ 0x20 ∷ []

normal_forms :
    (norm_name (λ t. t) sample_text ≡ normalizes (0x61 ∷ 0x20 ∷ 0x62 ∷ []))
    × (norm_id (λ t. t) sample_text ≡ normalizes (0x41 ∷ 0x42 ∷ []))
    × (norm_contact (λ t. t) (0x28 ∷ 0x20 ∷ 0x29 ∷ []) ≡ refuses e_empty)
    × (norm_base (λ t. t) (0 ∷ 0x61 ∷ []) ≡ refuses e_nul)
    × (norm_base (λ t. t) (0 ∷ []) ≡ refuses e_nul)
unfolding is_spec_whitespace trim_start trim_end collapse_one collapse concluded stripped strip_id
    strip_contact after_base norm_base norm_name norm_id norm_contact
normal_forms = (refl, refl, refl, refl, refl)

norm_base_lem_example :
    ((cp : ℕ) → is_spec_whitespace cp ≡ is_white_space cp)
    × (norm_base (λ t. t) sample_text ≡ (
        let out = join (words sample_text) in
        if is_empty out
        then refuses e_empty
        else if any (λ cp. cp == nul) out
        then refuses e_nul
        else normalizes out))
norm_base_lem_example = norm_base_lem (λ t. t) sample_text

norm_id_lem_example :
    (norm_id (λ t. t) sample_text
      ≡ unless_refused
          (norm_base (λ t. t) sample_text)
          (map capital (filter is_id_char sample_text)))
    × (norm_contact (λ t. t) sample_text
        ≡ unless_refused (norm_base (λ t. t) sample_text) (filter is_contact_char sample_text))
norm_id_lem_example = norm_id_lem (λ t. t) sample_text

abbrev sample_secret : List ℕ
sample_secret =
    0 ∷ 0 ∷ 0 ∷ 0 ∷ 0 ∷ 0 ∷ 0 ∷ 0 ∷ 0 ∷ 0 ∷ 0 ∷ 0 ∷ 0 ∷ 0 ∷ 0 ∷ 0 ∷ 0 ∷ 0 ∷ 0 ∷ 0 ∷ 0 ∷ 0 ∷ 0 ∷ 0
    ∷ 0 ∷ 0 ∷ 0 ∷ 0 ∷ 0 ∷ 0 ∷ 0 ∷ 0 ∷ []

-- A digest of four bytes that ends in the step, read at offset 0.
abbrev sample_hmac : List ℕ → ℕ → List ℕ
sample_hmac secret step = 0 ∷ 0 ∷ step ∷ 0 ∷ []

-- A code keeps its leading zeros.
padded_code : code_at_step sample_hmac sample_secret 3 ≡ some (codes "000768")
unfolding last_byte truncate pad_code code_at_step
padded_code = refl

verify_totp_iff_example :
    (verify_totp sample_hmac sample_secret (codes "000768") 119 ≡ some true) ↔ (
      (s : ℕ) × (s ≤ time_step 119 + 1)
      × (time_step 119 ≤ s + 1)
      × (code_at_step sample_hmac sample_secret s ≡ some (ascii_bytes (codes "000768"))))
verify_totp_iff_example = verify_totp_iff sample_hmac sample_secret (codes "000768") 119 refl

-- U+0130 passes for a 0.
low_byte_passes : codes_equal (codes "000768") (0x130 ∷ codes "00768") ≡ true
unfolding codes_equal ascii_bytes text_eq
low_byte_passes = refl
