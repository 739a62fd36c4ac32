-- ===== src/Spec/Normalize/Separators.antt =====
-- Ids and contacts: their separators do not matter, nor how many white spaces stand in them.
use sterun.Common.{
  ℕ, Bool, true, false, not, ◌||◌, ◌&&◌, ◌==◌, ◌-◌, leb, map, filter, List, [], ◌∷◌, if◌then◌else◌,
  ◌≡◌, refl, sym, ap, ◌∙◌, arith,
}
use sterun.Spec.Normalize.{
  is_spec_whitespace, Normalized, refuses, e_empty, e_nul, normalizes, space, strip_id,
  strip_contact, stripped, after_base, norm_base, norm_id, norm_contact, trim_start,
}
use sterun.Spec.Normalize.Words.{
  is_white_space, is_spec_whitespace_lem, rest_of, words, join, rest_of-trim_start, norm_base_lem,
}

space-IsWhitespace : is_spec_whitespace space ≡ true
unfolding is_spec_whitespace
space-IsWhitespace = refl

strip_id-rest_of : (p : Bool) (cps : List ℕ) → strip_id (rest_of p cps) ≡ strip_id cps
unfolding strip_id
strip_id-rest_of p [] = refl
strip_id-rest_of p (cp ∷ cps) =
    ground (arith, strip_id-rest_of true cps, strip_id-rest_of false cps, space-IsWhitespace)

strip_id-trim_start : (cps : List ℕ) → strip_id (trim_start cps) ≡ strip_id cps
unfolding strip_id trim_start
strip_id-trim_start [] = refl
strip_id-trim_start (cp ∷ cps) = ground (arith, strip_id-trim_start cps)

strip_contact-rest_of :
    (p : Bool) (cps : List ℕ) → strip_contact (rest_of p cps) ≡ strip_contact cps
unfolding strip_contact
strip_contact-rest_of p [] = refl
strip_contact-rest_of p (cp ∷ cps) =
    ground
      (arith, strip_contact-rest_of true cps, strip_contact-rest_of false cps, space-IsWhitespace)

strip_contact-trim_start : (cps : List ℕ) → strip_contact (trim_start cps) ≡ strip_contact cps
unfolding strip_contact trim_start
strip_contact-trim_start [] = refl
strip_contact-trim_start (cp ∷ cps) = ground (arith, strip_contact-trim_start cps)

abbrev out_or : List ℕ → Normalized → List ℕ
out_or out (refuses code) = out
out_or out (normalizes out') = out'

normalizes_inj :
    (a b : Bool) (text base : List ℕ)
    → (if a then refuses e_empty else if b then refuses e_nul else normalizes text)
      ≡ normalizes base
    → base ≡ text
normalizes_inj true b text base h = absurd (cc h)
normalizes_inj false true text base h = absurd (cc h)
normalizes_inj false false text base h = sym (ap (out_or text) h)

norm_base-normalizes :
    (nfc : List ℕ → List ℕ) (input base : List ℕ)
    → norm_base nfc input ≡ normalizes base
    → base ≡ join (words (nfc input))
norm_base-normalizes nfc input base h =
    let e = sym (norm_base_lem nfc input).1 ∙ h in normalizes_inj _ _ _ _ e

-- What is left of a text, unless its normal form is refused.
abbrev pub unless_refused : Normalized → List ℕ → Normalized
unless_refused (refuses code) left = refuses code
unless_refused (normalizes base) left = stripped left

after_base_lem :
    (strip : List ℕ → List ℕ) (n : Normalized) (left : List ℕ)
    → ((base : List ℕ) → n ≡ normalizes base → strip base ≡ left)
    → after_base strip n ≡ unless_refused n left
unfolding after_base
after_base_lem strip (refuses code) left h = refl
after_base_lem strip (normalizes base) left h = ap stripped (h base refl)

-- What is no white space and no hyphen, and with no parentheses either.
abbrev pub is_id_char : ℕ → Bool
is_id_char cp = not (is_white_space cp || cp == 0x2d)

abbrev pub is_contact_char : ℕ → Bool
is_contact_char cp = not (is_white_space cp || (cp == 0x2d || (cp == 0x28 || cp == 0x29)))

-- The capital of an ASCII letter.
abbrev pub capital : ℕ → ℕ
capital cp = if leb 0x61 cp && leb cp 0x7a then cp - 0x20 else cp

strip_id_lem : (cps : List ℕ) → strip_id cps ≡ map capital (filter is_id_char cps)
unfolding strip_id
strip_id_lem [] = refl
strip_id_lem (cp ∷ cps) = rw (is_spec_whitespace_lem cp, strip_id_lem cps) (ground arith)

strip_contact_lem : (cps : List ℕ) → strip_contact cps ≡ filter is_contact_char cps
unfolding strip_contact
strip_contact_lem [] = refl
strip_contact_lem (cp ∷ cps) = rw (is_spec_whitespace_lem cp, strip_contact_lem cps) (ground arith)

-- Where the text has a normal form, its id is made of the characters of the text itself that are no
-- white space and no hyphen, in their order and with ASCII letters in capitals, and its contact of those
-- that are no white space, hyphen or parenthesis; either is refused as empty when there are none. Where
-- the normal form is refused, both are refused for the same reason.
pub norm_id_lem :
    (nfc : List ℕ → List ℕ) (input : List ℕ)
    → (norm_id nfc input
        ≡ unless_refused (norm_base nfc input) (map capital (filter is_id_char (nfc input))))
      × (norm_contact nfc input
          ≡ unless_refused (norm_base nfc input) (filter is_contact_char (nfc input)))
unfolding norm_id norm_contact
norm_id_lem nfc input =
    let text = nfc input in
    let written = rest_of-trim_start text in
    (
      after_base_lem strip_id (norm_base nfc input) _ λ base is_base.
          ap strip_id (norm_base-normalizes nfc input base is_base ∙ sym written)
          ∙ strip_id-rest_of false (trim_start text)
          ∙ strip_id-trim_start text
          ∙ strip_id_lem text,
      after_base_lem strip_contact (norm_base nfc input) _ λ base is_base.
          ap strip_contact (norm_base-normalizes nfc input base is_base ∙ sym written)
          ∙ strip_contact-rest_of false (trim_start text)
          ∙ strip_contact-trim_start text
          ∙ strip_contact_lem text,
    )
