-- ===== src/Scanner/Verify.antt =====
-- fe/src/modules/scanner/lib/verify.ts (and the code pattern of payload.ts): does a code belong to a
-- runner now? The code of a step, lib/totp.ts over the browser's HMAC, is the parameter `code_at`;
-- a text is the list of its UTF-16 code units, and a step is a signed integer.
pub mod Window
use sterun.Common.{
  Text, text_eq, ℕ, zero, suc, ◌+◌, Bool, true, false, not, ◌&&◌, ◌||◌, List, [], ◌∷◌, Option, none,
  some, leb, ◌==◌, if◌then◌else◌, length, all, any,
}
use sterun.Common.Int.{ℤ, pos, negsuc, ◌+ℤ◌, ◌-ℤ◌, abs}

abbrev pub is_digit : ℕ → Bool
is_digit c = leb b'0' c && leb c b'9'

-- `CODE_PATTERN`, /^[0-9]{6}$/.
unfoldable pub code_pattern : Text → Bool
code_pattern code = length code == 6 && all is_digit code

-- The loop of `stepWindow` from an offset on, for the offsets that are left.
unfoldable pub window_from : ℤ → ℤ → ℕ → List ℤ
window_from now_step offset zero = []
window_from now_step offset (suc n) =
    (now_step +ℤ offset) ∷ window_from now_step (offset +ℤ pos 1) n

-- From -tolerance to tolerance, oldest first.
unfoldable pub step_window : ℤ → ℕ → List ℤ
step_window now_step tolerance =
    window_from now_step (pos 0 -ℤ pos tolerance) (tolerance + tolerance + 1)

unfoldable pub step_is_current : ℤ → ℤ → ℕ → Bool
step_is_current step now_step tolerance = leb (abs (step -ℤ now_step)) tolerance

module _ (code_at : Text → ℤ → Text) where
  -- The loop over the window, which stops at the first match.
  unfoldable pub any_step : Text → Text → List ℤ → Bool
  any_step secret code [] = false
  any_step secret code (candidate ∷ steps) =
      if text_eq (code_at secret candidate) code then true else any_step secret code steps

  unfoldable pub verify_code : Text → Text → Option ℤ → ℤ → ℕ → Bool
  verify_code secret code step now_step tolerance =
      if not (code_pattern code) then false else elim step [
        | some s ↦
            if not (step_is_current s now_step tolerance)
            then false
            else text_eq (code_at secret s) code
        | none ↦ any_step secret code (step_window now_step tolerance)
      ]
