-- ===== src/Spec/Totp.antt =====
-- be/src/spec/totp.ts: check-in codes. HMAC-SHA-256 of the counter's bytes is the parameter `hmac`;
-- a code is its characters, and a step that a verification looks at can be negative.
pub mod Accepted
use sterun.Common.{
  Text, text_eq, ℕ, ◌+◌, ◌*◌, ◌/◌, ◌%◌, Bool, true, false, not, ◌||◌, List, [], ◌∷◌, Option, none,
  some, ◌==◌, if◌then◌else◌, length, get_elem?, ◌>>=◌, zero, suc,
}
use sterun.Common.Int.{ℤ, pos, negsuc, ◌+ℤ◌}

abbrev pub secret_bytes : ℕ
secret_bytes = 32

abbrev pub time_step_seconds : ℕ
time_step_seconds = 30

abbrev pub code_digits : ℕ
code_digits = 6

unfoldable pub time_step : ℕ → ℕ
time_step unix_seconds = unix_seconds / time_step_seconds

-- A missing byte is 0 to the bit operators.
abbrev pub byte_at : List ℕ → ℕ → ℕ
byte_at mac i = elim (get_elem? mac i) [ none ↦ 0 | some b ↦ b ]

unfoldable pub last_byte : List ℕ → ℕ
last_byte [] = 0
last_byte (b ∷ []) = b
last_byte (b ∷ c ∷ mac) = last_byte (c ∷ mac)

-- `& 0x0f` and `& 0x7f` of a byte are remainders, and the shifted bytes share no bit.
unfoldable pub truncate : List ℕ → ℕ
truncate mac =
    let offset = last_byte mac % 16 in
    byte_at mac offset % 128 * 16_777_216
    + byte_at mac (offset + 1) * 65_536
    + byte_at mac (offset + 2) * 256
    + byte_at mac (offset + 3)

-- The six decimal digits of a number below a million, leading zeros included.
unfoldable pub pad_code : ℕ → Text
pad_code n =
    (0x30 + n / 100_000 % 10)
    ∷ (0x30 + n / 10_000 % 10)
    ∷ (0x30 + n / 1_000 % 10)
    ∷ (0x30 + n / 100 % 10)
    ∷ (0x30 + n / 10 % 10)
    ∷ (0x30 + n % 10)
    ∷ []

-- `Buffer.from(text, "ascii")` keeps the low byte of each code unit.
unfoldable pub ascii_bytes : Text → List ℕ
ascii_bytes [] = []
ascii_bytes (c ∷ text) = c % 256 ∷ ascii_bytes text

unfoldable pub codes_equal : Text → Text → Bool
codes_equal a b =
    if not (length a == code_digits) || not (length b == code_digits)
    then false
    else text_eq (ascii_bytes a) (ascii_bytes b)

module _ (hmac : List ℕ → ℕ → List ℕ) (secret : List ℕ) where
  -- None for the RangeError.
  unfoldable pub code_at_step : ℕ → Option Text
  code_at_step step =
      if not (length secret == secret_bytes)
      then none
      else some (pad_code (truncate (hmac secret step) % 1_000_000))

  -- One round of the loop; a match is kept, and the other steps are still computed.
  unfoldable pub check_step : Text → Bool → ℤ → Option Bool
  check_step presented matched (negsuc n) = some matched
  check_step presented matched (pos step) = do
    code ← code_at_step step
    some (if codes_equal code presented then true else matched)

  unfoldable pub verify_totp : Text → (unix_seconds : ℕ) → Option Bool
  verify_totp presented unix_seconds = do
    before ← check_step presented false (pos (time_step unix_seconds) +ℤ negsuc 0)
    current ← check_step presented before (pos (time_step unix_seconds) +ℤ pos 0)
    check_step presented current (pos (time_step unix_seconds) +ℤ pos 1)
