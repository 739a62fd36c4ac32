-- ===== src/Spec/Totp/Accepted.antt =====
-- Which codes are accepted.
use sterun.Common.{
  Text, text_eq_iff, ℕ, ◌+◌, ◌≤◌, ◌%◌, Bool, true, false, List, [], ◌∷◌, Option, none, some, ==_iff,
  if◌then◌else◌, length, ◌>>=◌, zero, suc, ◌≡◌, ◌↔◌, ◌⊎◌, refl, sym, ap, subst, dec_lt, ◌∙◌, arith,
  Bool-cases, inl, inr,
}
use sterun.Common.Int.{pos, negsuc, ◌+ℤ◌}
use sterun.Spec.Totp.{
  secret_bytes, time_step, truncate, pad_code, ascii_bytes, codes_equal, code_at_step, check_step,
  verify_totp,
}

-- The digits of a code are their own bytes.
ascii_bytes-pad_code : (n : ℕ) → ascii_bytes (pad_code n) ≡ pad_code n
unfolding ascii_bytes pad_code
ascii_bytes-pad_code n = ground arith

length-ascii_bytes : (t : Text) → length (ascii_bytes t) ≡ length t
unfolding ascii_bytes
length-ascii_bytes [] = refl
length-ascii_bytes (c ∷ t) = ap suc (length-ascii_bytes t)

length-pad_code : (n : ℕ) → length (pad_code n) ≡ 6
unfolding pad_code
length-pad_code n = refl

codes_equal_iff :
    (n : ℕ) (presented : Text)
    → (codes_equal (pad_code n) presented ≡ true) ↔ (pad_code n ≡ ascii_bytes presented)
unfolding codes_equal
codes_equal_iff n presented =
    let own = ascii_bytes-pad_code n in
    let six = length-pad_code n in
    let iff = text_eq_iff (pad_code n) (ascii_bytes presented) in
    (
      λ h. iff.0 (ground (arith, own)),
      λ e. ground (arith, own, iff.1 e, ap length e, length-ascii_bytes presented, six),
    )

abbrev bool_or : Bool → Option Bool → Bool
bool_or b none = b
bool_or b (some c) = c

abbrev text_or : Text → Option Text → Text
text_or t none = t
text_or t (some u) = u

module _ (hmac : List ℕ → ℕ → List ℕ) (secret presented : List ℕ) where
  -- The code of a step is what is presented, byte by byte.
  abbrev pub Fits : ℕ → Type 0
  Fits step = code_at_step hmac secret step ≡ some (ascii_bytes presented)

  abbrev code_of : ℕ → Text
  code_of step = pad_code (truncate (hmac secret step) % 1_000_000)

  code_at_step_lem :
      (step : ℕ)
      → length secret ≡ secret_bytes
      → code_at_step hmac secret step ≡ some (code_of step)
  unfolding code_at_step
  code_at_step_lem step h = ground (arith, (==_iff (length secret) secret_bytes).1 h)

  check_step_lem :
      (matched : Bool) (step : ℕ)
      → length secret ≡ secret_bytes
      → check_step hmac secret presented matched (pos step)
        ≡ some (if codes_equal (code_of step) presented then true else matched)
  unfolding check_step
  check_step_lem matched step h = rw (code_at_step_lem step h) refl

  -- A match so far, or at this step.
  checked_iff :
      (matched : Bool) (step : ℕ)
      → length secret ≡ secret_bytes
      → ((if codes_equal (code_of step) presented then true else matched) ≡ true)
        ↔ ((matched ≡ true) ⊎ Fits step)
  checked_iff matched step h =
      let same = codes_equal_iff (truncate (hmac secret step) % 1_000_000) presented in
      let code = code_at_step_lem step h in
      elim (Bool-cases (codes_equal (code_of step) presented)) [
        | inl e ↦ rw e (λ _. inr (code ∙ ap some (same.0 e)), λ _. refl)
        | inr e ↦ rw e (
          λ m. inl m,
          λ c. elim c [
            | inl m ↦ m
            | inr fits ↦ absurd (cc (e, same.1 (ap (text_or presented) (sym code ∙ fits))))
          ],
        )
      ]

  step_before : (c : ℕ) → pos (suc c) +ℤ negsuc 0 ≡ pos c
  unfolding ◌+ℤ◌
  step_before c = ground arith

  step_current : (c : ℕ) → pos c +ℤ pos 0 ≡ pos c
  unfolding ◌+ℤ◌
  step_current c = ground arith

  step_after : (c : ℕ) → pos c +ℤ pos 1 ≡ pos (c + 1)
  unfolding ◌+ℤ◌
  step_after c = ground arith

  -- The rounds at a centre.
  abbrev rounds : ℕ → Option Bool
  rounds c = do
    before ← check_step hmac secret presented false (pos c +ℤ negsuc 0)
    current ← check_step hmac secret presented before (pos c +ℤ pos 0)
    check_step hmac secret presented current (pos c +ℤ pos 1)

  abbrev with_step : Bool → ℕ → Bool
  with_step matched step = if codes_equal (code_of step) presented then true else matched

  first_round :
      (c : ℕ)
      → length secret ≡ secret_bytes
      → (m : Bool) × (check_step hmac secret presented false (pos c +ℤ negsuc 0) ≡ some m)
        × ((m ≡ true) ↔ ((s : ℕ) × (s + 1 ≡ c) × Fits s))
  unfolding check_step ◌+ℤ◌
  first_round zero h = (false, refl, (λ e. absurd (cc e), λ (s, e, _). absurd (omega (arith, e))))
  first_round (suc c) h =
      let iff = checked_iff false c h in
      (
        with_step false c,
        ap (check_step hmac secret presented false) (step_before c) ∙ check_step_lem false c h,
        (
          λ m. elim (iff.0 m) [ inl f ↦ absurd (cc f) | inr fits ↦ (c, omega arith, fits) ],
          λ (s, e, fits). iff.1 (inr (subst Fits (omega (arith, e)) fits)),
        ),
      )

  rounds_lem :
      (c : ℕ) (m : Bool)
      → length secret ≡ secret_bytes
      → check_step hmac secret presented false (pos c +ℤ negsuc 0) ≡ some m
      → rounds c ≡ some (with_step (with_step m c) (c + 1))
  rounds_lem c m h e =
      rw
        (
          e,
          step_current c,
          check_step_lem m c h,
          step_after c,
          check_step_lem (with_step m c) (c + 1) h,
        )
        refl

  abbrev Near : ℕ → Type 0
  Near c = (s : ℕ) × (s ≤ c + 1) × (c ≤ s + 1) × Fits s

  rounds_iff : (c : ℕ) → length secret ≡ secret_bytes → (rounds c ≡ some true) ↔ Near c
  rounds_iff c h =
      let (m, e, first) = first_round c h in
      let second = checked_iff m c h in
      let third = checked_iff (with_step m c) (c + 1) h in
      let done = rounds_lem c m h e in
      (
        λ k. elim (third.0 (ap (bool_or true) (sym done ∙ k))) [
          | inr fits ↦ (c + 1, omega arith, omega arith, fits)
          | inl k' ↦ elim (second.0 k') [
            | inr fits ↦ (c, omega arith, omega arith, fits)
            | inl k'' ↦
                let (s, at, fits) = first.0 k'' in (s, omega (arith, at), omega (arith, at), fits)
          ]
        ],
        λ (s, low, high, fits).
            done
            ∙ ap some (elim (dec_lt s c) [
              | yes before ↦ third.1 (inl (second.1 (inl (first.1 (s, omega arith, fits)))))
              | no late ↦ elim (dec_lt c s) [
                | yes after ↦ third.1 (inr (subst Fits (omega arith) fits))
                | no same ↦ third.1 (inl (second.1 (inr (subst Fits (omega arith) fits))))
              ]
            ]),
      )

-- With a secret of 32 bytes a text is accepted at a time exactly when the low bytes of its characters
-- are the code of the time's step or of the step before or after it, where no step is before the first.
pub verify_totp_iff :
    (hmac : List ℕ → ℕ → List ℕ) (secret presented : List ℕ) (unix_seconds : ℕ)
    → length secret ≡ secret_bytes
    → (verify_totp hmac secret presented unix_seconds ≡ some true) ↔ (
        (s : ℕ) × (s ≤ time_step unix_seconds + 1)
        × (time_step unix_seconds ≤ s + 1)
        × (code_at_step hmac secret s ≡ some (ascii_bytes presented)))
unfolding verify_totp
verify_totp_iff hmac secret presented unix_seconds h =
    rounds_iff hmac secret presented (time_step unix_seconds) h
