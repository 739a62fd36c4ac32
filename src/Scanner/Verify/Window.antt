-- ===== src/Scanner/Verify/Window.antt =====
-- The two ways in which a code arrives accept the same codes.
use sterun.Common.{
  Text, text_eq, ℕ, zero, suc, ◌+◌, ◌≤◌, ◌<◌, true, List, [], ◌∷◌, none, some, leb, In, leb_iff,
  dec_lt, ◌≡◌, refl, ◌↔◌, inl, inr, arith, Bool-cases,
}
use sterun.Common.Int.{
  ℤ, pos, pos_part, neg_part, +ℤ_parts, parts_zero, -ℤ_parts, abs-le_iff, ◌+ℤ◌, ◌-ℤ◌, abs,
  eq_of_parts,
}
use sterun.Scanner.Verify.{
  code_pattern, window_from, step_window, step_is_current, any_step, verify_code,
}

-- `s` lies among the `n` steps from `now + offset` on.
abbrev InRange : ℤ → ℤ → ℕ → ℤ → Type 0
InRange now offset n s =
    (pos_part now + pos_part offset + neg_part s ≤ pos_part s + neg_part now + neg_part offset)
    × (pos_part s + neg_part now + neg_part offset
        < pos_part now + pos_part offset + neg_part s + n)

window_from_sound :
    (now offset : ℤ) (n : ℕ) (s : ℤ) → In s (window_from now offset n) → InRange now offset n s
unfolding window_from
window_from_sound now offset zero s h = absurd h
window_from_sound now offset (suc n) s (inl here) = rw here (omega (arith, +ℤ_parts now offset))
window_from_sound now offset (suc n) s (inr later) =
    let ih = window_from_sound now (offset +ℤ pos 1) n s later in
    omega (arith, ih, +ℤ_parts offset (pos 1))

window_from_complete :
    (now offset : ℤ) (n : ℕ) (s : ℤ) → InRange now offset n s → In s (window_from now offset n)
unfolding window_from
window_from_complete now offset zero s h = absurd (omega arith)
window_from_complete now offset (suc n) s h =
    elim (dec_lt (pos_part now + pos_part offset + neg_part s)
      (pos_part s + neg_part now + neg_part offset)) [
        | yes later ↦ inr (
            window_from_complete now (offset +ℤ pos 1) n s (omega (arith, +ℤ_parts offset (pos 1))))
        | no here ↦ inl (eq_of_parts s (now +ℤ offset) (omega (arith, +ℤ_parts now offset)))
      ]

-- The steps that a typed code is tried at are those that a scanned code may carry: `stepWindow`
-- lists exactly the steps that `stepIsCurrent` accepts.
pub In-step_window_iff :
    (s now : ℤ) (tolerance : ℕ)
    → In s (step_window now tolerance) ↔ (step_is_current s now tolerance ≡ true)
unfolding step_window step_is_current
In-step_window_iff s now tolerance = (to, from)
  where
    low : ℤ
    low = pos 0 -ℤ pos tolerance

    steps : ℕ
    steps = tolerance + tolerance + 1

    to : In s (window_from now low steps) → leb (abs (s -ℤ now)) tolerance ≡ true
    to h = (leb_iff _ _).1 (
        (abs-le_iff _ _).1 (
          omega (
            arith,
            window_from_sound now low steps s h,
            -ℤ_parts s now,
            -ℤ_parts (pos 0) (pos tolerance),
            parts_zero (s -ℤ now),
          )))

    from : leb (abs (s -ℤ now)) tolerance ≡ true → In s (window_from now low steps)
    from h = window_from_complete now low steps s (
        omega (
          arith,
          (abs-le_iff (s -ℤ now) tolerance).0 ((leb_iff _ _).0 h),
          -ℤ_parts s now,
          -ℤ_parts (pos 0) (pos tolerance),
        ))

module _ (code_at : Text → ℤ → Text) (secret code : Text) where
  any_step_sound :
      (steps : List ℤ)
      → any_step code_at secret code steps ≡ true
      → (s : ℤ) × In s steps × (text_eq (code_at secret s) code ≡ true)
  unfolding any_step
  any_step_sound [] h = cc
  any_step_sound (s ∷ steps) h = elim (Bool-cases (text_eq (code_at secret s) code)) [
    | inl e ↦ (s, inl refl, e)
    | inr e ↦
        let (s', later, e') = any_step_sound steps (rw (e, any_step) at h) in (s', inr later, e')
  ]

  any_step_complete :
      (steps : List ℤ) (s : ℤ)
      → In s steps
      → text_eq (code_at secret s) code ≡ true
      → any_step code_at secret code steps ≡ true
  unfolding any_step
  any_step_complete [] s h e = absurd h
  any_step_complete (r ∷ steps) s (inl here) e = rw (← here, e)
  any_step_complete (r ∷ steps) s (inr later) e = ground (arith, any_step_complete steps s later e)

  -- What a code from a QR has to be.
  pub scanned_code_iff :
      (s now : ℤ) (tolerance : ℕ)
      → (verify_code code_at secret code (some s) now tolerance ≡ true) ↔ (
          (code_pattern code ≡ true)
          × (step_is_current s now tolerance ≡ true)
          × (text_eq (code_at secret s) code ≡ true))
  unfolding verify_code
  scanned_code_iff s now tolerance = ground arith

  typed_code_lem :
      (now : ℤ) (tolerance : ℕ)
      → (verify_code code_at secret code none now tolerance ≡ true) ↔ (
          (code_pattern code ≡ true)
          × (any_step code_at secret code (step_window now tolerance) ≡ true))
  unfolding verify_code
  typed_code_lem now tolerance = ground arith

  -- A typed code is accepted exactly when some step can be named at which the same code would be
  -- accepted from a QR: typing a code neither widens nor narrows the window of tolerance.
  pub typed_code_iff :
      (now : ℤ) (tolerance : ℕ)
      → (verify_code code_at secret code none now tolerance ≡ true)
        ↔ ((s : ℤ) × (verify_code code_at secret code (some s) now tolerance ≡ true))
  typed_code_iff now tolerance = (
    λ h.
        let (shape, hit) = (typed_code_lem now tolerance).0 h in
        let (s, listed, same) = any_step_sound (step_window now tolerance) hit in
        (
          s,
          (scanned_code_iff s now tolerance).1
              (shape, (In-step_window_iff s now tolerance).0 listed, same),
        ),
    λ (s, h).
        let (shape, current, same) = (scanned_code_iff s now tolerance).0 h in
        (typed_code_lem now tolerance).1 (
          shape,
          any_step_complete (step_window now tolerance) s
              ((In-step_window_iff s now tolerance).1 current) same,
        ),
  )
