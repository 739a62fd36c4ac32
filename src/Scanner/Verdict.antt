-- ===== src/Scanner/Verdict.antt =====
-- fe/src/modules/scanner/lib/verdict.ts: the decision that a desk makes.
pub mod Meaning
use sterun.Common.{
  Text, ℕ, Bool, true, false, not, ◌&&◌, ◌||◌, List, [], ◌∷◌, Option, none, some, ◌==◌,
  if◌then◌else◌, filter, find?,
}
use sterun.Common.Int.{ℤ}
use sterun.Scanner.Verify.{verify_code}
use sterun.Scanner.Store.{RecordState, entered, RosterEntry, QueuedClaim}

pub data Presented : Type 0 where
  qr : (token_id : ℕ) (step : ℤ) (code : Text) → Presented
  typed : (bib_no : ℕ) (code : Text) → Presented

pub data Verdict : Type 0 where
  green : RosterEntry → Verdict
  expired : Option RosterEntry → Verdict
  claimed : RosterEntry → Option QueuedClaim → Verdict
  unknown : Option ℕ → Verdict

-- The part of a roster that the verdict reads.
pub record Roster : Type 0 where
  pub entries : List RosterEntry
  pub step_seconds : ℕ
  pub tolerance_steps : ℕ

abbrev pub code_of : Presented → Text
code_of (qr token_id step code) = code
code_of (typed bib_no code) = code

abbrev pub step_of : Presented → Option ℤ
step_of (qr token_id step code) = some step
step_of (typed bib_no code) = none

unfoldable pub is_entered : RecordState → Bool
is_entered entered = true
is_entered _ = false

module _ (code_at : Text → ℤ → Text) (presented : Presented) (roster : Roster)
    (claims : List QueuedClaim) (now_step : ℤ) where
  unfoldable pub check : RosterEntry → Bool
  check entry =
      verify_code code_at entry.totp_secret (code_of presented) (step_of presented) now_step
        roster.tolerance_steps

  -- From the runner that was found on.
  unfoldable pub decide_entry : RosterEntry → Option QueuedClaim → Verdict
  decide_entry entry (some claim) = claimed entry (some claim)
  decide_entry entry none =
      if not (is_entered entry.state)
      then claimed entry none
      else if not (check entry)
      then expired (some entry)
      else green entry

  unfoldable pub with_entry : RosterEntry → Verdict
  with_entry entry = decide_entry entry (find? (λ row. row.token_id == entry.token_id) claims)

  -- The candidates of a typed bib; with several, the code picks the first that it fits.
  unfoldable pub pick_candidate : ℕ → List RosterEntry → Verdict
  pick_candidate bib_no [] = unknown (some bib_no)
  pick_candidate bib_no (entry ∷ []) = with_entry entry
  pick_candidate bib_no (a ∷ b ∷ rest) = elim (find? check (a ∷ b ∷ rest)) [
    | some entry ↦ with_entry entry
    | none ↦ expired none
  ]

  unfoldable pub verdict_for : Verdict
  verdict_for = elim presented [
    | qr token_id step code ↦
        elim (find? (λ candidate. candidate.token_id == token_id) roster.entries) [
          | some entry ↦ with_entry entry
          | none ↦ unknown none
        ]
    | typed bib_no code ↦
        pick_candidate bib_no (filter (λ candidate. candidate.bib_no == bib_no) roster.entries)
  ]
