-- ===== src/Scanner/Verdict/Meaning.antt =====
-- What each verdict of a desk says of the runner, the roster and the claims.
use sterun.Common.{
  Text, ℕ, ◌≤◌, length, ap, Bool, true, false, List, [], ◌∷◌, Option, none, some, ◌==◌, ==_iff,
  filter, find?, In, In-filter, In-filter_of, find?-some, find?-none, ◌≡◌, refl, ◌≢◌, inl, inr,
  arith, Option-cases, Bool-cases,
}
use sterun.Common.Int.{ℤ}
use sterun.Scanner.Verify.{verify_code}
use sterun.Scanner.Store.{RecordState, entered, RosterEntry, QueuedClaim}
use sterun.Scanner.Verdict.{
  Presented, qr, typed, Verdict, green, expired, claimed, unknown, Roster, code_of, step_of,
  is_entered, check, decide_entry, with_entry, pick_candidate, verdict_for,
}

-- The runner that was presented: the token of the QR, or the typed bib.
abbrev pub Presents : Presented → RosterEntry → Type 0
Presents (qr token_id step code) e = e.token_id ≡ token_id
Presents (typed bib_no code) e = e.bib_no ≡ bib_no

is_entered-true : (s : RecordState) → is_entered s ≡ true → s ≡ entered
unfolding is_entered
is_entered-true s h = ground arith

is_entered-false : (s : RecordState) → is_entered s ≡ false → s ≢ entered
unfolding is_entered
is_entered-false s h e = ground arith

module _ (code_at : Text → ℤ → Text) (presented : Presented) (roster : Roster)
    (claims : List QueuedClaim) (now_step : ℤ) where
  abbrev pub Unclaimed : RosterEntry → Type 0
  Unclaimed e = (c : QueuedClaim) → In c claims → c.token_id ≢ e.token_id

  abbrev pub Verifies : RosterEntry → Bool → Type 0
  Verifies e b =
      verify_code code_at e.totp_secret (code_of presented) (step_of presented) now_step
        roster.tolerance_steps
      ≡ b

  -- The runners of the roster that carry a bib.
  abbrev pub with_bib : ℕ → List RosterEntry
  with_bib bib_no = filter (λ e. e.bib_no == bib_no) roster.entries

  -- The meaning of the four screens.
  abbrev pub Explained : Verdict → Type 0
  Explained (green e) =
      In e roster.entries
      × Presents presented e
      × (e.state ≡ entered)
      × Unclaimed e
      × Verifies e true
  Explained (claimed e (some c)) =
      In e roster.entries × Presents presented e × In c claims × (c.token_id ≡ e.token_id)
  Explained (claimed e none) =
      In e roster.entries × Presents presented e × Unclaimed e × (e.state ≢ entered)
  Explained (expired (some e)) =
      In e roster.entries
      × Presents presented e
      × (e.state ≡ entered)
      × Unclaimed e
      × Verifies e false
  Explained (expired none) =
      (bib_no : ℕ) × (code : Text) × (presented ≡ typed bib_no code)
      × (2 ≤ length (with_bib bib_no))
      × ((e : RosterEntry) → In e roster.entries → Presents presented e → Verifies e false)
  Explained (unknown o) = (e : RosterEntry) → In e roster.entries → ¬ Presents presented e

  decide_entry_lem :
      (e : RosterEntry) (o : Option QueuedClaim)
      → find? (λ row. row.token_id == e.token_id) claims ≡ o
      → In e roster.entries
      → Presents presented e
      → Explained (decide_entry code_at presented roster claims now_step e o)
  unfolding decide_entry
  decide_entry_lem e (some c) found listed named =
      let (at, hit) = find?-some (λ row. row.token_id == e.token_id) claims c found in
      (listed, named, at, (==_iff c.token_id e.token_id).0 hit)
  decide_entry_lem e none found listed named = elim (Bool-cases (is_entered e.state)) [
    | inl fresh ↦ elim (Bool-cases (check code_at presented roster claims now_step e)) [
      | inl good ↦
          rw (fresh, good)
            (listed, named, is_entered-true e.state fresh, unclaimed, unfold check in good)
      | inr bad ↦
          rw (fresh, bad)
            (listed, named, is_entered-true e.state fresh, unclaimed, unfold check in bad)
    ]
    | inr stale ↦ rw stale (listed, named, unclaimed, is_entered-false e.state stale)
  ]
    where
      unclaimed : Unclaimed e
      unclaimed c at hit = cc (
        find?-none (λ row. row.token_id == e.token_id) claims c found at,
        (==_iff c.token_id e.token_id).1 hit,
      )

  with_entry_lem :
      (e : RosterEntry)
      → In e roster.entries
      → Presents presented e
      → Explained (with_entry code_at presented roster claims now_step e)
  unfolding with_entry
  with_entry_lem e listed named = decide_entry_lem e _ refl listed named

  pick_candidate_lem :
      (bib_no : ℕ) (code : Text) (candidates : List RosterEntry)
      → presented ≡ typed bib_no code
      → with_bib bib_no ≡ candidates
      → ((e : RosterEntry) → In e candidates → In e roster.entries × Presents presented e)
      → ((e : RosterEntry) → In e roster.entries → Presents presented e → In e candidates)
      → Explained (pick_candidate code_at presented roster claims now_step bib_no candidates)
  unfolding pick_candidate
  pick_candidate_lem bib_no code [] asked all to from = λ e listed named. from e listed named
  pick_candidate_lem bib_no code (e ∷ []) asked all to from =
      let (listed, named) = to e (inl refl) in with_entry_lem e listed named
  pick_candidate_lem bib_no code (a ∷ b ∷ rest) asked all to from =
      elim (Option-cases (find? passes (a ∷ b ∷ rest))) [
        | inl miss ↦
            rw (miss, pick_candidate)
              (
                bib_no,
                code,
                asked,
                ground (arith, ap length all),
                λ e listed named.
                    unfold check in find?-none passes (a ∷ b ∷ rest) e miss (from e listed named),
              )
        | inr (e, hit) ↦
            let (at, _) = find?-some passes (a ∷ b ∷ rest) e hit in
            let (listed, named) = to e at in
            rw (hit, pick_candidate) (with_entry_lem e listed named)
      ]
    where
      passes : RosterEntry → Bool
      passes = check code_at presented roster claims now_step

-- Whatever is presented, the verdict means what its screen says. HAND OVER: a runner of the roster
-- whom the presented token or bib names, whose record was still Entered, whom no claim on this
-- phone is for, and whose secret verifies the code. Already claimed: such a runner with a claim on
-- this phone, or with a record that was not Entered. Expired: a runner still to collect whose code
-- does not verify, or a typed bib that several of the roster carry, none of whose secrets verifies the
-- code. Unknown: nobody on the roster is named.
pub verdict_for-Explained :
    (code_at : Text → ℤ → Text) (presented : Presented) (roster : Roster)
    (claims : List QueuedClaim) (now_step : ℤ)
    → Explained code_at presented roster claims now_step
        (verdict_for code_at presented roster claims now_step)
unfolding verdict_for
verdict_for-Explained code_at (qr token_id step code) roster claims now_step =
    elim (Option-cases (find? (λ e. e.token_id == token_id) roster.entries)) [
      | inl miss ↦
          rw (miss, verdict_for)
            (λ e listed named. cc (
              find?-none (λ c. c.token_id == token_id) roster.entries e miss listed,
              (==_iff e.token_id token_id).1 named,
            ))
      | inr (e, hit) ↦
          let (listed, same) = find?-some (λ c. c.token_id == token_id) roster.entries e hit in
          rw (hit, verdict_for)
            (with_entry_lem code_at (qr token_id step code) roster claims now_step e listed
              ((==_iff e.token_id token_id).0 same))
    ]
verdict_for-Explained code_at (typed bib_no code) roster claims now_step =
    pick_candidate_lem code_at (typed bib_no code) roster claims now_step bib_no code
      (filter (λ e. e.bib_no == bib_no) roster.entries) refl refl
      (λ e at.
        let (listed, same) = In-filter (λ c. c.bib_no == bib_no) e roster.entries at in
        (listed, (==_iff e.bib_no bib_no).0 same))
      (λ e listed named.
        In-filter_of (λ c. c.bib_no == bib_no) e roster.entries listed
          ((==_iff e.bib_no bib_no).1 named))
