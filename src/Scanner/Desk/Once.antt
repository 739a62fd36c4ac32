-- ===== src/Scanner/Desk/Once.antt =====
-- A desk hands over to a runner at most once.
use sterun.Common.{
  Text, ℕ, List, [], ◌∷◌, none, some, ◌==◌, ==_iff, In, Distinct, In-filter_of, In-sort_by,
  In-values, nat-Eq, get, get-put, get-put_self, ◌≡◌, refl, sym, subst, ◌*◌, ◌/◌, ◌≢◌, ◌⊎◌, inl,
  inr, arith, Option-cases,
}
use sterun.Common.Int.{ℤ, pos}
use sterun.Scanner.Store.{RosterEntry, QueuedClaim, ClaimStore, enqueue_claim, list_claims}
use sterun.Scanner.Verdict.{Verdict, green, expired, claimed, unknown, Roster}
use sterun.Scanner.Verdict.Meaning.{Explained, verdict_for-Explained}
use sterun.Scanner.Desk.{Scan, record_verdict, verdict_at, decide, desk}

-- The tokens that a sequence of verdicts hands over.
abbrev pub handed_over : List Verdict → List ℕ
handed_over [] = []
handed_over (green e ∷ vs) = e.token_id ∷ handed_over vs
handed_over (expired o ∷ vs) = handed_over vs
handed_over (claimed e o ∷ vs) = handed_over vs
handed_over (unknown o ∷ vs) = handed_over vs

-- A claim is kept under its own token, and is for this event.
abbrev pub IsKeyed : ℕ → ClaimStore → Type 0
IsKeyed event_id store =
    (t : ℕ) (c : QueuedClaim) → get store t ≡ some c → (c.token_id ≡ t) × (c.event_id ≡ event_id)

enqueue_claim-IsKeyed :
    (event_id : ℕ) (store : ClaimStore) (claim : QueuedClaim)
    → claim.event_id ≡ event_id
    → IsKeyed event_id store
    → IsKeyed event_id (enqueue_claim store claim)
unfolding enqueue_claim
enqueue_claim-IsKeyed event_id store claim e h t c at =
    elim (Option-cases (get store claim.token_id)) [
      | inl new ↦
          ground (arith, h t c, get-put store claim.token_id claim t, ==_iff claim.token_id t)
      | inr (old, there) ↦
          ground
            (arith, h t c, h t old, get-put store claim.token_id old t, ==_iff claim.token_id t)
    ]

enqueue_claim-recorded :
    (store : ClaimStore) (claim : QueuedClaim)
    → get (enqueue_claim store claim) claim.token_id ≢ none
unfolding enqueue_claim
enqueue_claim-recorded store claim h = elim (Option-cases (get store claim.token_id)) [
  | inl new ↦ ground (arith, get-put_self store claim.token_id claim)
  | inr (old, there) ↦ ground (arith, get-put_self store claim.token_id old)
]

enqueue_claim-keeps :
    (store : ClaimStore) (claim : QueuedClaim) (t : ℕ)
    → get store t ≢ none
    → get (enqueue_claim store claim) t ≢ none
unfolding enqueue_claim
enqueue_claim-keeps store claim t h e = elim (Option-cases (get store claim.token_id)) [
  | inl new ↦ h (ground (arith, get-put store claim.token_id claim t, ==_iff claim.token_id t))
  | inr (old, there) ↦
      h (ground (arith, get-put store claim.token_id old t, ==_iff claim.token_id t))
]

handed_over-cons :
    (v : Verdict) (vs : List Verdict) (t : ℕ)
    → In t (handed_over (v ∷ vs))
    → ((e : RosterEntry) × (v ≡ green e) × (t ≡ e.token_id)) ⊎ In t (handed_over vs)
handed_over-cons (green e) vs t (inl same) = inl (e, refl, same)
handed_over-cons (green e) vs t (inr later) = inr later
handed_over-cons (expired o) vs t h = inr h
handed_over-cons (claimed e o) vs t h = inr h
handed_over-cons (unknown o) vs t h = inr h

Distinct-cons :
    (v : Verdict) (vs : List Verdict)
    → Distinct (handed_over vs)
    → ((e : RosterEntry) → v ≡ green e → ¬ In e.token_id (handed_over vs))
    → Distinct (handed_over (v ∷ vs))
Distinct-cons (green e) vs d new = (new e refl, d)
Distinct-cons (expired o) vs d new = d
Distinct-cons (claimed e o) vs d new = d
Distinct-cons (unknown o) vs d new = d

In-list_claims :
    (event_id : ℕ) (store : ClaimStore) (t : ℕ) (c : QueuedClaim)
    → IsKeyed event_id store
    → get store t ≡ some c
    → In c (list_claims store event_id)
unfolding list_claims
In-list_claims event_id store t c keyed at =
    In-sort_by (λ d. d.scanned_at) c _
      (In-filter_of (λ d. d.event_id == event_id) c _
        (In-sort_by (λ d. d.token_id) c _ (In-values store t c at))
        ((==_iff c.event_id event_id).1 (keyed t c at).1))

module _ (code_at : Text → ℤ → Text) (event_id : ℕ) (roster : Roster) where
  record_verdict-IsKeyed :
      (store : ClaimStore) (now_ms : ℕ) (v : Verdict)
      → IsKeyed event_id store
      → IsKeyed event_id (record_verdict code_at event_id roster store now_ms v)
  unfolding record_verdict
  record_verdict-IsKeyed store now_ms (green e) h = enqueue_claim-IsKeyed event_id store _ refl h
  record_verdict-IsKeyed store now_ms _ h = h

  record_verdict-keeps :
      (store : ClaimStore) (now_ms : ℕ) (v : Verdict) (t : ℕ)
      → get store t ≢ none
      → get (record_verdict code_at event_id roster store now_ms v) t ≢ none
  unfolding record_verdict
  record_verdict-keeps store now_ms (green e) t h = enqueue_claim-keeps store _ t h
  record_verdict-keeps store now_ms _ t h = h

  record_verdict-green :
      (store : ClaimStore) (now_ms : ℕ) (e : RosterEntry)
      → get (record_verdict code_at event_id roster store now_ms (green e)) e.token_id ≢ none
  unfolding record_verdict
  record_verdict-green store now_ms e = enqueue_claim-recorded store _

  -- A runner whose claim is on the phone is not handed a second pack.
  verdict_at-recorded :
      (store : ClaimStore) (scan : Scan) (e : RosterEntry)
      → IsKeyed event_id store
      → get store e.token_id ≢ none
      → verdict_at code_at event_id roster store scan ≢ green e
  unfolding verdict_at
  verdict_at-recorded store scan e keyed old h = elim (Option-cases (get store e.token_id)) [
    | inl new ↦ old new
    | inr (c, at) ↦
        let now = pos (scan.now_ms / (1000 * roster.step_seconds)) in
        let meaning =
          subst (Explained code_at scan.presented roster (list_claims store event_id) now) h (
            verdict_for-Explained code_at scan.presented roster (list_claims store event_id) now) in
        meaning.3 c (In-list_claims event_id store e.token_id c keyed at) (keyed e.token_id c at).0
  ]

  handed_over-fresh :
      (store : ClaimStore) (scans : List Scan) (t : ℕ)
      → IsKeyed event_id store
      → get store t ≢ none
      → ¬ In t (handed_over (desk code_at event_id roster store scans))
  unfolding desk decide
  handed_over-fresh store [] t keyed old h = h
  handed_over-fresh store (scan ∷ scans) t keyed old h =
      let v = verdict_at code_at event_id roster store scan in
      elim (handed_over-cons v _ t h) [
        | inl (e, is_green, same) ↦
            verdict_at-recorded store scan e keyed (rw (← same) old) is_green
        | inr later ↦
            handed_over-fresh (record_verdict code_at event_id roster store scan.now_ms v) scans t
              (record_verdict-IsKeyed store scan.now_ms v keyed)
              (record_verdict-keeps store scan.now_ms v t old) later
      ]

  desk-Distinct :
      (store : ClaimStore) (scans : List Scan)
      → IsKeyed event_id store
      → Distinct (handed_over (desk code_at event_id roster store scans))
  unfolding desk decide
  desk-Distinct store [] keyed = tt
  desk-Distinct store (scan ∷ scans) keyed =
      let v = verdict_at code_at event_id roster store scan in
      let store' = record_verdict code_at event_id roster store scan.now_ms v in
      let keyed' = record_verdict-IsKeyed store scan.now_ms v keyed in
      Distinct-cons v _ (desk-Distinct store' scans keyed') λ e is_green.
        handed_over-fresh store' scans e.token_id keyed' (
          subst
            (λ w.
              get (record_verdict code_at event_id roster store scan.now_ms w) e.token_id ≢ none)
            (sym is_green) (record_verdict-green store scan.now_ms e))

-- However the scans at a desk go, no token is handed over twice, and no token is whose claim was on
-- the phone when the desk opened, if each claim on the phone is kept under its own token and is for
-- this event.
pub desk_hands_over_once :
    (code_at : Text → ℤ → Text) (event_id : ℕ) (roster : Roster) (store : ClaimStore)
    (scans : List Scan)
    → IsKeyed event_id store
    → Distinct (handed_over (desk code_at event_id roster store scans))
      × ((t : ℕ)
          → In t (handed_over (desk code_at event_id roster store scans))
          → get store t ≡ none)
desk_hands_over_once code_at event_id roster store scans keyed = (
  desk-Distinct code_at event_id roster store scans keyed,
  λ t h. elim (Option-cases (get store t)) [
    | inl new ↦ new
    | inr (c, at) ↦
        absurd (handed_over-fresh code_at event_id roster store scans t keyed (λ e. cc (e, at)) h)
  ],
)
