-- ===== src/Scanner/Tests.antt =====
-- The scanner's theorems at a small roster.
use sterun.Common.{
  Text, text_eq, ℕ, true, false, List, [], ◌∷◌, Option, none, some, ◌==◌, if◌then◌else◌, In,
  Ordered, Distinct, get, put, nat-Eq, sort_by, ◌≡◌, refl, ◌↔◌, inl, inr, arith,
}
use sterun.Common.Int.{ℤ, pos, negsuc, ◌+ℤ◌, ◌-ℤ◌, abs}
use sterun.Scanner.Verify.{
  code_pattern, window_from, step_window, step_is_current, any_step, verify_code,
}
use sterun.Scanner.Verify.Window.{In-step_window_iff, typed_code_iff}
use sterun.Scanner.Store.{
  entered, RosterEntry, QueuedClaim, ClaimStore, waiting, enqueue_claim, merge, mark_claim,
  list_claims,
}
use sterun.Scanner.Verdict.{
  Presented, qr, typed, Roster, is_entered, check, decide_entry, with_entry, pick_candidate,
  verdict_for,
}
use sterun.Scanner.Verdict.Meaning.{Explained, verdict_for-Explained}
use sterun.Scanner.Desk.{Scan, record_verdict, verdict_at, decide, desk}
use sterun.Scanner.Desk.Once.{handed_over, desk_hands_over_once}
use sterun.Scanner.Send.{
  Answer, landed, failed, not_authorized, ChainRecord, refused_as_claimed, read_claimed_at,
  ask_chain, after_revert, handle, attempt, is_waiting, waiting_rows, send_rows, send_claims,
}
use sterun.Scanner.Send.Run.{tokens, Progress, send_claims-Progress}

scanner_runs : Unit {0}
unfolding text_eq code_pattern window_from step_window step_is_current any_step verify_code
    enqueue_claim merge mark_claim list_claims is_entered check decide_entry with_entry
    pick_candidate verdict_for record_verdict verdict_at decide desk refused_as_claimed
    read_claimed_at ask_chain after_revert handle attempt is_waiting waiting_rows send_rows
    send_claims sort_by get put ◌+ℤ◌ ◌-ℤ◌ abs
scanner_runs = tt

-- A code is the secret itself in step 100, and nothing in any other step.
abbrev sample_code_at : Text → ℤ → Text
sample_code_at secret (pos n) = if n == 100 then secret else []
sample_code_at secret (negsuc n) = []

abbrev sample_code : Text
sample_code = b'1' ∷ b'2' ∷ b'3' ∷ b'4' ∷ b'5' ∷ b'6' ∷ []

abbrev runner : ℕ → ℕ → RosterEntry
runner token bib = record {
  token_id = token;
  bib_no = bib;
  category_id = 0;
  state = entered;
  name_fragment = some "Budi S.";
  add_ons = [];
  totp_secret = sample_code;
}

abbrev sample_roster : Roster
sample_roster = record {
  entries = runner 7 1 ∷ runner 8 2 ∷ [];
  step_seconds = 30;
  tolerance_steps = 1;
}

abbrev sample_scan : Presented → ℕ → Scan
sample_scan presented now_ms = record { presented = presented; now_ms = now_ms }

-- The same runner twice, then another by a typed bib, in step 101.
abbrev sample_scans : List Scan
sample_scans =
    sample_scan (qr 7 (pos 100) sample_code) 3_030_000
    ∷ sample_scan (qr 7 (pos 100) sample_code) 3_031_000
    ∷ sample_scan (typed 2 sample_code) 3_032_000
    ∷ []

desk_test : handed_over (desk sample_code_at 4 sample_roster [] sample_scans) ≡ 7 ∷ 8 ∷ []
unfolding scanner_runs
desk_test = refl

desk_hands_over_once_example :
    Distinct (handed_over (desk sample_code_at 4 sample_roster [] sample_scans))
    × ((t : ℕ)
        → In t (handed_over (desk sample_code_at 4 sample_roster [] sample_scans))
        → get {K = ℕ} {V = QueuedClaim} [] t ≡ none)
unfolding get
desk_hands_over_once_example =
    desk_hands_over_once sample_code_at 4 sample_roster [] sample_scans (λ t c e. cc)

typed_code_iff_example :
    (verify_code sample_code_at sample_code sample_code none (pos 101) 1 ≡ true)
    ↔ ((s : ℤ) × (verify_code sample_code_at sample_code sample_code (some s) (pos 101) 1 ≡ true))
typed_code_iff_example = typed_code_iff sample_code_at sample_code sample_code (pos 101) 1

In-step_window_iff_example :
    In (pos 100) (step_window (pos 101) 1) ↔ (step_is_current (pos 100) (pos 101) 1 ≡ true)
In-step_window_iff_example = In-step_window_iff (pos 100) (pos 101) 1

verdict_for-Explained_example :
    Explained sample_code_at
      (typed 2 sample_code)
      sample_roster
      []
      (pos 101)
      (verdict_for sample_code_at (typed 2 sample_code) sample_roster [] (pos 101))
verdict_for-Explained_example =
    verdict_for-Explained sample_code_at (typed 2 sample_code) sample_roster [] (pos 101)

-- The first claim lands, and the wallet is no scanner for the second.
abbrev sample_send : ℕ → Answer
sample_send t =
    if t == 7
    then landed "abc" (some 51)
    else failed (record {
      revert = some not_authorized;
      is_no_answer = false;
      is_declined = false;
      message = "";
    })

abbrev sample_record_of : ℕ → Option ChainRecord
sample_record_of t = none

abbrev queued : ℕ → ℕ → QueuedClaim
queued token at = record {
  token_id = token;
  bib_no = 1;
  event_id = 4;
  scanned_at = at;
  status = waiting;
  tx_hash = none;
  ledger = none;
  reason = none;
  claimed_at = none;
}

abbrev sample_claims : List QueuedClaim
sample_claims = queued 8 20 ∷ queued 7 10 ∷ []

abbrev sample_store : ClaimStore
sample_store = (7, queued 7 10) ∷ (8, queued 8 20) ∷ []

send_claims-Progress_example :
    Progress sample_send sample_record_of sample_store
      (send_claims sample_send sample_record_of sample_store sample_claims).0
      (waiting_rows sample_claims)
      (send_claims sample_send sample_record_of sample_store sample_claims).1
    × Ordered (λ c. c.scanned_at) (waiting_rows sample_claims)
    × ((c : QueuedClaim)
        → In c (waiting_rows sample_claims) ↔ (In c sample_claims × (c.status ≡ waiting)))
    × ((u : ℕ)
        → ¬ In u (tokens (waiting_rows sample_claims))
        → get (send_claims sample_send sample_record_of sample_store sample_claims).0 u
          ≡ get sample_store u)
unfolding scanner_runs
send_claims-Progress_example =
    send_claims-Progress sample_send sample_record_of sample_store sample_claims (omega arith) there
  where
    there :
        (d : QueuedClaim)
        → In d (waiting_rows sample_claims)
        → (old : QueuedClaim) × (get sample_store d.token_id ≡ some old)
    there d (inl e) = (queued 7 10, rw e refl)
    there d (inr (inl e)) = (queued 8 20, rw e refl)
    there d (inr (inr none')) = elim none' [ ]
