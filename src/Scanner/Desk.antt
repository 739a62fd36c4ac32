-- ===== src/Scanner/Desk.antt =====
-- fe/src/modules/scanner/ScanDeskPage.tsx: `decide`, one scan at a desk. Scans are taken one after
-- another, as the page reads no code while a verdict is on screen. The clock is an argument, in
-- milliseconds; what is drawn on screen is left out.
pub mod Once
use sterun.Common.{Text, ℕ, ◌*◌, ◌/◌, List, [], ◌∷◌, none}
use sterun.Common.Int.{ℤ, pos}
use sterun.Scanner.Store.{RosterEntry, waiting, ClaimStore, enqueue_claim, list_claims}
use sterun.Scanner.Verdict.{Presented, Verdict, green, Roster, verdict_for}

pub record Scan : Type 0 where
  pub presented : Presented
  pub now_ms : ℕ

module _ (code_at : Text → ℤ → Text) (event_id : ℕ) (roster : Roster) where
  -- A HAND OVER writes its claim; every other verdict leaves the store alone.
  unfoldable pub record_verdict : ClaimStore → ℕ → Verdict → ClaimStore
  record_verdict store now_ms (green entry) = enqueue_claim store (record {
    token_id = entry.token_id;
    bib_no = entry.bib_no;
    event_id = event_id;
    scanned_at = now_ms;
    status = waiting;
    tx_hash = none;
    ledger = none;
    reason = none;
    claimed_at = none;
  })
  record_verdict store now_ms _ = store

  unfoldable pub verdict_at : ClaimStore → Scan → Verdict
  verdict_at store scan =
      verdict_for code_at scan.presented roster (list_claims store event_id)
        (pos (scan.now_ms / (1000 * roster.step_seconds)))

  unfoldable pub decide : ClaimStore → Scan → ClaimStore × Verdict
  decide store scan =
      let verdict = verdict_at store scan in (record_verdict store scan.now_ms verdict, verdict)

  -- The verdicts of a sequence of scans.
  unfoldable pub desk : ClaimStore → List Scan → List Verdict
  desk store [] = []
  desk store (scan ∷ scans) =
      let (store', verdict) = decide store scan in verdict ∷ desk store' scans
