-- ===== src/Scanner/Send.antt =====
-- fe/src/modules/scanner/lib/send-claims.ts: the claims of a phone are sent to the chain, one at a
-- time, in the order of the handovers. What the wallet and the chain answer for a token is a
-- parameter of the run; an error is what the code asks of it. `onSending` is display and is left out.
pub mod Run
pub mod Stops
use sterun.Common.{
  ℕ, Bool, true, false, not, ◌&&◌, List, [], ◌∷◌, Option, none, some, if◌then◌else◌, filter,
  sort_by, String,
}
use sterun.Scanner.Store.{
  RecordState, entered, ClaimStatus, waiting, sent, refused, already_claimed, not_found,
  QueuedClaim, Outcome, ClaimStore, mark_claim,
}
use sterun.Scanner.Verdict.{is_entered}

-- What `claimRacepack` reverted with, as far as the run tells the codes apart.
pub data Revert : Type 0 where
  reverted_already_claimed record_not_found not_authorized another_code : Revert

pub record Failure : Type 0 where
  pub revert : Option Revert
  pub is_no_answer : Bool
  pub is_declined : Bool
  pub message : String

pub data Answer : Type 0 where
  landed : (tx_hash : String) (ledger : Option ℕ) → Answer
  failed : Failure → Answer

pub data SendStop : Type 0 where
  declined not_scanner no_answer : SendStop
  gave_up : String → SendStop

-- One round of the run: the row is settled and the run goes on, or the run stops.
pub data Attempt : Type 0 where
  settle : Outcome → Attempt
  stop : SendStop → Attempt

unfoldable pub refused_as_claimed : Option ℕ → Outcome
refused_as_claimed claimed_at = record {
  status = refused;
  tx_hash = none;
  ledger = none;
  reason = some already_claimed;
  claimed_at = claimed_at;
}

abbrev pub ChainRecord : Type 0
ChainRecord = RecordState × Option ℕ

unfoldable pub read_claimed_at : Option ChainRecord → Option ℕ
read_claimed_at none = none
read_claimed_at (some (state, claimed_at)) = claimed_at

-- An error that says nothing certain: the chain is asked what happened.
unfoldable pub ask_chain : Option ChainRecord → Failure → Attempt
ask_chain none failure = stop (gave_up failure.message)
ask_chain (some (state, claimed_at)) failure =
    if not (is_entered state)
    then settle (refused_as_claimed claimed_at)
    else stop (gave_up failure.message)

unfoldable pub after_revert : Option ChainRecord → Failure → Attempt
after_revert chain failure =
    if failure.is_no_answer
    then stop no_answer
    else if failure.is_declined
    then stop declined
    else ask_chain chain failure

-- The `catch` of a round.
unfoldable pub handle : Option ChainRecord → Failure → Attempt
handle chain failure = elim failure.revert [
  | some reverted_already_claimed ↦ settle (refused_as_claimed (read_claimed_at chain))
  | some record_not_found ↦ settle (record {
    status = refused;
    tx_hash = none;
    ledger = none;
    reason = some not_found;
    claimed_at = none;
  })
  | some not_authorized ↦ stop not_scanner
  | some another_code ↦ after_revert chain failure
  | none ↦ after_revert chain failure
]

unfoldable pub attempt : Option ChainRecord → Answer → Attempt
attempt chain (landed tx_hash ledger) = settle (record {
  status = sent;
  tx_hash = some tx_hash;
  ledger = ledger;
  reason = none;
  claimed_at = none;
})
attempt chain (failed failure) = handle chain failure

unfoldable pub is_waiting : ClaimStatus → Bool
is_waiting waiting = true
is_waiting _ = false

-- The rows of a run, in the order in which the packs were handed over.
unfoldable pub waiting_rows : List QueuedClaim → List QueuedClaim
waiting_rows claims = sort_by (λ c. c.scanned_at) (filter (λ c. is_waiting c.status) claims)

module _ (send : ℕ → Answer) (record_of : ℕ → Option ChainRecord) where
  -- The loop over the waiting rows.
  unfoldable pub send_rows : ClaimStore → List QueuedClaim → ClaimStore × Option SendStop
  send_rows store [] = (store, none)
  send_rows store (claim ∷ rows) = elim (attempt (record_of claim.token_id) (send claim.token_id)) [
    | settle outcome ↦ send_rows (mark_claim store claim.token_id outcome) rows
    | stop why ↦ (store, some why)
  ]

  unfoldable pub send_claims : ClaimStore → List QueuedClaim → ClaimStore × Option SendStop
  send_claims store claims = send_rows store (waiting_rows claims)
