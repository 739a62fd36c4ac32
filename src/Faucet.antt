-- ===== src/Faucet.antt =====
-- be/src/faucet.ts and routes/faucet.ts: who may be paid. The table `faucet_payouts` is a list with
-- the latest row first, and its serial is a number. A claim runs alone, under one lock; the time of a
-- claim is that of its transaction's start, in milliseconds, so it need not grow from one claim to
-- the next. What the wallet check, Horizon and the payment answer is given.
pub mod Fading
pub mod Limits
pub mod Tests
use sterun.Common.{
  ℕ, ◌+◌, ◌*◌, ◌≤◌, ◌<◌, String, Bool, true, false, not, ◌&&◌, List, [], ◌∷◌, Option, none, some,
  ◌==◌, str_eq, ltb, if◌then◌else◌, find?, filter, map, All, ◌≡◌,
}

pub data PayoutStatus : Type 0 where
  pending paid failed : PayoutStatus

pub record Payout : Type 0 where
  pub id : ℕ
  pub address : String
  pub amount_stroops : ℕ
  pub status : PayoutStatus
  pub tx_hash : Option String
  pub requested_at : ℕ

pub record Payouts : Type 0 where
  pub rows : List Payout
  pub next_id : ℕ

pub data ClaimOutcome : Type 0 where
  claimed : (payout_id : ℕ) → ClaimOutcome
  address_window daily_cap : (retry_at : ℕ) → ClaimOutcome

pub record ClaimRequest : Type 0 where
  pub address : String
  pub amount_stroops : ℕ
  pub window_hours : ℕ
  pub daily_cap_stroops : ℕ

abbrev pub hour_ms : ℕ
hour_ms = 3_600_000

abbrev pub day_ms : ℕ
day_ms = 24 * hour_ms

-- `status IN ('pending', 'paid')`.
unfoldable pub counts : Payout → Bool
counts p = elim p.status [ failed ↦ false | _ ↦ true ]

-- `requested_at > now() - interval`.
unfoldable pub is_within : ℕ → ℕ → Payout → Bool
is_within now interval p = counts p && ltb now (p.requested_at + interval)

-- The largest and the smallest `requested_at`.
unfoldable pub latest_request : List Payout → Option ℕ
latest_request [] = none
latest_request (p ∷ rest) = elim (latest_request rest) [
  | none ↦ some p.requested_at
  | some t ↦ some (if ltb t p.requested_at then p.requested_at else t)
]

unfoldable pub earliest_request : List Payout → Option ℕ
earliest_request [] = none
earliest_request (p ∷ rest) = elim (earliest_request rest) [
  | none ↦ some p.requested_at
  | some t ↦ some (if ltb p.requested_at t then p.requested_at else t)
]

unfoldable pub total_stroops : List Payout → ℕ
total_stroops [] = 0
total_stroops (p ∷ rest) = p.amount_stroops + total_stroops rest

unfoldable pub insert_payout : Payouts → ℕ → ClaimRequest → Payouts
insert_payout s now request = record {
  rows =
      record {
        id = s.next_id;
        address = request.address;
        amount_stroops = request.amount_stroops;
        status = pending;
        tx_hash = none;
        requested_at = now;
      }
      ∷ s.rows;
  next_id = s.next_id + 1;
}

unfoldable pub claim_cap : Payouts → ℕ → ClaimRequest → List Payout → Payouts × ClaimOutcome
claim_cap s now request today =
    if ltb request.daily_cap_stroops (total_stroops today + request.amount_stroops)
    then (s, daily_cap (elim (earliest_request today) [ none ↦ now | some t ↦ t + day_ms ]))
    else (insert_payout s now request, claimed s.next_id)

unfoldable pub claim_payout : Payouts → ℕ → ClaimRequest → Payouts × ClaimOutcome
claim_payout s now request =
    let window = request.window_hours * hour_ms in
    elim (latest_request
      (filter (λ p. str_eq p.address request.address && is_within now window p) s.rows)) [
        | some t ↦ (s, address_window (t + window))
        | none ↦ claim_cap s now request (filter (is_within now day_ms) s.rows)
      ]

pub data Settlement : Type 0 where
  settled_paid : (tx_hash : String) → Settlement
  settled_failed : Settlement

unfoldable pub settle_row : Settlement → Payout → Payout
settle_row (settled_paid tx_hash) p = record p { status = paid; tx_hash = some tx_hash }
settle_row settled_failed p = record p { status = failed; tx_hash = none }

unfoldable pub settle_rows : ℕ → Settlement → List Payout → List Payout
settle_rows payout_id outcome [] = []
settle_rows payout_id outcome (p ∷ rest) =
    (if p.id == payout_id then settle_row outcome p else p) ∷ settle_rows payout_id outcome rest

unfoldable pub settle_payout : Payouts → ℕ → Settlement → Payouts
settle_payout s payout_id outcome = record s { rows = settle_rows payout_id outcome s.rows }

-- What the payment's promise settles to: a hash, or an error that Horizon's result codes mark as a
-- rejection, or one that says nothing of the transaction.
pub data PayResult : Type 0 where
  sent : (tx_hash : String) → PayResult
  rejected unconfirmed : PayResult

unfoldable pub after_pay : Payouts → ℕ → PayResult → Payouts
after_pay s payout_id (sent tx_hash) = settle_payout s payout_id (settled_paid tx_hash)
after_pay s payout_id rejected = settle_payout s payout_id settled_failed
after_pay s payout_id unconfirmed = s
