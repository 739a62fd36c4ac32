-- ===== src/Faucet/Tests.antt =====
-- The faucet's limits after a claim that is paid and one that is refused.
use sterun.Common.{ℕ, ◌+◌, ◌*◌, ◌≤◌, ◌<◌, true, [], some, filter, get_elem?, ◌≡◌, refl}
use sterun.Faucet.{
  Payout, Payouts, ClaimOutcome, claimed, address_window, hour_ms, counts, is_within,
  latest_request, earliest_request, total_stroops, insert_payout, claim_cap, claim_payout,
  settle_row, settle_rows, settle_payout, sent, after_pay,
}
use sterun.Faucet.Fading.{Limits, request_of, in_day}
use sterun.Faucet.Limits.{claims, settles, Reachable, starts, continues, faucet_limits}

abbrev sample_limits : Limits
sample_limits = record { amount_stroops = 10; window_hours = 1; daily_cap_stroops = 15 }

abbrev no_payouts : Payouts
no_payouts = record { rows = []; next_id = 1 }

abbrev claimed_once : Payouts
claimed_once = (claim_payout no_payouts 50 (request_of sample_limits "G1")).0

claim_outcomes :
    ((claim_payout no_payouts 50 (request_of sample_limits "G1")).1 ≡ claimed 1)
    × ((claim_payout claimed_once 60 (request_of sample_limits "G1")).1 ≡ address_window 3_600_050)
    × ((claim_payout claimed_once 60 (request_of sample_limits "G2")).1
        ≡ ClaimOutcome.daily_cap 86_400_050)
unfolding counts is_within latest_request earliest_request total_stroops insert_payout claim_cap
    claim_payout
claim_outcomes = (refl, refl, refl)

abbrev paid_once : Payouts
paid_once = after_pay claimed_once 1 (sent "tx")

paid_once-Reachable : Reachable sample_limits paid_once
unfolding counts is_within latest_request earliest_request total_stroops insert_payout claim_cap
    claim_payout settle_row settle_rows settle_payout after_pay
paid_once-Reachable =
    continues claimed_once _ (continues no_payouts _ starts (claims no_payouts 50 "G1"))
      (settles claimed_once 1 (sent "tx") (λ e. refl, tt))

faucet_limits_example :
    ((i j : ℕ) (new old : Payout)
      → i < j
      → get_elem? paid_once.rows i ≡ some new
      → get_elem? paid_once.rows j ≡ some old
      → counts new ≡ true
      → counts old ≡ true
      → old.address ≡ new.address
      → old.requested_at + 1 * hour_ms ≤ new.requested_at)
    × ((day_end : ℕ) → total_stroops (filter (in_day day_end) paid_once.rows) ≤ 15)
faucet_limits_example = faucet_limits sample_limits paid_once paid_once-Reachable
