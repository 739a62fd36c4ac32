-- ===== src/Faucet/Limits.antt =====
-- The two limits of the faucet, over everything that can happen to its table.
use sterun.Common.{
  ℕ, ◌+◌, ◌*◌, ◌≤◌, ◌<◌, String, true, ◌&&◌, List, [], some, str_eq, ltb, ltb_iff, filter, ◌≡◌,
  refl, sym, subst, ◌⊎◌, ◌∙◌, get_elem?, arith, Bool-cases, Option-cases, inl, inr,
}
use sterun.Faucet.{
  Payout, Payouts, hour_ms, day_ms, counts, is_within, latest_request, total_stroops, insert_payout,
  claim_cap, claim_payout, Settlement, settled_paid, settled_failed, settle_payout, PayResult, sent,
  rejected, unconfirmed, after_pay,
}
use sterun.Faucet.Fading.{
  Limits, request_of, IsPending, Spaced, Capped, claim-Apart, latest_request-none,
  Spaced-settle_rows, Capped-settle_rows, day_total_le, Spaced-get, in_day,
}

-- What may happen to the table: a claim of any address at any time, or the settlement of a payout
-- that is still pending by what its payment answered, in any order.
pub data Step (l : Limits) : Payouts → Payouts → Type 0 where
  claims :
      (s : Payouts) (now : ℕ) (address : String)
      → Step l s (claim_payout s now (request_of l address)).0
  settles :
      (s : Payouts) (payout_id : ℕ) (result : PayResult)
      → IsPending payout_id s.rows
      → Step l s (after_pay s payout_id result)

pub data Reachable (l : Limits) : Payouts → Type 0 where
  starts : Reachable l (record { rows = []; next_id = 1 })
  continues : (s s' : Payouts) → Reachable l s → Step l s s' → Reachable l s'

abbrev IsLimited : Limits → List Payout → Type 0
IsLimited l rows = Spaced l rows × Capped l rows

abbrev window_of : Limits → ℕ → String → List Payout → List Payout
window_of l now address rows =
    filter (λ p. str_eq p.address address && is_within now (l.window_hours * hour_ms) p) rows

claim_cap-cases :
    (l : Limits) (s : Payouts) (now : ℕ) (address : String)
    → (let today = filter (is_within now day_ms) s.rows in
        let r = claim_cap s now (request_of l address) today in
        (r.0 ≡ s)
        ⊎ ((r.0 ≡ insert_payout s now (request_of l address))
            × (l.amount_stroops + total_stroops today ≤ l.daily_cap_stroops)))
unfolding claim_cap
claim_cap-cases l s now address =
    let total = total_stroops (filter (is_within now day_ms) s.rows) + l.amount_stroops in
    elim (Bool-cases (ltb l.daily_cap_stroops total)) [
      | inl over ↦ inl (ground arith)
      | inr under ↦ inr (ground arith, ground (arith, ltb_iff l.daily_cap_stroops total))
    ]

claim_payout-cases :
    (l : Limits) (s : Payouts) (now : ℕ) (address : String)
    → (let r = claim_payout s now (request_of l address) in
        (r.0 ≡ s)
        ⊎ ((window_of l now address s.rows ≡ [])
            × (r.0
                ≡ (claim_cap s now
                    (request_of l address)
                    (filter (is_within now day_ms) s.rows)).0)))
unfolding claim_payout
claim_payout-cases l s now address =
    elim (Option-cases (latest_request (window_of l now address s.rows))) [
      | inl e ↦ inr (latest_request-none _ e, ground arith)
      | inr (t, e) ↦ inl (ground arith)
    ]

insert_payout-IsLimited :
    (l : Limits) (s : Payouts) (now : ℕ) (address : String)
    → window_of l now address s.rows ≡ []
    → l.amount_stroops + total_stroops (filter (is_within now day_ms) s.rows) ≤ l.daily_cap_stroops
    → IsLimited l s.rows
    → IsLimited l (insert_payout s now (request_of l address)).rows
unfolding insert_payout
insert_payout-IsLimited l s now address clear within h =
    ((claim-Apart l now _ s.rows refl clear, h.0), (λ _. within, h.1))

claim_payout-IsLimited :
    (l : Limits) (s : Payouts) (now : ℕ) (address : String)
    → IsLimited l s.rows
    → IsLimited l (claim_payout s now (request_of l address)).0.rows
claim_payout-IsLimited l s now address h =
    let moves = λ (s' : Payouts). IsLimited l s'.rows in
    elim (claim_payout-cases l s now address) [
      | inl same ↦ subst moves (sym same) h
      | inr (clear, e) ↦ elim (claim_cap-cases l s now address) [
        | inl same ↦ subst moves (sym (e ∙ same)) h
        | inr (new, within) ↦
            subst moves (sym (e ∙ new)) (insert_payout-IsLimited l s now address clear within h)
      ]
    ]

settle_payout-IsLimited :
    (l : Limits) (s : Payouts) (i : ℕ) (o : Settlement)
    → IsPending i s.rows
    → IsLimited l s.rows
    → IsLimited l (settle_payout s i o).rows
unfolding settle_payout
settle_payout-IsLimited l s i o pend (spaced, capped) =
    (Spaced-settle_rows l i o s.rows pend spaced, Capped-settle_rows l i o s.rows pend capped)

after_pay-IsLimited :
    (l : Limits) (s : Payouts) (i : ℕ) (result : PayResult)
    → IsPending i s.rows
    → IsLimited l s.rows
    → IsLimited l (after_pay s i result).rows
unfolding after_pay
after_pay-IsLimited l s i (sent tx) pend h = settle_payout-IsLimited l s i (settled_paid tx) pend h
after_pay-IsLimited l s i rejected pend h = settle_payout-IsLimited l s i settled_failed pend h
after_pay-IsLimited l s i unconfirmed pend h = h

Reachable-IsLimited : (l : Limits) (s : Payouts) → Reachable l s → IsLimited l s.rows
Reachable-IsLimited l _ starts = (tt, tt)
Reachable-IsLimited l _ (continues s _ r (claims _ now address)) =
    claim_payout-IsLimited l s now address (Reachable-IsLimited l s r)
Reachable-IsLimited l _ (continues s _ r (settles _ i result pend)) =
    after_pay-IsLimited l s i result pend (Reachable-IsLimited l s r)

-- In every table that claims and settlements can reach, at whatever times they come: two payouts of
-- one address that are pending or paid were requested at least a window apart, and those of any
-- stretch of a day add up to no more than the cap.
pub faucet_limits :
    (l : Limits) (s : Payouts)
    → Reachable l s
    → ((i j : ℕ) (new old : Payout)
        → i < j
        → get_elem? s.rows i ≡ some new
        → get_elem? s.rows j ≡ some old
        → counts new ≡ true
        → counts old ≡ true
        → old.address ≡ new.address
        → old.requested_at + l.window_hours * hour_ms ≤ new.requested_at)
      × ((day_end : ℕ) → total_stroops (filter (in_day day_end) s.rows) ≤ l.daily_cap_stroops)
faucet_limits l s r =
    let (spaced, capped) = Reachable-IsLimited l s r in
    (
      λ i j new old lt at at'. Spaced-get l s.rows i j new old spaced lt at at',
      λ day_end. day_total_le l day_end s.rows capped,
    )
