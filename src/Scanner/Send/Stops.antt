-- ===== src/Scanner/Send/Stops.antt =====
-- Why a run of `sendClaims` stops, and which rows it takes in which order.
use sterun.Common.{
  ℕ, true, List, Bool-cases, ap, subst, Option, none, some, In, In-filter, In-filter_of, In-sort_by,
  In-sort_by_back, Ordered, Ordered-sort_by, ◌≡◌, ◌≢◌, ◌⊎◌, ◌↔◌, inl, inr, refl, arith,
}
use sterun.Scanner.Store.{entered, ClaimStatus, waiting, QueuedClaim}
use sterun.Scanner.Verdict.{is_entered}
use sterun.Scanner.Send.{
  Revert, reverted_already_claimed, record_not_found, not_authorized, another_code, Failure, Answer,
  landed, failed, SendStop, declined, not_scanner, no_answer, gave_up, Attempt, settle, stop,
  ChainRecord, ask_chain, after_revert, handle, attempt, is_waiting, waiting_rows,
}

-- What the error and the chain say for each way to stop.
abbrev pub SaysStop : Option ChainRecord → Failure → SendStop → Type 0
SaysStop chain f declined = f.is_declined ≡ true
SaysStop chain f not_scanner = f.revert ≡ some not_authorized
SaysStop chain f no_answer = f.is_no_answer ≡ true
SaysStop chain f (gave_up message) =
    (message ≡ f.message) × ((chain ≡ none) ⊎ ((at : Option ℕ) × (chain ≡ some (entered, at))))

-- A run may stop only at a claim that failed, and not where the chain refused it for good.
abbrev pub Halted : Option ChainRecord → Answer → SendStop → Type 0
Halted chain (landed tx_hash ledger) why = ⊥
Halted chain (failed f) why =
    (f.revert ≢ some reverted_already_claimed)
    × (f.revert ≢ some record_not_found)
    × SaysStop chain f why

ask_chain-stop :
    (chain : Option ChainRecord) (f : Failure) (why : SendStop)
    → ask_chain chain f ≡ stop why
    → SaysStop chain f why
unfolding ask_chain is_entered
ask_chain-stop none f (gave_up message) h = (ground arith, inl refl)
ask_chain-stop (some (entered, at)) f (gave_up message) h = (ground arith, inr (at, refl))
ask_chain-stop _ f why h = absurd (ground arith)

abbrev stop_or : SendStop → Attempt → SendStop
stop_or why (stop other) = other
stop_or why (settle o) = why

stops_once : (a b : SendStop) → stop a ≡ stop b → a ≡ b
stops_once a b h = ap (stop_or a) h

after_revert-stop :
    (chain : Option ChainRecord) (f : Failure) (why : SendStop)
    → after_revert chain f ≡ stop why
    → SaysStop chain f why
unfolding after_revert
after_revert-stop chain f why h = elim (Bool-cases f.is_no_answer) [
  | inl is ↦ subst (SaysStop chain f) (stops_once no_answer why (rw is at h)) is
  | inr there ↦ elim (Bool-cases f.is_declined) [
    | inl is ↦ subst (SaysStop chain f) (stops_once declined why (rw (there, is) at h)) is
    | inr willing ↦ ask_chain-stop chain f why (ground arith)
  ]
]

handle-stop :
    (chain : Option ChainRecord) (f : Failure) (why : SendStop) (r : Option Revert)
    → f.revert ≡ r
    → handle chain f ≡ stop why
    → Halted chain (failed f) why
unfolding handle
handle-stop chain f why (some reverted_already_claimed) e h = absurd (ground arith)
handle-stop chain f why (some record_not_found) e h = absurd (ground arith)
handle-stop chain f why (some not_authorized) e h = (
  λ k. ground arith,
  λ k. ground arith,
  subst (SaysStop chain f) (stops_once not_scanner why (rw (e, handle) at h)) e,
)
handle-stop chain f why (some another_code) e h =
    (λ k. ground arith, λ k. ground arith, after_revert-stop chain f why (rw (e, handle) at h))
handle-stop chain f why none e h =
    (λ k. ground arith, λ k. ground arith, after_revert-stop chain f why (rw (e, handle) at h))

pub attempt-Halted :
    (chain : Option ChainRecord) (answer : Answer) (why : SendStop)
    → attempt chain answer ≡ stop why
    → Halted chain answer why
unfolding attempt
attempt-Halted chain (landed tx_hash ledger) why h = ground arith
attempt-Halted chain (failed f) why h = handle-stop chain f why f.revert refl h

is_waiting_iff : (s : ClaimStatus) → (is_waiting s ≡ true) ↔ (s ≡ waiting)
unfolding is_waiting
is_waiting_iff s = ground arith

-- The rows of a run are the waiting ones of the queue, in the order of their handovers.
pub waiting_rows_lem :
    (claims : List QueuedClaim)
    → Ordered (λ c. c.scanned_at) (waiting_rows claims)
      × ((c : QueuedClaim) → In c (waiting_rows claims) ↔ (In c claims × (c.status ≡ waiting)))
unfolding waiting_rows
waiting_rows_lem claims = (
  Ordered-sort_by _ _,
  λ c. (
    λ i.
        let (listed, e) =
          In-filter _ c claims (In-sort_by_back (λ (d : QueuedClaim). d.scanned_at) c _ i) in
        (listed, (is_waiting_iff c.status).0 e),
    λ (listed, e).
        In-sort_by (λ (d : QueuedClaim). d.scanned_at) c _
          (In-filter_of _ c claims listed ((is_waiting_iff c.status).1 e)),
  ),
)
