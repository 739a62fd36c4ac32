-- ===== src/Scanner/Store.antt =====
-- fe/src/modules/scanner/lib/scanner-store.ts: what a volunteer's phone keeps. The two IndexedDB
-- stores are dictionaries by event id and by token id. A time is the ISO text's sort key, a number;
-- `listClaims` and the run sort by it, and JavaScript's sort is stable.
use sterun.Common.{
  ℕ, List, Option, none, some, ◌==◌, filter, Dict, nat-Eq, get, put, values, sort_by, String,
}

pub data RecordState : Type 0 where
  entered racepack_claimed finished dnf : RecordState

pub record RosterEntry : Type 0 where
  pub token_id : ℕ
  pub bib_no : ℕ
  pub category_id : ℕ
  pub state : RecordState
  pub name_fragment : Option String
  pub add_ons : List (String × String)
  pub totp_secret : List ℕ

pub data ClaimStatus : Type 0 where
  waiting sent refused : ClaimStatus

pub data RefusalReason : Type 0 where
  already_claimed not_found : RefusalReason

pub record QueuedClaim : Type 0 where
  pub token_id : ℕ
  pub bib_no : ℕ
  pub event_id : ℕ
  pub scanned_at : ℕ
  pub status : ClaimStatus
  pub tx_hash : Option String
  pub ledger : Option ℕ
  pub reason : Option RefusalReason
  pub claimed_at : Option ℕ

abbrev pub ClaimStore : Type 0
ClaimStore = Dict ℕ QueuedClaim

-- `existing ?? claim`: the first write wins.
unfoldable pub enqueue_claim : ClaimStore → QueuedClaim → ClaimStore
enqueue_claim m claim = elim (get m claim.token_id) [
  | some existing ↦ put m claim.token_id existing
  | none ↦ put m claim.token_id claim
]

-- The outcome of a send; an absent field is none.
pub record Outcome : Type 0 where
  pub status : ClaimStatus
  pub tx_hash : Option String
  pub ledger : Option ℕ
  pub reason : Option RefusalReason
  pub claimed_at : Option ℕ

-- `{ ...claim, ...given }` at one optional field.
abbrev pub given {ℓ} : {A : Type ℓ} → Option A → Option A → Option A
given none old = old
given (some a) old = some a

unfoldable pub merge : QueuedClaim → Outcome → QueuedClaim
merge claim o = record claim {
  status = o.status;
  tx_hash = given o.tx_hash claim.tx_hash;
  ledger = given o.ledger claim.ledger;
  reason = given o.reason claim.reason;
  claimed_at = given o.claimed_at claim.claimed_at;
}

unfoldable pub mark_claim : ClaimStore → ℕ → Outcome → ClaimStore
mark_claim m token_id outcome = elim (get m token_id) [
  | none ↦ m
  | some claim ↦ put m token_id (merge claim outcome)
]

-- `values` of an IndexedDB store come in the order of the keys; the claims then in the order in
-- which they were handed over.
unfoldable pub list_claims : ClaimStore → ℕ → List QueuedClaim
list_claims m event_id =
    sort_by (λ c. c.scanned_at)
      (filter (λ c. c.event_id == event_id) (sort_by (λ c. c.token_id) (values m)))
