-- ===== src/Indexer/Apply.antt =====
-- be/src/indexer/indexer.ts: what a page needs from the contracts, and `apply`, one event on the
-- tables. The contracts' reads are a parameter, `none` where one throws; an IndexerConsistencyError is
-- `none` too. The log of warnings is left out.
pub mod Refused
use sterun.Common.Int.{ℤ, pos, int_eq, int_eq_iff}
use sterun.Common.{
  ◌>>=◌, ℕ, String, Bool, true, false, not, ◌||◌, List, [], ◌∷◌, Option, none, some, ◌==◌, ltb, leb,
  str_eq, if◌then◌else◌, Dict, Eq, nat-Eq, pair-Eq, get, put, any, ◌++◌,
}
use sterun.Indexer.Chain.{
  entered, racepack_claimed, finished, dnf, state-Eq, draft, ChainEvent, ChainCategory, ChainRecord,
  DecodedEvent, event_created, category_added, event_status_changed, scanner_added, scanner_removed,
  slot_reserved, quota_increased, registration_closes_set, mint, record_entered,
  racepack_claimed_event, record_finished, record_finished_untimed, record_dnf, ChainEventEnvelope,
}
use sterun.Indexer.Tables.{
  from_event, Provenance, RecordRow, Index, coalesce, upsert_event, set_registration_closes,
  set_event_status, upsert_category, touch_category, raise_category_quota, recount_category,
  upsert_record, Advance, apply_record_transition, insert_transition, add_scanner, remove_scanner,
  link_participants,
}

pub record Reader : Type 0 where
  pub event_count : Option ℕ
  pub get_event : ℕ → Option ChainEvent
  pub registration_closes : ℕ → Option (Option ℕ)
  pub category_count : ℕ → Option ℕ
  pub get_category : ℕ × ℕ → Option ChainCategory
  pub total_supply : Option ℕ
  pub record_of : ℕ → Option ChainRecord
  pub owner_of : ℕ → Option String
  pub is_scanner : ℕ → String → Option Bool

pub record Hydration : Type 0 where
  pub events : Dict ℕ ChainEvent
  pub categories : Dict (ℕ × ℕ) ChainCategory
  pub records : Dict ℕ ChainRecord

-- `Set.add`.
abbrev pub add_once {ℓ} : {K : Type ℓ} ⦃e : Eq K⦄ → List K → K → List K
add_once ⦃e⦄ ks k = if any (λ j. e.beq j k) ks then ks else ks ++ k ∷ []

unfoldable pub want_events : List ℕ → List ChainEventEnvelope → List ℕ
want_events want [] = want
want_events want (e ∷ rest) =
    want_events (elim e.event [ event_created event_id o ↦ add_once want event_id | _ ↦ want ]) rest

unfoldable pub want_categories : List (ℕ × ℕ) → List ChainEventEnvelope → List (ℕ × ℕ)
want_categories want [] = want
want_categories want (e ∷ rest) =
    want_categories
      (elim e.event [
        | category_added event_id category_id p q ↦ add_once want (event_id, category_id)
        | _ ↦ want
      ])
      rest

unfoldable pub want_records : List ℕ → List ChainEventEnvelope → List ℕ
want_records want [] = want
want_records want (e ∷ rest) =
    want_records
      (elim e.event [ record_entered r i b token_id ↦ add_once want token_id | _ ↦ want ]) rest

unfoldable pub read_each {ℓ κ} :
    {K : Type ℓ} {V : Type κ} ⦃e : Eq K⦄ → (K → Option V) → Dict K V → List K → Option (Dict K V)
read_each read m [] = some m
read_each read m (k ∷ ks) = do v ← read k; read_each read (put m k v) ks

unfoldable pub hydrate : Reader → List ChainEventEnvelope → Option Hydration
hydrate reader envelopes = do
  events ← read_each reader.get_event [] (want_events [] envelopes)
  categories ← read_each reader.get_category [] (want_categories [] envelopes)
  records ← read_each reader.record_of [] (want_records [] envelopes)
  some (record { events = events; categories = categories; records = records })

abbrev pub event_at : ChainEventEnvelope → Provenance
event_at envelope = record { source = from_event; ledger = envelope.ledger }

-- The index, and 1 for an orphan.
abbrev pub Applied : Type 0
Applied = Option (Index × ℕ)

-- `updated ? 0 : 1`.
abbrev pub orphan_unless : Index × Bool → Applied
orphan_unless (s, updated) = some (s, if updated then 0 else 1)

unfoldable pub event_is_indexed : Index → ℕ → Bool
event_is_indexed s event_id = elim (get s.events event_id) [ none ↦ false | some row ↦ true ]

unfoldable pub apply_created : Index → ChainEventEnvelope → String → Option ChainEvent → Applied
apply_created s envelope organiser none = none
apply_created s envelope organiser (some hydrated) =
    if not (str_eq hydrated.organiser organiser)
    then none
    else some (upsert_event s (record hydrated { status = draft }) (event_at envelope), 0)

unfoldable pub apply_category :
    Index → ChainEventEnvelope → (price : ℤ) (quota : ℕ) → Option ChainCategory → Applied
apply_category s envelope price quota none = none
apply_category s envelope price quota (some hydrated) =
    if ltb hydrated.quota quota || not (int_eq hydrated.price_stroops price)
    then none
    else some (
      upsert_category s (record hydrated { quota = quota; entered_count = 0 }) (event_at envelope),
      0,
    )

-- Where the vault's unique index refuses the link, the savepoint takes it back.
unfoldable pub link_vault_row : Index → ℕ → String → Index
link_vault_row s token_id enter_tx_hash =
    elim (link_participants s (some token_id) (some enter_tx_hash)) [ none ↦ s | some s' ↦ s' ]

unfoldable pub apply_entered :
    Index
    → ChainEventEnvelope
    → String
    → (event_id bib_no token_id : ℕ) → Option ChainRecord
    → Applied
apply_entered s envelope runner event_id bib_no token_id none = none
apply_entered s envelope runner event_id bib_no token_id (some hydrated) =
    if not (hydrated.event_id == event_id) || not (hydrated.bib_no == bib_no)
    then none
    else (let s1 =
          upsert_record s
            (record hydrated {
              state = entered;
              claimed_at = none;
              finish_time_s = none;
              result_at = none;
            })
            runner (event_at envelope) in
        let s2 = insert_transition s1 (record {
          token_id = token_id;
          from_state = none;
          to_state = entered;
          occurred_at = hydrated.entered_at;
          ledger = some envelope.ledger;
          tx_hash = some envelope.tx_hash;
          source = from_event;
        }) in
        let s3 = recount_category s2 hydrated.event_id hydrated.category_id in
        some (link_vault_row s3 token_id envelope.tx_hash, 0))

unfoldable pub advance_record :
    Index → ChainEventEnvelope → ℕ → Advance → Option RecordRow → Applied
advance_record s envelope token_id next none = some (s, 1)
advance_record s envelope token_id next (some existing) =
    let s1 = apply_record_transition s token_id next (event_at envelope) in
    some (
      insert_transition s1 (record {
        token_id = token_id;
        from_state = some existing.state;
        to_state = next.state;
        occurred_at = elim (coalesce next.claimed_at next.result_at) [
          | none ↦ envelope.ledger_closed_at
          | some t ↦ t
        ];
        ledger = some envelope.ledger;
        tx_hash = some envelope.tx_hash;
        source = from_event;
      }),
      0,
    )

unfoldable pub advance : Index → ChainEventEnvelope → ℕ → Advance → Applied
advance s envelope token_id next = advance_record s envelope token_id next (get s.records token_id)

unfoldable pub apply_event : Index → ChainEventEnvelope → Hydration → DecodedEvent → Applied
apply_event s envelope h (event_created event_id organiser) =
    apply_created s envelope organiser (get h.events event_id)
apply_event s envelope h (category_added event_id category_id price quota) =
    if not (event_is_indexed s event_id)
    then some (s, 1)
    else apply_category s envelope price quota (get h.categories (event_id, category_id))
apply_event s envelope h (event_status_changed event_id status) =
    orphan_unless (set_event_status s event_id status (event_at envelope))
apply_event s envelope h (scanner_added event_id scanner) =
    if not (event_is_indexed s event_id)
    then some (s, 1)
    else some (add_scanner s event_id scanner envelope.ledger, 0)
apply_event s envelope h (scanner_removed event_id scanner) =
    if not (event_is_indexed s event_id)
    then some (s, 1)
    else some (remove_scanner s event_id scanner envelope.ledger, 0)
apply_event s envelope h (slot_reserved event_id category_id seq) =
    orphan_unless (touch_category s event_id category_id (event_at envelope))
apply_event s envelope h (quota_increased event_id category_id previous current) =
    if leb current previous
    then none
    else orphan_unless (raise_category_quota s event_id category_id current (event_at envelope))
apply_event s envelope h (registration_closes_set event_id previous current) =
    orphan_unless (set_registration_closes s event_id (some current) (event_at envelope))
apply_event s envelope h (mint to token_id) = some (s, 0)
apply_event s envelope h (record_entered runner event_id bib_no token_id) =
    apply_entered s envelope runner event_id bib_no token_id (get h.records token_id)
apply_event s envelope h (racepack_claimed_event token_id event_id operator) =
    advance s envelope token_id (record {
      state = racepack_claimed;
      claimed_at = some envelope.ledger_closed_at;
      finish_time_s = none;
      result_at = none;
    })
apply_event s envelope h (record_finished token_id event_id finish_time_s) =
    advance s envelope token_id (record {
      state = finished;
      claimed_at = none;
      finish_time_s = some finish_time_s;
      result_at = some envelope.ledger_closed_at;
    })
apply_event s envelope h (record_finished_untimed token_id event_id) =
    advance s envelope token_id (record {
      state = finished;
      claimed_at = none;
      finish_time_s = none;
      result_at = some envelope.ledger_closed_at;
    })
apply_event s envelope h (record_dnf token_id event_id) = advance s envelope token_id (record {
  state = dnf;
  claimed_at = none;
  finish_time_s = none;
  result_at = some envelope.ledger_closed_at;
})

unfoldable pub apply : Index → ChainEventEnvelope → Hydration → Applied
apply s envelope h = apply_event s envelope h envelope.event
