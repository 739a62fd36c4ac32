-- ===== src/Indexer/Rebuild.antt =====
-- be/src/indexer/indexer.ts: `rebuild`, from what the contracts answer, and the statements of
-- store.ts that only it runs. The order that SQL gives the log (by ledger and id) is a parameter. The
-- candidates are not sorted: that orders inserts of different rows only.
pub mod Ranges
pub mod Records
pub mod Events
pub mod Categories
pub mod Whole
use sterun.Common.{
  ◌>>=◌, ℕ, ◌+◌, zero, suc, String, Bool, false, ◌&&◌, List, [], ◌∷◌, ◌++◌, Option, none, some,
  ◌==◌, str_eq, if◌then◌else◌, map, length, find?, Dict, nat-Eq, string-Eq, pair-Eq, put, remove,
}
use sterun.Indexer.Chain.{
  RecordState, entered, racepack_claimed, finished, dnf, ChainEvent, ChainCategory, ChainRecord,
  DecodedEvent, scanner_added, scanner_removed, record_entered, racepack_claimed_event,
  record_finished, record_finished_untimed, record_dnf, ChainEventEnvelope,
}
use sterun.Indexer.Tables.{
  from_event, from_state, Provenance, TransitionRow, ScannerEntry, Index, save_cursor, upsert_event,
  set_registration_closes, upsert_category, upsert_record, insert_transition, add_scanner,
  clear_materialised_tables, link_participants,
}
use sterun.Indexer.Apply.{Reader}

-- A loop of reads.
unfoldable pub read_range {ℓ} : {A : Type ℓ} → (ℕ → Option A) → (start count : ℕ) → Option (List A)
read_range read i zero = some []
read_range read i (suc n) = do a ← read i; rest ← read_range read (suc i) n; some (a ∷ rest)

pub record WalkedEvent : Type 0 where
  pub event : ChainEvent
  pub closes_at : Option ℕ
  pub categories : List ChainCategory

unfoldable pub walk_event : Reader → ℕ → Option WalkedEvent
walk_event reader event_id = do
  event ← reader.get_event event_id
  closes_at ← reader.registration_closes event_id
  count ← reader.category_count event_id
  categories ← read_range (λ c. reader.get_category (event_id, c)) 0 count
  some (record { event = event; closes_at = closes_at; categories = categories })

-- A record with the owner of its token.
pub record WalkedRecord : Type 0 where
  pub chain : ChainRecord
  pub owner : String

unfoldable pub walk_record : Reader → ℕ → Option WalkedRecord
walk_record reader token_id = do
  chain ← reader.record_of token_id
  owner ← reader.owner_of token_id
  some (record { chain = chain; owner = owner })

-- The scanners that the log leaves allowed, with the ledger they were added in.
unfoldable pub replay_scanners : Dict (ℕ × String) ℕ → List ChainEventEnvelope → Dict (ℕ × String) ℕ
replay_scanners allowed [] = allowed
replay_scanners allowed (e ∷ rest) =
    replay_scanners
      (elim e.event [
        | scanner_added event_id scanner ↦ put allowed (event_id, scanner) e.ledger
        | scanner_removed event_id scanner ↦ remove allowed (event_id, scanner)
        | _ ↦ allowed
      ])
      rest

unfoldable pub table_scanners :
    Dict (ℕ × String) ℕ → Dict (ℕ × String) ScannerEntry → Dict (ℕ × String) ℕ
table_scanners allowed [] = allowed
table_scanners allowed ((k, row) ∷ rest) =
    table_scanners
      (elim row.removed_ledger [ none ↦ put allowed k row.added_ledger | some l ↦ allowed ]) rest

unfoldable pub list_scanner_candidates :
    (List ChainEventEnvelope → List ChainEventEnvelope) → Index → Dict (ℕ × String) ℕ
list_scanner_candidates in_order s =
    table_scanners (replay_scanners [] (in_order s.chain_events)) s.scanners

unfoldable pub still_allowed : Reader → Dict (ℕ × String) ℕ → Option (Dict (ℕ × String) ℕ)
still_allowed reader [] = some []
still_allowed reader ((k, ledger) ∷ rest) = do
  allowed ← reader.is_scanner k.0 k.1
  others ← still_allowed reader rest
  some (if allowed then (k, ledger) ∷ others else others)

pub record HistoryStep : Type 0 where
  pub from_state : Option RecordState
  pub to_state : RecordState
  pub occurred_at : ℕ

-- The last step, where the record has a result.
unfoldable pub result_step : ChainRecord → List HistoryStep
result_step r =
    let before = elim r.claimed_at as (λ _. RecordState) [
      | none ↦ entered
      | some t ↦ racepack_claimed
    ] in
    elim r.result_at [
      | none ↦ []
      | some t ↦ elim r.state [
        | finished ↦ record { from_state = some before; to_state = finished; occurred_at = t } ∷ []
        | dnf ↦ record { from_state = some before; to_state = dnf; occurred_at = t } ∷ []
        | _ ↦ []
      ]
    ]

unfoldable pub reconstruct_transitions : ChainRecord → List HistoryStep
reconstruct_transitions r =
    record { from_state = none; to_state = entered; occurred_at = r.entered_at }
    ∷ (elim r.claimed_at [
      | none ↦ []
      | some t ↦
          record { from_state = some entered; to_state = racepack_claimed; occurred_at = t } ∷ []
    ]
        ++ result_step r)

-- The transaction.
unfoldable pub write_events : Index → List WalkedEvent → Provenance → Index
write_events s [] at = s
write_events s (w ∷ rest) at = write_events (upsert_event s w.event at) rest at

unfoldable pub write_close_date : Index → ℕ → Option ℕ → Provenance → Index
write_close_date s event_id none at = s
write_close_date s event_id (some t) at = (set_registration_closes s event_id (some t) at).0

-- `closeDates` is keyed by the number of the event's turn.
unfoldable pub write_close_dates : Index → ℕ → List WalkedEvent → Provenance → Index
write_close_dates s event_id [] at = s
write_close_dates s event_id (w ∷ rest) at =
    write_close_dates (write_close_date s event_id w.closes_at at) (suc event_id) rest at

unfoldable pub upsert_categories : Index → List ChainCategory → Provenance → Index
upsert_categories s [] at = s
upsert_categories s (c ∷ rest) at = upsert_categories (upsert_category s c at) rest at

unfoldable pub write_categories : Index → List WalkedEvent → Provenance → Index
write_categories s [] at = s
write_categories s (w ∷ rest) at = write_categories (upsert_categories s w.categories at) rest at

unfoldable pub write_scanners : Index → Dict (ℕ × String) ℕ → Index
write_scanners s [] = s
write_scanners s ((k, ledger) ∷ rest) = write_scanners (add_scanner s k.0 k.1 ledger) rest

unfoldable pub write_steps : Index → ℕ → List HistoryStep → Index
write_steps s token_id [] = s
write_steps s token_id (t ∷ rest) =
    write_steps
      (insert_transition s (record {
        token_id = token_id;
        from_state = t.from_state;
        to_state = t.to_state;
        occurred_at = t.occurred_at;
        ledger = none;
        tx_hash = none;
        source = from_state;
      }))
      token_id rest

unfoldable pub write_records : Index → List WalkedRecord → Provenance → Index
write_records s [] at = s
write_records s (w ∷ rest) at =
    write_records
      (write_steps (upsert_record s w.chain w.owner at) w.chain.token_id
        (reconstruct_transitions w.chain))
      rest at

unfoldable pub count_steps : List WalkedRecord → ℕ
count_steps [] = 0
count_steps (w ∷ rest) = length (reconstruct_transitions w.chain) + count_steps rest

-- Whether an event of the log is the one that a transition came from.
unfoldable pub is_step_of : RecordState → ℕ → DecodedEvent → Bool
is_step_of entered token_id (record_entered runner event_id bib_no t) = t == token_id
is_step_of racepack_claimed token_id (racepack_claimed_event t event_id operator) = t == token_id
is_step_of finished token_id (record_finished t event_id time) = t == token_id
is_step_of finished token_id (record_finished_untimed t event_id) = t == token_id
is_step_of dnf token_id (record_dnf t event_id) = t == token_id
is_step_of _ token_id _ = false

unfoldable pub restore_step :
    (race_record : String) → List ChainEventEnvelope → TransitionRow → TransitionRow
restore_step race_record log t = elim t.tx_hash [
  | some tx ↦ t
  | none ↦
      elim (find?
        (λ e. str_eq e.contract_id race_record && is_step_of t.to_state t.token_id e.event) log) [
          | none ↦ t
          | some e ↦ record t {
            tx_hash = some e.tx_hash;
            ledger = some e.ledger;
            source = from_event;
          }
        ]
]

unfoldable pub restore_transition_provenance : (race_record : String) → Index → Index
restore_transition_provenance race_record s = record s {
  transitions = map (λ kt. (kt.0, restore_step race_record s.chain_events kt.1)) s.transitions;
}

pub record RebuildResult : Type 0 where
  pub events : ℕ
  pub categories : ℕ
  pub records : ℕ
  pub transitions : ℕ
  pub from_ledger : ℕ

unfoldable pub count_categories : List WalkedEvent → ℕ
count_categories [] = 0
count_categories (w ∷ rest) = length w.categories + count_categories rest

-- The tables that the transaction writes, but for the links and what follows them.
unfoldable pub rebuilt :
    Index → (from_ledger : ℕ) → List WalkedEvent → Dict (ℕ × String) ℕ → List WalkedRecord → Index
rebuilt s from_ledger events scanners records =
    let at : Provenance = record { source = from_state; ledger = from_ledger } in
    let s1 = write_events (clear_materialised_tables s) events at in
    let s2 = write_close_dates s1 0 events at in
    let s3 = write_categories s2 events at in write_records (write_scanners s3 scanners) records at

-- The last statements of the transaction.
unfoldable pub settled : (race_record : String) → (latest_ledger : ℕ) → Index → Index
settled race_record latest_ledger linked =
    save_cursor (restore_transition_provenance race_record linked)
      (record { cursor = none; last_ledger = latest_ledger; oldest_ledger = none })

module _ (in_order : List ChainEventEnvelope → List ChainEventEnvelope) (race_record : String) where
  unfoldable pub rebuild : (latest_ledger : ℕ) → Reader → Index → Option (Index × RebuildResult)
  rebuild latest_ledger reader s = do
    event_count ← reader.event_count
    events ← read_range (walk_event reader) 0 event_count
    supply ← reader.total_supply
    records ← read_range (walk_record reader) 0 supply
    scanners ← still_allowed reader (list_scanner_candidates in_order s)
    linked ← link_participants (rebuilt s latest_ledger events scanners records) none none
    some (
      settled race_record latest_ledger linked,
      record {
        events = length events;
        categories = count_categories events;
        records = length records;
        transitions = count_steps records;
        from_ledger = latest_ledger;
      },
    )
