-- ===== src/Indexer/Tables.antt =====
-- be/src/indexer/store.ts: the tables and the statements that write them. A table is a dictionary by
-- its primary key, `chain_events` the list of its rows in the order of insertion; the columns
-- `updated_at` and `recorded_at` are left out, and `entered_count` is counted over `records`. Foreign keys
-- are left out: the code asks before it writes a row that hangs off an event.
mod Rows
mod Links
unfoldable pub use Rows.*
unfoldable pub use Links.*
use sterun.Common.Int.{ℤ}
use sterun.Common.{
  ℕ, ◌+◌, String, Bool, true, false, not, ◌&&◌, List, [], ◌∷◌, ◌++◌, Option, none, some, ◌==◌, ltb,
  str_eq, if◌then◌else◌, any, find?, map, Dict, nat-Eq, string-Eq, pair-Eq, get, put, values,
}
use sterun.Indexer.Chain.{
  RecordState, state-Eq, EventStatus, ChainEvent, ChainCategory, ChainRecord, record_entered,
  ChainEventEnvelope,
}

unfoldable pub newer_cursor : Option CursorState → CursorState → CursorState
newer_cursor none update = update
newer_cursor (some old) update = record update {
  last_ledger = greatest old.last_ledger update.last_ledger;
}

unfoldable pub save_cursor : Index → CursorState → Index
save_cursor s update = record s { cursor = some (newer_cursor s.cursor update) }

unfoldable pub is_logged : Index → String → Bool
is_logged s id = any (λ e. str_eq e.id id) s.chain_events

-- The log with the event, and whether it is new.
unfoldable pub insert_chain_event : Index → ChainEventEnvelope → Index × Bool
insert_chain_event s e =
    if is_logged s e.id
    then (s, false)
    else (record s { chain_events = s.chain_events ++ e ∷ [] }, true)

unfoldable pub upsert_event : Index → ChainEvent → Provenance → Index
upsert_event s ev at =
    let old = get s.events ev.event_id in
    record s {
      events = put s.events ev.event_id (record {
        event_id = ev.event_id;
        organiser = ev.organiser;
        name = ev.name;
        metadata_hash = ev.metadata_hash;
        uri = ev.uri;
        starts_at = ev.starts_at;
        status = ev.status;
        source = at.source;
        last_ledger = elim old [ none ↦ at.ledger | some row ↦ greatest row.last_ledger at.ledger ];
        registration_closes_at = elim old [ none ↦ none | some row ↦ row.registration_closes_at ];
      });
    }

-- An update of the row of an event; false where there is none.
unfoldable pub update_event : Index → ℕ → (EventRow → EventRow) → Index × Bool
update_event s event_id change = elim (get s.events event_id) [
  | none ↦ (s, false)
  | some row ↦ (record s { events = put s.events event_id (change row) }, true)
]

unfoldable pub set_registration_closes : Index → ℕ → Option ℕ → Provenance → Index × Bool
set_registration_closes s event_id closes_at at = update_event s event_id λ row. record row {
  registration_closes_at = closes_at;
  source = at.source;
  last_ledger = greatest row.last_ledger at.ledger;
}

unfoldable pub set_event_status : Index → ℕ → EventStatus → Provenance → Index × Bool
set_event_status s event_id status at = update_event s event_id λ row. record row {
  status = status;
  source = at.source;
  last_ledger = greatest row.last_ledger at.ledger;
}

unfoldable pub upsert_category : Index → ChainCategory → Provenance → Index
upsert_category s cat at =
    let key : ℕ × ℕ = (cat.event_id, cat.category_id) in
    let old = get s.categories key in
    record s {
      categories = put s.categories key (record {
        event_id = cat.event_id;
        category_id = cat.category_id;
        code = cat.code;
        distance_m = cat.distance_m;
        quota = elim old [ none ↦ cat.quota | some row ↦ greatest row.quota cat.quota ];
        price_stroops = cat.price_stroops;
        entered_count = elim old [
          | none ↦ cat.entered_count
          | some row ↦ greatest row.entered_count cat.entered_count
        ];
        source = at.source;
        last_ledger = elim old [ none ↦ at.ledger | some row ↦ greatest row.last_ledger at.ledger ];
      });
    }

unfoldable pub update_category : Index → ℕ → ℕ → (CategoryRow → CategoryRow) → Index × Bool
update_category s event_id category_id change = elim (get s.categories (event_id, category_id)) [
  | none ↦ (s, false)
  | some row ↦
      (record s { categories = put s.categories (event_id, category_id) (change row) }, true)
]

unfoldable pub touch_category : Index → ℕ → ℕ → Provenance → Index × Bool
touch_category s event_id category_id at =
    update_category s event_id category_id
      λ row. record row { last_ledger = greatest row.last_ledger at.ledger }

unfoldable pub raise_category_quota : Index → ℕ → ℕ → ℕ → Provenance → Index × Bool
raise_category_quota s event_id category_id quota at = update_category s event_id category_id λ row.
    record row {
      quota = greatest row.quota quota;
      last_ledger = greatest row.last_ledger at.ledger;
    }

-- The records that the index holds for a category.
unfoldable pub count_records : Dict ℕ RecordRow → ℕ → ℕ → ℕ
count_records [] event_id category_id = 0
count_records ((token, r) ∷ rest) event_id category_id =
    (if r.event_id == event_id && r.category_id == category_id then 1 else 0)
    + count_records rest event_id category_id

unfoldable pub recount_category : Index → ℕ → ℕ → Index
recount_category s event_id category_id =
    (update_category s event_id category_id
      λ row. record row { entered_count = count_records s.records event_id category_id }).0

unfoldable pub upsert_record : Index → ChainRecord → (runner : String) → Provenance → Index
upsert_record s rec runner at = record s {
  records = put s.records rec.token_id (record {
    token_id = rec.token_id;
    event_id = rec.event_id;
    category_id = rec.category_id;
    bib_no = rec.bib_no;
    runner_address = runner;
    participant_hash = rec.participant_hash;
    state = rec.state;
    entered_at = rec.entered_at;
    claimed_at = rec.claimed_at;
    finish_time_s = rec.finish_time_s;
    result_at = rec.result_at;
    source = at.source;
    last_ledger = elim (get s.records rec.token_id) [
      | none ↦ at.ledger
      | some row ↦ greatest row.last_ledger at.ledger
    ];
    addon_ids = rec.addon_ids;
  });
}

-- What an event brings to a record.
pub record Advance : Type 0 where
  pub state : RecordState
  pub claimed_at : Option ℕ
  pub finish_time_s : Option ℕ
  pub result_at : Option ℕ

unfoldable pub apply_record_transition : Index → ℕ → Advance → Provenance → Index
apply_record_transition s token_id next at = elim (get s.records token_id) [
  | none ↦ s
  | some row ↦ record s {
    records = put s.records token_id (record row {
      state = next.state;
      claimed_at = coalesce next.claimed_at row.claimed_at;
      finish_time_s = coalesce next.finish_time_s row.finish_time_s;
      result_at = coalesce next.result_at row.result_at;
      source = at.source;
      last_ledger = greatest row.last_ledger at.ledger;
    });
  }
]

unfoldable pub insert_transition : Index → TransitionRow → Index
insert_transition s t = elim t.source [
  | from_event ↦ record s { transitions = put s.transitions (t.token_id, t.to_state) t }
  | from_state ↦ elim (get s.transitions (t.token_id, t.to_state)) [
    | none ↦ record s { transitions = put s.transitions (t.token_id, t.to_state) t }
    | some old ↦ s
  ]
]

unfoldable pub add_scanner : Index → ℕ → String → ℕ → Index
add_scanner s event_id scanner ledger = record s {
  scanners =
      put s.scanners (event_id, scanner) (record { added_ledger = ledger; removed_ledger = none });
}

unfoldable pub remove_scanner : Index → ℕ → String → ℕ → Index
remove_scanner s event_id scanner ledger = elim (get s.scanners (event_id, scanner)) [
  | none ↦ s
  | some row ↦ record s {
    scanners = put s.scanners (event_id, scanner) (record row { removed_ledger = some ledger });
  }
]

unfoldable pub clear_materialised_tables : Index → Index
clear_materialised_tables s = record s {
  events = [];
  categories = [];
  records = [];
  transitions = [];
  scanners = [];
}
