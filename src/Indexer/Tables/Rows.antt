-- ===== src/Indexer/Tables/Rows.antt =====
-- be/src/indexer/store.ts: the rows of the tables.
use sterun.Common.Int.{ℤ}
use sterun.Common.{
  ℕ, String, List, Option, none, some, ltb, if◌then◌else◌, Dict, nat-Eq, string-Eq, pair-Eq,
}
use sterun.Indexer.Chain.{RecordState, state-Eq, EventStatus, ChainEventEnvelope}

pub data RowSource : Type 0 where
  from_event from_state : RowSource

pub record CursorState : Type 0 where
  pub cursor : Option String
  pub last_ledger : ℕ
  pub oldest_ledger : Option ℕ

pub record Provenance : Type 0 where
  pub source : RowSource
  pub ledger : ℕ

pub record EventRow : Type 0 where
  pub event_id : ℕ
  pub organiser : String
  pub name : String
  pub metadata_hash : String
  pub uri : String
  pub starts_at : ℕ
  pub status : EventStatus
  pub source : RowSource
  pub last_ledger : ℕ
  pub registration_closes_at : Option ℕ

pub record CategoryRow : Type 0 where
  pub event_id : ℕ
  pub category_id : ℕ
  pub code : String
  pub distance_m : ℕ
  pub quota : ℕ
  pub price_stroops : ℤ
  pub entered_count : ℕ
  pub source : RowSource
  pub last_ledger : ℕ

pub record RecordRow : Type 0 where
  pub token_id : ℕ
  pub event_id : ℕ
  pub category_id : ℕ
  pub bib_no : ℕ
  pub runner_address : String
  pub participant_hash : String
  pub state : RecordState
  pub entered_at : ℕ
  pub claimed_at : Option ℕ
  pub finish_time_s : Option ℕ
  pub result_at : Option ℕ
  pub source : RowSource
  pub last_ledger : ℕ
  pub addon_ids : List ℕ

pub record TransitionRow : Type 0 where
  pub token_id : ℕ
  pub from_state : Option RecordState
  pub to_state : RecordState
  pub occurred_at : ℕ
  pub ledger : Option ℕ
  pub tx_hash : Option String
  pub source : RowSource

pub record ScannerEntry : Type 0 where
  pub added_ledger : ℕ
  pub removed_ledger : Option ℕ

-- The columns of a vault row that a link reads or writes.
pub record Participant : Type 0 where
  pub token_id : Option ℕ
  pub participant_hash : String
  pub runner_address : String
  pub event_id : ℕ
  pub category_id : ℕ
  pub enter_tx_hash : Option String

pub record Index : Type 0 where
  pub cursor : Option CursorState
  pub chain_events : List ChainEventEnvelope
  pub events : Dict ℕ EventRow
  pub categories : Dict (ℕ × ℕ) CategoryRow
  pub records : Dict ℕ RecordRow
  pub transitions : Dict (ℕ × RecordState) TransitionRow
  pub scanners : Dict (ℕ × String) ScannerEntry
  pub participants : List Participant

-- `GREATEST`, and `COALESCE` of two values.
unfoldable pub greatest : ℕ → ℕ → ℕ
greatest a b = if ltb a b then b else a

abbrev pub coalesce {ℓ} : {A : Type ℓ} → Option A → Option A → Option A
coalesce none old = old
coalesce (some a) old = some a
