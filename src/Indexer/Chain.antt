-- ===== src/Indexer/Chain.antt =====
-- be/src/chain/decode.ts and events.ts: what the contracts answer and emit, decoded. A timestamp is a
-- number of seconds; amounts are stroops.
use sterun.Common.Int.{ℤ}
use sterun.Common.{ℕ, String, Bool, true, false, List, Option, Eq, ◌≡◌, ◌↔◌, arith}

pub data RecordState : Type 0 where
  entered racepack_claimed finished dnf : RecordState

abbrev pub state_eq : RecordState → RecordState → Bool
state_eq entered entered = true
state_eq racepack_claimed racepack_claimed = true
state_eq finished finished = true
state_eq dnf dnf = true
state_eq _ _ = false

pub state_eq_iff : (a b : RecordState) → (state_eq a b ≡ true) ↔ (a ≡ b)
state_eq_iff _ _ = ground arith

instance abbrev pub state-Eq : Eq RecordState
state-Eq = record { beq = state_eq; beq_iff = state_eq_iff }

pub data EventStatus : Type 0 where
  draft open' closed completed cancelled : EventStatus

abbrev pub status_eq : EventStatus → EventStatus → Bool
status_eq draft draft = true
status_eq open' open' = true
status_eq closed closed = true
status_eq completed completed = true
status_eq cancelled cancelled = true
status_eq _ _ = false

pub status_eq_iff : (a b : EventStatus) → (status_eq a b ≡ true) ↔ (a ≡ b)
status_eq_iff _ _ = ground arith

pub record ChainEvent : Type 0 where
  pub event_id : ℕ
  pub organiser : String
  pub name : String
  pub metadata_hash : String
  pub uri : String
  pub starts_at : ℕ
  pub status : EventStatus

pub record ChainCategory : Type 0 where
  pub event_id : ℕ
  pub category_id : ℕ
  pub code : String
  pub distance_m : ℕ
  pub quota : ℕ
  pub price_stroops : ℤ
  pub entered_count : ℕ

pub record ChainRecord : Type 0 where
  pub token_id : ℕ
  pub event_id : ℕ
  pub category_id : ℕ
  pub bib_no : ℕ
  pub participant_hash : String
  pub state : RecordState
  pub entered_at : ℕ
  pub claimed_at : Option ℕ
  pub finish_time_s : Option ℕ
  pub result_at : Option ℕ
  pub addon_ids : List ℕ

pub data DecodedEvent : Type 0 where
  event_created : (event_id : ℕ) (organiser : String) → DecodedEvent
  category_added : (event_id category_id : ℕ) (price_stroops : ℤ) (quota : ℕ) → DecodedEvent
  event_status_changed : (event_id : ℕ) → EventStatus → DecodedEvent
  scanner_added scanner_removed : (event_id : ℕ) (scanner : String) → DecodedEvent
  slot_reserved : (event_id category_id seq : ℕ) → DecodedEvent
  quota_increased : (event_id category_id previous current : ℕ) → DecodedEvent
  registration_closes_set : (event_id : ℕ) (previous : Option ℕ) (current : ℕ) → DecodedEvent
  mint : (to : String) (token_id : ℕ) → DecodedEvent
  record_entered : (runner : String) (event_id bib_no token_id : ℕ) → DecodedEvent
  racepack_claimed_event : (token_id event_id : ℕ) (operator : String) → DecodedEvent
  record_finished : (token_id event_id finish_time_s : ℕ) → DecodedEvent
  record_finished_untimed : (token_id event_id : ℕ) → DecodedEvent
  record_dnf : (token_id event_id : ℕ) → DecodedEvent

-- `ledger_closed_at` is in whole seconds, as `closedAtSeconds` takes it.
pub record ChainEventEnvelope : Type 0 where
  pub id : String
  pub contract_id : String
  pub ledger : ℕ
  pub ledger_closed_at : ℕ
  pub tx_hash : String
  pub event : DecodedEvent
