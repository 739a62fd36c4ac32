-- ===== src/Indexer/Doctor/Agreement.antt =====
-- When the index agrees with the contracts, and when two values are the same.
use sterun.Common.Int.{int_eq_iff}
use sterun.Common.{
  ℕ, ◌<◌, Bool, true, false, [], Option, none, some, ==_iff, eq_iff, text_eq_iff, length, nat-Eq,
  pair-Eq, get, ◌≡◌, refl, ◌↔◌, arith,
}
use sterun.Indexer.Chain.{state_eq_iff, status_eq_iff, ChainEvent, ChainCategory, ChainRecord}
use sterun.Indexer.Tables.{EventRow, CategoryRow, RecordRow, Index}
use sterun.Indexer.Apply.{Reader}
use sterun.Indexer.Doctor.{
  DoctorFinding, same_number, same_event, same_category, same_record, unless,
}

pub record CategoryAgrees (reader : Reader) (s : Index) (event_id category_id : ℕ) : Type 0 where
  pub on_chain : ChainCategory
  pub row : CategoryRow
  pub answered : reader.get_category (event_id, category_id) ≡ some on_chain
  pub indexed : get s.categories (event_id, category_id) ≡ some row
  pub quota : row.quota ≡ on_chain.quota
  pub entered_count : row.entered_count ≡ on_chain.entered_count
  pub price : row.price_stroops ≡ on_chain.price_stroops

pub record EventAgrees (reader : Reader) (s : Index) (event_id : ℕ) : Type 0 where
  pub on_chain : ChainEvent
  pub row : EventRow
  pub closes_at : Option ℕ
  pub count : ℕ
  pub answered : reader.get_event event_id ≡ some on_chain
  pub closes : reader.registration_closes event_id ≡ some closes_at
  pub counted : reader.category_count event_id ≡ some count
  pub indexed : get s.events event_id ≡ some row
  pub organiser : row.organiser ≡ on_chain.organiser
  pub status : row.status ≡ on_chain.status
  pub name : row.name ≡ on_chain.name
  pub starts_at : row.starts_at ≡ on_chain.starts_at
  pub registration_closes_at : row.registration_closes_at ≡ closes_at
  pub categories : (c : ℕ) → c < count → CategoryAgrees reader s event_id c

pub record RecordAgrees (reader : Reader) (s : Index) (token_id : ℕ) : Type 0 where
  pub on_chain : ChainRecord
  pub row : RecordRow
  pub answered : reader.record_of token_id ≡ some on_chain
  pub indexed : get s.records token_id ≡ some row
  pub state : row.state ≡ on_chain.state
  pub bib_no : row.bib_no ≡ on_chain.bib_no
  pub event_id : row.event_id ≡ on_chain.event_id
  pub participant_hash : row.participant_hash ≡ on_chain.participant_hash
  pub finish_time_s : row.finish_time_s ≡ on_chain.finish_time_s
  pub addon_ids : row.addon_ids ≡ on_chain.addon_ids

-- The index and the contracts have as many events and records, and agree on each.
pub record Agrees (reader : Reader) (s : Index) : Type 0 where
  pub event_count : reader.event_count ≡ some (length s.events)
  pub total_supply : reader.total_supply ≡ some (length s.records)
  pub events : (i : ℕ) → i < length s.events → EventAgrees reader s i
  pub records : (t : ℕ) → t < length s.records → RecordAgrees reader s t

pub same_number_iff : (a b : Option ℕ) → (same_number a b ≡ true) ↔ (a ≡ b)
unfolding same_number
same_number_iff none none = ground arith
same_number_iff none (some b) = ground arith
same_number_iff (some a) none = ground arith
same_number_iff (some a) (some b) = ground (arith, ==_iff a b)

pub same_record_iff :
    (row : RecordRow) (r : ChainRecord)
    → (same_record row r ≡ true) ↔ (
        (row.state ≡ r.state)
        × (row.bib_no ≡ r.bib_no)
        × (row.event_id ≡ r.event_id)
        × (row.participant_hash ≡ r.participant_hash)
        × (row.finish_time_s ≡ r.finish_time_s)
        × (row.addon_ids ≡ r.addon_ids))
unfolding same_record
same_record_iff row r = ground (
  arith,
  state_eq_iff row.state r.state,
  eq_iff row.participant_hash r.participant_hash,
  same_number_iff row.finish_time_s r.finish_time_s,
  text_eq_iff row.addon_ids r.addon_ids,
)

pub same_event_iff :
    (row : EventRow) (e : ChainEvent) (closes : Option ℕ)
    → (same_event row e closes ≡ true) ↔ (
        (row.organiser ≡ e.organiser)
        × (row.status ≡ e.status)
        × (row.name ≡ e.name)
        × (row.starts_at ≡ e.starts_at)
        × (row.registration_closes_at ≡ closes))
unfolding same_event
same_event_iff row e closes = ground (
  arith,
  eq_iff row.organiser e.organiser,
  status_eq_iff row.status e.status,
  eq_iff row.name e.name,
  same_number_iff row.registration_closes_at closes,
)

pub same_category_iff :
    (row : CategoryRow) (c : ChainCategory)
    → (same_category row c ≡ true) ↔ (
        (row.quota ≡ c.quota)
        × (row.entered_count ≡ c.entered_count)
        × (row.price_stroops ≡ c.price_stroops))
unfolding same_category
same_category_iff row c = ground (arith, int_eq_iff row.price_stroops c.price_stroops)

pub unless_iff : (b : Bool) (f : DoctorFinding) → (unless b f ≡ []) ↔ (b ≡ true)
unless_iff true f = (λ _. refl, λ _. refl)
unless_iff false f = (λ e. cc, λ e. cc)
