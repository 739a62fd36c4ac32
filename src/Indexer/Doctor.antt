-- ===== src/Indexer/Doctor.antt =====
-- be/src/indexer/indexer.ts: `doctor`, which compares the index with the contracts and only reads.
-- A finding keeps its kind and what it is about; its text is left out.
pub mod Agreement
pub mod Sound
use sterun.Common.Int.{ℤ, pos, int_eq, int_eq_iff}
use sterun.Common.{
  ◌>>=◌, ℕ, zero, suc, Bool, true, false, not, ◌&&◌, ◌||◌, List, [], ◌∷◌, ◌++◌, Option, none, some,
  ◌==◌, str_eq, text_eq, if◌then◌else◌, length, nat-Eq, pair-Eq, get,
}
use sterun.Indexer.Chain.{state-Eq, state_eq, status_eq, ChainEvent, ChainCategory, ChainRecord}
use sterun.Indexer.Tables.{EventRow, CategoryRow, RecordRow, Index}
use sterun.Indexer.Apply.{Reader}

pub data DoctorFinding : Type 0 where
  event_count_mismatch record_count_mismatch : DoctorFinding
  event_missing event_differs record_missing record_differs : (id : ℕ) → DoctorFinding
  category_missing category_differs : (event_id category_id : ℕ) → DoctorFinding

pub record DoctorReport : Type 0 where
  pub ok : Bool
  pub chain : ℕ × ℕ
  pub index : ℕ × ℕ
  pub findings : List DoctorFinding

-- `===` on values that may be null.
unfoldable pub same_number : Option ℕ → Option ℕ → Bool
same_number none none = true
same_number (some a) (some b) = a == b
same_number _ _ = false

unfoldable pub same_event : EventRow → ChainEvent → (closes_at : Option ℕ) → Bool
same_event row on_chain closes_at =
    str_eq row.organiser on_chain.organiser
    && (status_eq row.status on_chain.status
        && (str_eq row.name on_chain.name
            && (row.starts_at == on_chain.starts_at
                && same_number row.registration_closes_at closes_at)))

unfoldable pub same_category : CategoryRow → ChainCategory → Bool
same_category row on_chain =
    row.quota == on_chain.quota
    && (row.entered_count == on_chain.entered_count
        && int_eq row.price_stroops on_chain.price_stroops)

-- Addons are compared in order.
unfoldable pub same_record : RecordRow → ChainRecord → Bool
same_record row on_chain =
    state_eq row.state on_chain.state
    && (row.bib_no == on_chain.bib_no
        && (row.event_id == on_chain.event_id
            && (str_eq row.participant_hash on_chain.participant_hash
                && (same_number row.finish_time_s on_chain.finish_time_s
                    && text_eq row.addon_ids on_chain.addon_ids))))

abbrev pub unless : Bool → DoctorFinding → List DoctorFinding
unless true finding = []
unless false finding = finding ∷ []

unfoldable pub check_range :
    (ℕ → Option (List DoctorFinding)) → (start count : ℕ) → Option (List DoctorFinding)
check_range check i zero = some []
check_range check i (suc n) = do
  here ← check i
  rest ← check_range check (suc i) n
  some (here ++ rest)

unfoldable pub check_category : Reader → Index → ℕ → ℕ → Option (List DoctorFinding)
check_category reader s event_id category_id = do
  on_chain ← reader.get_category (event_id, category_id)
  some (elim (get s.categories (event_id, category_id)) [
    | none ↦ category_missing event_id category_id ∷ []
    | some row ↦ unless (same_category row on_chain) (category_differs event_id category_id)
  ])

unfoldable pub check_event_row :
    Reader → Index → ℕ → ChainEvent → Option EventRow → Option (List DoctorFinding)
check_event_row reader s event_id on_chain none = some (event_missing event_id ∷ [])
check_event_row reader s event_id on_chain (some row) = do
  closes_at ← reader.registration_closes event_id
  count ← reader.category_count event_id
  categories ← check_range (check_category reader s event_id) 0 count
  some (unless (same_event row on_chain closes_at) (event_differs event_id) ++ categories)

unfoldable pub check_event : Reader → Index → ℕ → Option (List DoctorFinding)
check_event reader s event_id = do
  on_chain ← reader.get_event event_id
  check_event_row reader s event_id on_chain (get s.events event_id)

unfoldable pub check_record : Reader → Index → ℕ → Option (List DoctorFinding)
check_record reader s token_id = do
  on_chain ← reader.record_of token_id
  some (elim (get s.records token_id) [
    | none ↦ record_missing token_id ∷ []
    | some row ↦ unless (same_record row on_chain) (record_differs token_id)
  ])

unfoldable pub report_of :
    Index → (event_count supply : ℕ) → (events records : List DoctorFinding) → DoctorReport
report_of s event_count supply events records =
    let findings =
      unless (length s.events == event_count) event_count_mismatch
      ++ (unless (length s.records == supply) record_count_mismatch ++ (events ++ records)) in
    record {
      ok = length findings == 0;
      chain = (event_count, supply);
      index = (length s.events, length s.records);
      findings = findings;
    }

unfoldable pub doctor : Reader → Index → Option DoctorReport
doctor reader s = do
  event_count ← reader.event_count
  supply ← reader.total_supply
  events ← check_range (check_event reader s) 0 event_count
  records ← check_range (check_record reader s) 0 supply
  some (report_of s event_count supply events records)
