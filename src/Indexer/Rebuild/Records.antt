-- ===== src/Indexer/Rebuild/Records.antt =====
-- The records that a rebuild writes.
use sterun.Common.{
  ℕ, String, ◌⊎◌, ◌+◌, ◌≤◌, ◌<◌, zero, suc, List, [], ◌∷◌, none, some, ◌≡◌, refl, sym, subst, ◌∙◌,
  arith, Bool-cases, inl, inr, nat-Eq, pair-Eq, get, get-put, get-put_self, false, length,
  length-put_new, ◌==◌,
}
use sterun.Indexer.Chain.{ChainRecord, state-Eq}
use sterun.Indexer.Tables.{
  from_state, Provenance, TransitionRow, Index, upsert_record, insert_transition,
}
use sterun.Indexer.Apply.{Reader}
use sterun.Indexer.Rebuild.{
  read_range, WalkedRecord, walk_record, HistoryStep, reconstruct_transitions, write_steps,
  write_records,
}
use sterun.Indexer.Rebuild.Ranges.{read_range-nil, read_range-cons, AnswersById, walk_record-reads}
use sterun.Indexer.Doctor.Agreement.{RecordAgrees}

-- The tables that `doctor` compares are the same.
pub record SameTables (s s' : Index) : Type 0 where
  pub events : s'.events ≡ s.events
  pub categories : s'.categories ≡ s.categories
  pub records : s'.records ≡ s.records

insert_transition-SameTables :
    (s : Index) (t : TransitionRow) → SameTables s (insert_transition s t)
unfolding insert_transition
insert_transition-SameTables s t = ground arith

abbrev step_row : ℕ → HistoryStep → TransitionRow
step_row token t = record {
  token_id = token;
  from_state = t.from_state;
  to_state = t.to_state;
  occurred_at = t.occurred_at;
  ledger = none;
  tx_hash = none;
  source = from_state;
}

write_steps-SameTables :
    (s : Index) (token : ℕ) (steps : List HistoryStep) → SameTables s (write_steps s token steps)
unfolding write_steps
write_steps-SameTables s token [] = record { events = refl; categories = refl; records = refl }
write_steps-SameTables s token (t ∷ steps) =
    let here = insert_transition-SameTables s (step_row token t) in
    let later = write_steps-SameTables (insert_transition s (step_row token t)) token steps in
    record {
      events = later.events ∙ here.events;
      categories = later.categories ∙ here.categories;
      records = later.records ∙ here.records;
    }

pub RecordAgrees-get :
    (reader : Reader) (s s' : Index) (t : ℕ)
    → get s'.records t ≡ get s.records t
    → RecordAgrees reader s t
    → RecordAgrees reader s' t
RecordAgrees-get reader s s' t same a = record {
  on_chain = a.on_chain;
  row = a.row;
  answered = a.answered;
  indexed = same ∙ a.indexed;
  state = a.state;
  bib_no = a.bib_no;
  event_id = a.event_id;
  participant_hash = a.participant_hash;
  finish_time_s = a.finish_time_s;
  addon_ids = a.addon_ids;
}

-- `n` records have been written from `i` on.
pub record RecordsWritten (reader : Reader) (i n : ℕ) (s s' : Index) : Type 0 where
  pub events : s'.events ≡ s.events
  pub categories : s'.categories ≡ s.categories
  pub size : length s'.records ≡ length s.records + n
  pub kept : (j : ℕ) → (j < i) ⊎ (i + n ≤ j) → get s'.records j ≡ get s.records j
  pub agrees : (j : ℕ) → i ≤ j → j < i + n → RecordAgrees reader s' j

upsert_record-RecordsWritten :
    (reader : Reader) (at : Provenance) (r : ChainRecord) (owner : String) (s : Index)
    → reader.record_of r.token_id ≡ some r
    → get s.records r.token_id ≡ none
    → RecordsWritten reader r.token_id 1 s (upsert_record s r owner at)
unfolding upsert_record
upsert_record-RecordsWritten reader at r owner s read fresh = record {
  events = refl;
  categories = refl;
  size = length-put_new s.records r.token_id _ fresh ∙ omega arith;
  kept = λ j out.
      let other : (r.token_id == j) ≡ false = ground arith in
      get-put s.records r.token_id _ j ∙ rw other refl;
  agrees = λ j from below.
      let here : r.token_id ≡ j = omega arith in
      subst (RecordAgrees reader (upsert_record s r owner at)) here (record {
        on_chain = r;
        row = _;
        answered = read;
        indexed = get-put_self s.records r.token_id _;
        state = refl;
        bib_no = refl;
        event_id = refl;
        participant_hash = refl;
        finish_time_s = refl;
        addon_ids = refl;
      });
}

RecordsWritten-steps :
    (reader : Reader) (i n : ℕ) (s s' : Index) (token : ℕ) (steps : List HistoryStep)
    → RecordsWritten reader i n s s'
    → RecordsWritten reader i n s (write_steps s' token steps)
RecordsWritten-steps reader i n s s' token steps h =
    let same = write_steps-SameTables s' token steps in
    record {
      events = same.events ∙ h.events;
      categories = same.categories ∙ h.categories;
      size = rw same.records h.size;
      kept = λ j out. rw same.records (h.kept j out);
      agrees = λ j from below.
          RecordAgrees-get reader s' _ j (rw same.records refl) (h.agrees j from below);
    }

RecordsWritten-next :
    (reader : Reader) (i n : ℕ) (s s1 s' : Index)
    → RecordsWritten reader i 1 s s1
    → RecordsWritten reader (suc i) n s1 s'
    → RecordsWritten reader i (suc n) s s'
RecordsWritten-next reader i n s s1 s' here later = record {
  events = later.events ∙ here.events;
  categories = later.categories ∙ here.categories;
  size = omega (arith, here.size, later.size);
  kept = λ j out. later.kept j (ground arith) ∙ here.kept j (ground arith);
  agrees = λ j from below. elim (Bool-cases (i == j)) [
    | inl same ↦
        RecordAgrees-get reader s1 s' j (later.kept j (ground arith))
          (here.agrees j from (ground arith))
    | inr other ↦ later.agrees j (ground arith) (omega arith)
  ];
}

pub write_records-RecordsWritten :
    (reader : Reader) (own : AnswersById reader) (at : Provenance) (i n : ℕ)
    (ws : List WalkedRecord) (s : Index)
    → read_range (walk_record reader) i n ≡ some ws
    → ((j : ℕ) → i ≤ j → get s.records j ≡ none)
    → RecordsWritten reader i n s (write_records s ws at)
unfolding write_records
write_records-RecordsWritten reader own at i zero ws s read fresh =
    subst (λ xs. RecordsWritten reader i 0 s (write_records s xs at))
      (sym (read_range-nil _ i ws read))
      (record {
        events = refl;
        categories = refl;
        size = omega arith;
        kept = λ j out. refl;
        agrees = λ j from below. ground arith;
      })
write_records-RecordsWritten reader own at i (suc n) ws s read fresh =
    let (w, rest, now, later, e) = read_range-cons (walk_record reader) i n ws read in
    let answered = walk_record-reads reader i w now in
    let s1 =
      write_steps (upsert_record s w.chain w.owner at) w.chain.token_id
        (reconstruct_transitions w.chain) in
    let here : RecordsWritten reader i 1 s s1 =
      let key = sym (own.record' i w.chain answered) in
      RecordsWritten-steps reader i 1 s (upsert_record s w.chain w.owner at) w.chain.token_id _ (
        subst (λ t. RecordsWritten reader t 1 s (upsert_record s w.chain w.owner at)) (sym key)
          (upsert_record-RecordsWritten reader at w.chain w.owner s
            (subst (λ t. reader.record_of t ≡ some w.chain) key answered)
            (subst (λ t. get s.records t ≡ none) key (fresh i (omega arith))))) in
    subst (λ xs. RecordsWritten reader i (suc n) s (write_records s xs at)) (sym e)
      (RecordsWritten-next reader i n s s1 _ here (
        write_records-RecordsWritten reader own at (suc i) n rest s1 later
          (λ j from. here.kept j (ground arith) ∙ fresh j (omega arith))))
