-- ===== src/Indexer/Samples.antt =====
-- A small chain: one event with one category and one record, and a page of its events.
use sterun.Common.Int.{pos}
use sterun.Common.{
  ℕ, true, List, [], ◌∷◌, none, some, string-Eq, nat-Eq, pair-Eq, ◌==◌, if◌then◌else◌, map, String,
}
use sterun.Indexer.Chain.{
  entered, draft, ChainEvent, ChainCategory, ChainRecord, DecodedEvent, event_created,
  category_added, record_entered, ChainEventEnvelope,
}
use sterun.Indexer.Tables.{Index}
use sterun.Indexer.Apply.{Reader, Hydration}
use sterun.Indexer.Poll.{EventPage}

abbrev pub empty : Index
empty = record {
  cursor = none;
  chain_events = [];
  events = [];
  categories = [];
  records = [];
  transitions = [];
  scanners = [];
  participants = [];
}

abbrev pub sample_event : ChainEvent
sample_event = record {
  event_id = 0;
  organiser = "G1";
  name = "Race";
  metadata_hash = "";
  uri = "";
  starts_at = 900;
  status = draft;
}

abbrev pub sample_category : ChainCategory
sample_category = record {
  event_id = 0;
  category_id = 0;
  code = "10K";
  distance_m = 10_000;
  quota = 5;
  price_stroops = pos 7;
  entered_count = 1;
}

abbrev pub sample_record : ChainRecord
sample_record = record {
  token_id = 0;
  event_id = 0;
  category_id = 0;
  bib_no = 1;
  participant_hash = "h";
  state = entered;
  entered_at = 50;
  claimed_at = none;
  finish_time_s = none;
  result_at = none;
  addon_ids = [];
}

-- One event with one category and one record.
abbrev pub sample_reader : Reader
sample_reader = record {
  event_count = some 1;
  get_event = λ i. some sample_event;
  registration_closes = λ i. some none;
  category_count = λ i. some 1;
  get_category = λ k. if k.0 == 0 then (if k.1 == 0 then some sample_category else none) else none;
  total_supply = some 1;
  record_of = λ t. some sample_record;
  owner_of = λ t. some "G2";
  is_scanner = λ e a. some true;
}

abbrev pub envelope : (id : String) → (ledger : ℕ) → DecodedEvent → ChainEventEnvelope
envelope id ledger event = record {
  id = id;
  contract_id = "C";
  ledger = ledger;
  ledger_closed_at = 50;
  tx_hash = "t";
  event = event;
}

abbrev pub sample_envelopes : List ChainEventEnvelope
sample_envelopes =
    envelope "1" 10 (event_created 0 "G1")
    ∷ envelope "2" 11 (category_added 0 0 (pos 7) 5)
    ∷ envelope "3" 12 (record_entered "G2" 0 1 0)
    ∷ []

abbrev pub sample_page : EventPage
sample_page = record {
  events = map (λ e. record { ledger = e.ledger; decoded = some (some e) }) sample_envelopes;
  cursor = "55834574848-1";
  latest_ledger = 20;
  oldest_ledger = 5;
}

abbrev pub sample_hydration : Hydration
sample_hydration = record {
  events = (0, sample_event) ∷ [];
  categories = ((0, 0), sample_category) ∷ [];
  records = (0, sample_record) ∷ [];
}

abbrev pub home : ℕ → ℕ × ℕ
home token = (0, 0)

-- As `sample_reader`, with nothing at other ids.
abbrev pub small_reader : Reader
small_reader = record sample_reader {
  get_event = λ i. if i == 0 then some sample_event else none;
  record_of = λ t. if t == 0 then some sample_record else none;
}
