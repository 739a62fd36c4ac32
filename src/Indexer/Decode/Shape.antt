-- ===== src/Indexer/Decode/Shape.antt =====
-- The frozen shapes of the contracts' events (docs/specs/INTERFACE.md), and that the decoder reads them.
use sterun.Common.Int.{pos}
use sterun.Common.{
  ℕ, ◌-◌, ◌^◌, ◌≤◌, String, codes, true, List, [], ◌∷◌, Option, none, some, eq_iff, leb_iff, get,
  string-Eq, ◌≡◌, refl, arith,
}
use sterun.Indexer.Chain.{
  EventStatus, draft, open', closed, completed, cancelled, DecodedEvent, event_created,
  category_added, event_status_changed, scanner_added, scanner_removed, slot_reserved,
  quota_increased, registration_closes_set, mint, record_entered, racepack_claimed_event,
  record_finished, record_finished_untimed, record_dnf, ChainEventEnvelope,
}
use sterun.Indexer.Decode.{
  Native, null_value, number, bigint, string, array, object, next, end, Fields, no_field,
  with_field, RawChainEvent, KnownContracts, emitter, is_account, topic, find_field, data_field,
  i128, u32, u64, optional_u64, text_of, unit_enum, account_address, event_statuses, decode_payload,
  decode_ours, decode_named, name_of, decode_chain_event,
}
use sterun.Indexer.Decode.Gate.{named}

abbrev number_of : ℕ → Native
number_of n = number (pos n)

abbrev big_of : ℕ → Native
big_of n = bigint (pos n)

abbrev status_name : EventStatus → String
status_name draft = "Draft"
status_name open' = "Open"
status_name closed = "Closed"
status_name completed = "Completed"
status_name cancelled = "Cancelled"

abbrev maybe_big : Option ℕ → Native
maybe_big none = null_value
maybe_big (some n) = big_of n

abbrev pub topics_of : DecodedEvent → List Native
topics_of (event_created event_id organiser) =
    string "event_created" ∷ number_of event_id ∷ string organiser ∷ []
topics_of (category_added event_id category_id price quota) =
    string "category_added" ∷ number_of event_id ∷ []
topics_of (event_status_changed event_id status) =
    string "event_status_changed" ∷ number_of event_id ∷ []
topics_of (scanner_added event_id scanner) =
    string "scanner_added" ∷ number_of event_id ∷ string scanner ∷ []
topics_of (scanner_removed event_id scanner) =
    string "scanner_removed" ∷ number_of event_id ∷ string scanner ∷ []
topics_of (slot_reserved event_id category_id seq) =
    string "slot_reserved" ∷ number_of event_id ∷ number_of category_id ∷ []
topics_of (quota_increased event_id category_id previous current) =
    string "quota_increased" ∷ number_of event_id ∷ number_of category_id ∷ []
topics_of (registration_closes_set event_id previous current) =
    string "registration_closes_set" ∷ number_of event_id ∷ []
topics_of (mint to token_id) = string "mint" ∷ string to ∷ []
topics_of (record_entered runner event_id bib_no token_id) =
    string "record_entered" ∷ string runner ∷ number_of event_id ∷ []
topics_of (racepack_claimed_event token_id event_id operator) =
    string "racepack_claimed" ∷ number_of token_id ∷ number_of event_id ∷ []
topics_of (record_finished token_id event_id time) =
    string "record_finished" ∷ number_of token_id ∷ number_of event_id ∷ []
topics_of (record_finished_untimed token_id event_id) =
    string "record_finished_untimed" ∷ number_of token_id ∷ number_of event_id ∷ []
topics_of (record_dnf token_id event_id) =
    string "record_dnf" ∷ number_of token_id ∷ number_of event_id ∷ []

abbrev pub fields_of : DecodedEvent → Fields
fields_of (category_added event_id category_id price quota) =
    with_field "category_id" (number_of category_id)
      (with_field "price" (bigint price) (with_field "quota" (number_of quota) no_field))
fields_of (event_status_changed event_id status) =
    with_field "status" (array (next (string (status_name status)) end)) no_field
fields_of (slot_reserved event_id category_id seq) = with_field "seq" (number_of seq) no_field
fields_of (quota_increased event_id category_id previous current) =
    with_field "current" (number_of current) (with_field "previous" (number_of previous) no_field)
fields_of (registration_closes_set event_id previous current) =
    with_field "current" (big_of current) (with_field "previous" (maybe_big previous) no_field)
fields_of (mint to token_id) = with_field "token_id" (number_of token_id) no_field
fields_of (record_entered runner event_id bib_no token_id) =
    with_field "bib_no" (number_of bib_no) (with_field "token_id" (number_of token_id) no_field)
fields_of (racepack_claimed_event token_id event_id operator) =
    with_field "operator" (string operator) no_field
fields_of (record_finished token_id event_id time) =
    with_field "finish_time_s" (number_of time) no_field
fields_of _ = no_field

abbrev IsU32 : ℕ → Type 0
IsU32 n = n ≤ 0xff_ff_ff_ff

abbrev IsU64 : ℕ → Type 0
IsU64 n = n ≤ 2 ^ 64 - 1

abbrev IsAccount : String → Type 0
IsAccount s = is_account (codes s) ≡ true

abbrev MaybeU64 : Option ℕ → Type 0
MaybeU64 none = Unit
MaybeU64 (some n) = IsU64 n

-- The numbers and addresses that the contracts' types allow.
abbrev pub IsTyped : DecodedEvent → Type 0
IsTyped (event_created event_id organiser) = IsU32 event_id × IsAccount organiser
IsTyped (category_added event_id category_id price quota) =
    IsU32 event_id × IsU32 category_id × IsU32 quota
IsTyped (event_status_changed event_id status) = IsU32 event_id
IsTyped (scanner_added event_id scanner) = IsU32 event_id × IsAccount scanner
IsTyped (scanner_removed event_id scanner) = IsU32 event_id × IsAccount scanner
IsTyped (slot_reserved event_id category_id seq) = IsU32 event_id × IsU32 category_id × IsU32 seq
IsTyped (quota_increased event_id category_id previous current) =
    IsU32 event_id × IsU32 category_id × IsU32 previous × IsU32 current
IsTyped (registration_closes_set event_id previous current) =
    IsU32 event_id × MaybeU64 previous × IsU64 current
IsTyped (mint to token_id) = IsAccount to × IsU32 token_id
IsTyped (record_entered runner event_id bib_no token_id) =
    IsAccount runner × IsU32 event_id × IsU32 bib_no × IsU32 token_id
IsTyped (racepack_claimed_event token_id event_id operator) =
    IsU32 token_id × IsU32 event_id × IsAccount operator
IsTyped (record_finished token_id event_id time) = IsU32 token_id × IsU32 event_id × IsU32 time
IsTyped (record_finished_untimed token_id event_id) = IsU32 token_id × IsU32 event_id
IsTyped (record_dnf token_id event_id) = IsU32 token_id × IsU32 event_id

-- What the RPC gives of an event that its contract emitted in a call that succeeded.
abbrev pub emitted : ChainEventEnvelope → RawChainEvent
emitted e = record {
  id = e.id;
  contract_id = e.contract_id;
  type = "contract";
  ledger = e.ledger;
  ledger_closed_at = some e.ledger_closed_at;
  tx_hash = e.tx_hash;
  in_successful_contract_call = true;
  topics = topics_of e.event;
  data' = object (fields_of e.event);
}

name_of-emitted :
    (e : ChainEventEnvelope) (d : DecodedEvent)
    → name_of (emitted (record e { event = d })) ≡ some (named d)
unfolding name_of text_of get
name_of-emitted e (event_created i o) = refl
name_of-emitted e _ = refl

u32_fits : (n : ℕ) → IsU32 n → u32 (number_of n) ≡ some n
unfolding u32
u32_fits n h = ground arith

u64_fits : (n : ℕ) → IsU64 n → u64 (big_of n) ≡ some n
unfolding u64
u64_fits n h = (rw ((leb_iff n (2 ^ 64 - 1)).1 h) refl)

account_fits : (s : String) → IsAccount s → account_address (string s) ≡ some s
unfolding account_address text_of
account_fits s h = rw h refl

maybe_fits : (o : Option ℕ) → MaybeU64 o → optional_u64 (maybe_big o) ≡ some o
unfolding optional_u64
maybe_fits none h = refl
maybe_fits (some n) h = rw (u64_fits n h) refl

status_fits : (s : EventStatus) → get event_statuses (status_name s) ≡ some s
unfolding get
status_fits draft = refl
status_fits _ = refl

decode_payload-emitted :
    (e : ChainEventEnvelope) (d : DecodedEvent)
    → IsTyped d
    → decode_payload (named d) (emitted (record e { event = d })) ≡ some d
unfolding decode_payload topic data_field find_field i128 unit_enum
decode_payload-emitted e (event_created i o) (a, b) = rw (u32_fits i a, account_fits o b) refl
decode_payload-emitted e (category_added i c p q) (a, b, d) =
    rw (u32_fits i a, u32_fits c b, u32_fits q d) refl
decode_payload-emitted e (event_status_changed i s) a = rw (u32_fits i a, status_fits s) refl
decode_payload-emitted e (scanner_added i s) (a, b) = rw (u32_fits i a, account_fits s b) refl
decode_payload-emitted e (scanner_removed i s) (a, b) = rw (u32_fits i a, account_fits s b) refl
decode_payload-emitted e (slot_reserved i c s) (a, b, d) =
    rw (u32_fits i a, u32_fits c b, u32_fits s d) refl
decode_payload-emitted e (quota_increased i c p q) (a, b, d, f) =
    rw (u32_fits i a, u32_fits c b, u32_fits p d, u32_fits q f) refl
decode_payload-emitted e (registration_closes_set i p c) (a, b, d) =
    rw (u32_fits i a, maybe_fits p b, u64_fits c d) refl
decode_payload-emitted e (mint to t) (a, b) = rw (account_fits to a, u32_fits t b) refl
decode_payload-emitted e (record_entered r i b t) (a, c, d, f) =
    rw (account_fits r a, u32_fits i c, u32_fits b d, u32_fits t f) refl
decode_payload-emitted e (racepack_claimed_event t i o) (a, b, c) =
    rw (u32_fits t a, u32_fits i b, account_fits o c) refl
decode_payload-emitted e (record_finished t i f) (a, b, c) =
    rw (u32_fits t a, u32_fits i b, u32_fits f c) refl
decode_payload-emitted e (record_finished_untimed t i) (a, b) = rw (u32_fits t a, u32_fits i b) refl
decode_payload-emitted e (record_dnf t i) (a, b) = rw (u32_fits t a, u32_fits i b) refl

-- Every event that its contract emits, with numbers and addresses of the contracts' types, in the
-- shape that is frozen, is decoded to itself.
pub decode_chain_event-emitted :
    (contracts : KnownContracts) (e : ChainEventEnvelope)
    → IsTyped e.event
    → e.contract_id ≡ emitter contracts (named e.event)
    → e.ledger ≤ 0xff_ff_ff_ff
    → decode_chain_event contracts (emitted e) ≡ some (some e)
unfolding decode_chain_event decode_named decode_ours
decode_chain_event-emitted contracts e typed from ledger =
    let same = (eq_iff e.contract_id (emitter contracts (named e.event))).1 from in
    simp
      (
        name_of-emitted e e.event,
        same,
        decode_payload-emitted e e.event typed,
        u32_fits e.ledger ledger,
      )
      refl
