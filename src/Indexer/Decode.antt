-- ===== src/Indexer/Decode.antt =====
-- be/src/chain/events.ts and the values of decode.ts: a raw event of the RPC, decoded. A throw is
-- `none`; an event that is not ours is `some none`. `Native` is what `scValToNative` may give; the
-- time that `Date` makes of the ledger's closing is a field, none where it is no date.
pub mod Gate
pub mod Shape
mod Tests
use sterun.Common.Int.{ℤ, pos}
use sterun.Common.{
  ◌>>=◌, ℕ, ◌-◌, ◌^◌, String, Text, codes, Bool, true, false, not, ◌&&◌, ◌||◌, List, [], ◌∷◌,
  Option, none, some, ◌==◌, leb, str_eq, if◌then◌else◌, get_elem?, all, length, Dict, string-Eq,
  get,
}
use sterun.Indexer.Chain.{
  EventStatus, draft, open', closed, completed, cancelled, DecodedEvent, event_created,
  category_added, event_status_changed, scanner_added, scanner_removed, slot_reserved,
  quota_increased, registration_closes_set, mint, record_entered, racepack_claimed_event,
  record_finished, record_finished_untimed, record_dnf, ChainEventEnvelope,
}

mutual
  pub data Native : Type 0 where
    null_value fraction : Native
    truth : Bool → Native
    number bigint : ℤ → Native
    string : String → Native
    bytes : Text → Native
    array : Natives → Native
    object : Fields → Native

  pub data Natives : Type 0 where
    end : Natives
    next : Native → Natives → Natives

  pub data Fields : Type 0 where
    no_field : Fields
    with_field : String → Native → Fields → Fields

pub record RawChainEvent : Type 0 where
  pub id : String
  pub contract_id : String
  pub type : String
  pub ledger : ℕ
  pub ledger_closed_at : Option ℕ
  pub tx_hash : String
  pub in_successful_contract_call : Bool
  pub topics : List Native
  pub data' : Native

pub record KnownContracts : Type 0 where
  pub event_registry : String
  pub race_record : String

pub data EventName : Type 0 where
  created category status_change scanner_in scanner_out reserved raised closes minted entry claim
        finish untimed dnf' :
      EventName

abbrev pub event_names : Dict String EventName
event_names =
    ("event_created", created)
    ∷ ("category_added", category)
    ∷ ("event_status_changed", status_change)
    ∷ ("scanner_added", scanner_in)
    ∷ ("scanner_removed", scanner_out)
    ∷ ("slot_reserved", reserved)
    ∷ ("quota_increased", raised)
    ∷ ("registration_closes_set", closes)
    ∷ ("mint", minted)
    ∷ ("record_entered", entry)
    ∷ ("racepack_claimed", claim)
    ∷ ("record_finished", finish)
    ∷ ("record_finished_untimed", untimed)
    ∷ ("record_dnf", dnf')
    ∷ []

unfoldable pub emitter : KnownContracts → EventName → String
emitter contracts minted = contracts.race_record
emitter contracts entry = contracts.race_record
emitter contracts claim = contracts.race_record
emitter contracts finish = contracts.race_record
emitter contracts untimed = contracts.race_record
emitter contracts dnf' = contracts.race_record
emitter contracts _ = contracts.event_registry

abbrev pub event_statuses : Dict String EventStatus
event_statuses =
    ("Draft", draft)
    ∷ ("Open", open')
    ∷ ("Closed", closed)
    ∷ ("Completed", completed)
    ∷ ("Cancelled", cancelled)
    ∷ []

unfoldable pub u32 : Native → Option ℕ
u32 (number (pos n)) = if leb n 0xff_ff_ff_ff then some n else none
u32 _ = none

unfoldable pub u64 : Native → Option ℕ
u64 (bigint (pos n)) = if leb n (2 ^ 64 - 1) then some n else none
u64 _ = none

unfoldable pub i128 : Native → Option ℤ
i128 (bigint n) = some n
i128 _ = none

-- `optional` of a u64.
unfoldable pub optional_u64 : Native → Option (Option ℕ)
optional_u64 null_value = some none
optional_u64 value = do n ← u64 value; some (some n)

unfoldable pub text_of : Native → Option String
text_of (string s) = some s
text_of _ = none

-- `/^G[A-Z2-7]{55}$/`.
unfoldable pub is_base32 : ℕ → Bool
is_base32 c = leb 0x41 c && leb c 0x5a || leb 0x32 c && leb c 0x37

unfoldable pub is_account : Text → Bool
is_account [] = false
is_account (c ∷ s) = c == 0x47 && (length s == 55 && all is_base32 s)

unfoldable pub account_address : Native → Option String
account_address value = do s ← text_of value; if is_account (codes s) then some s else none

-- A variant is its name, or an array of it alone.
unfoldable pub unit_enum {ℓ} : {A : Type ℓ} → Dict String A → Native → Option A
unit_enum allowed (string name) = get allowed name
unit_enum allowed (array (next (string name) end)) = get allowed name
unit_enum allowed _ = none

unfoldable pub topic : RawChainEvent → ℕ → Option Native
topic raw index = get_elem? raw.topics index

unfoldable pub find_field : String → Fields → Option Native
find_field key no_field = none
find_field key (with_field name value rest) =
    let later = find_field key rest in if str_eq name key then some value else later

unfoldable pub data_field : RawChainEvent → String → Option Native
data_field raw key = elim raw.data' [ object fields ↦ find_field key fields | _ ↦ none ]

abbrev pub topic_u32 : RawChainEvent → ℕ → Option ℕ
topic_u32 raw index = topic raw index >>= u32

abbrev pub data_u32 : RawChainEvent → String → Option ℕ
data_u32 raw key = data_field raw key >>= u32

abbrev pub topic_account : RawChainEvent → ℕ → Option String
topic_account raw index = topic raw index >>= account_address

unfoldable pub decode_payload : EventName → RawChainEvent → Option DecodedEvent
decode_payload created raw = do
  event_id ← topic_u32 raw 1
  organiser ← topic_account raw 2
  some (event_created event_id organiser)
decode_payload category raw = do
  event_id ← topic_u32 raw 1
  category_id ← data_u32 raw "category_id"
  price ← data_field raw "price" >>= i128
  quota ← data_u32 raw "quota"
  some (category_added event_id category_id price quota)
decode_payload status_change raw = do
  event_id ← topic_u32 raw 1
  status ← data_field raw "status" >>= unit_enum event_statuses
  some (event_status_changed event_id status)
decode_payload scanner_in raw = do
  event_id ← topic_u32 raw 1
  scanner ← topic_account raw 2
  some (scanner_added event_id scanner)
decode_payload scanner_out raw = do
  event_id ← topic_u32 raw 1
  scanner ← topic_account raw 2
  some (scanner_removed event_id scanner)
decode_payload reserved raw = do
  event_id ← topic_u32 raw 1
  category_id ← topic_u32 raw 2
  seq ← data_u32 raw "seq"
  some (slot_reserved event_id category_id seq)
decode_payload raised raw = do
  event_id ← topic_u32 raw 1
  category_id ← topic_u32 raw 2
  previous ← data_u32 raw "previous"
  current ← data_u32 raw "current"
  some (quota_increased event_id category_id previous current)
decode_payload closes raw = do
  event_id ← topic_u32 raw 1
  previous ← data_field raw "previous" >>= optional_u64
  current ← data_field raw "current" >>= u64
  some (registration_closes_set event_id previous current)
decode_payload minted raw = do
  to ← topic_account raw 1
  token_id ← data_u32 raw "token_id"
  some (mint to token_id)
decode_payload entry raw = do
  runner ← topic_account raw 1
  event_id ← topic_u32 raw 2
  bib_no ← data_u32 raw "bib_no"
  token_id ← data_u32 raw "token_id"
  some (record_entered runner event_id bib_no token_id)
decode_payload claim raw = do
  token_id ← topic_u32 raw 1
  event_id ← topic_u32 raw 2
  operator ← data_field raw "operator" >>= account_address
  some (racepack_claimed_event token_id event_id operator)
decode_payload finish raw = do
  token_id ← topic_u32 raw 1
  event_id ← topic_u32 raw 2
  finish_time_s ← data_u32 raw "finish_time_s"
  some (record_finished token_id event_id finish_time_s)
decode_payload untimed raw = do
  token_id ← topic_u32 raw 1
  event_id ← topic_u32 raw 2
  some (record_finished_untimed token_id event_id)
decode_payload dnf' raw = do
  token_id ← topic_u32 raw 1
  event_id ← topic_u32 raw 2
  some (record_dnf token_id event_id)

-- The first topic, where it is one of our names. A name that every object inherits passes `in`, but
-- has no contract.
unfoldable pub name_of : RawChainEvent → Option EventName
name_of raw = elim (get_elem? raw.topics 0) [
  | none ↦ none
  | some first ↦ elim (text_of first) [ none ↦ none | some s ↦ get event_names s ]
]

unfoldable pub decode_ours : RawChainEvent → EventName → Option ChainEventEnvelope
decode_ours raw name = do
  event ← decode_payload name raw
  closed_at ← raw.ledger_closed_at
  ledger ← u32 (number (pos raw.ledger))
  some (record {
    id = raw.id;
    contract_id = raw.contract_id;
    ledger = ledger;
    ledger_closed_at = closed_at;
    tx_hash = raw.tx_hash;
    event = event;
  })

unfoldable pub decode_named :
    KnownContracts → RawChainEvent → Option EventName → Option (Option ChainEventEnvelope)
decode_named contracts raw none = some none
decode_named contracts raw (some name) =
    if not (str_eq raw.contract_id (emitter contracts name))
    then some none
    else (do envelope ← decode_ours raw name; some (some envelope))

unfoldable pub decode_chain_event :
    KnownContracts → RawChainEvent → Option (Option ChainEventEnvelope)
decode_chain_event contracts raw =
    if not (str_eq raw.type "contract")
    then some none
    else if not raw.in_successful_contract_call
    then some none
    else decode_named contracts raw (name_of raw)
