-- ===== src/Indexer/Reader.antt =====
-- be/src/chain/reader.ts and the structs of decode.ts: what the contracts answer, decoded. The call of
-- a contract is a parameter, and so is Buffer's lowercase hex.
pub mod Ids
use sterun.Common.Int.{pos}
use sterun.Common.{
  ◌>>=◌, ℕ, String, Text, Bool, List, [], ◌∷◌, Option, none, some, ◌==◌, if◌then◌else◌, length,
  Dict, string-Eq,
}
use sterun.Indexer.Chain.{
  RecordState, entered, racepack_claimed, finished, dnf, ChainEvent, ChainCategory, ChainRecord,
}
use sterun.Indexer.Decode.{
  Native, null_value, truth, number, bytes, array, object, Natives, end, next, u32, u64, i128,
  optional_u64, text_of, account_address, unit_enum, event_statuses, find_field,
}
use sterun.Indexer.Apply.{Reader}

pub data ContractCall : Type 0 where
  call_event_count call_total_supply : ContractCall
  call_category_count call_get_event call_registration_closes call_record_of call_owner_of :
      ℕ → ContractCall
  call_get_category : (event_id category_id : ℕ) → ContractCall
  call_is_scanner : (event_id : ℕ) (address : String) → ContractCall

pub data Simulated : Type 0 where
  answers : Native → Simulated
  missing_function reverts : Simulated

abbrev pub value_of : Simulated → Option Native
value_of (answers v) = some v
value_of _ = none

abbrev pub record_states : Dict String RecordState
record_states =
    ("Entered", entered)
    ∷ ("RacepackClaimed", racepack_claimed)
    ∷ ("Finished", finished)
    ∷ ("Dnf", dnf)
    ∷ []

unfoldable pub field : Native → String → Option Native
field (object fields) name = find_field name fields
field _ name = none

unfoldable pub optional_u32 : Native → Option (Option ℕ)
optional_u32 null_value = some none
optional_u32 value = do n ← u32 value; some (some n)

unfoldable pub u32_all : Natives → Option (List ℕ)
u32_all end = some []
u32_all (next value rest) = do n ← u32 value; ns ← u32_all rest; some (n ∷ ns)

unfoldable pub decode_token_ids : Native → Option (List ℕ)
decode_token_ids (array values) = u32_all values
decode_token_ids _ = none

abbrev pub id_of : ℕ → Option ℕ
id_of n = u32 (number (pos n))

module _ (to_hex : Text → String) where
  unfoldable pub bytes32_hex : Native → Option String
  bytes32_hex (bytes b) = if length b == 32 then some (to_hex b) else none
  bytes32_hex _ = none

  unfoldable pub decode_event : ℕ → Native → Option ChainEvent
  decode_event event_id value = do
    id ← id_of event_id
    organiser ← field value "organiser" >>= account_address
    name ← field value "name" >>= text_of
    metadata_hash ← field value "metadata_hash" >>= bytes32_hex
    uri ← field value "uri" >>= text_of
    starts_at ← field value "starts_at" >>= u64
    status ← field value "status" >>= unit_enum event_statuses
    some (record {
      event_id = id;
      organiser = organiser;
      name = name;
      metadata_hash = metadata_hash;
      uri = uri;
      starts_at = starts_at;
      status = status;
    })

  unfoldable pub decode_category : ℕ → ℕ → Native → Option ChainCategory
  decode_category event_id category_id value = do
    event ← id_of event_id
    category ← id_of category_id
    code ← field value "code" >>= text_of
    distance_m ← field value "distance_m" >>= u32
    quota ← field value "quota" >>= u32
    price ← field value "price_usdc" >>= i128
    entered_count ← field value "entered_count" >>= u32
    some (record {
      event_id = event;
      category_id = category;
      code = code;
      distance_m = distance_m;
      quota = quota;
      price_stroops = price;
      entered_count = entered_count;
    })

  unfoldable pub decode_record : ℕ → Native → Option ChainRecord
  decode_record token_id value = do
    token ← id_of token_id
    event_id ← field value "event_id" >>= u32
    category_id ← field value "category_id" >>= u32
    bib_no ← field value "bib_no" >>= u32
    participant_hash ← field value "participant_hash" >>= bytes32_hex
    state ← field value "state" >>= unit_enum record_states
    entered_at ← field value "entered_at" >>= u64
    claimed_at ← field value "claimed_at" >>= optional_u64
    finish_time_s ← field value "finish_time_s" >>= optional_u32
    result_at ← field value "result_at" >>= optional_u64
    addon_ids ← field value "addon_ids" >>= decode_token_ids
    some (record {
      token_id = token;
      event_id = event_id;
      category_id = category_id;
      bib_no = bib_no;
      participant_hash = participant_hash;
      state = state;
      entered_at = entered_at;
      claimed_at = claimed_at;
      finish_time_s = finish_time_s;
      result_at = result_at;
      addon_ids = addon_ids;
    })

  -- A contract from before the close dates has none of the function: no date.
  unfoldable pub read_closes : Simulated → Option (Option ℕ)
  read_closes (answers v) = optional_u64 v
  read_closes missing_function = some none
  read_closes reverts = none

  unfoldable pub read_truth : Native → Option Bool
  read_truth (truth b) = some b
  read_truth _ = none

  unfoldable pub chain_reader : (ContractCall → Simulated) → Reader
  chain_reader simulate = record {
    event_count = value_of (simulate call_event_count) >>= u32;
    get_event = λ i. value_of (simulate (call_get_event i)) >>= decode_event i;
    registration_closes = λ i. read_closes (simulate (call_registration_closes i));
    category_count = λ i. value_of (simulate (call_category_count i)) >>= u32;
    get_category = λ k. value_of (simulate (call_get_category k.0 k.1)) >>= decode_category k.0 k.1;
    total_supply = value_of (simulate call_total_supply) >>= u32;
    record_of = λ t. value_of (simulate (call_record_of t)) >>= decode_record t;
    owner_of = λ t. value_of (simulate (call_owner_of t)) >>= account_address;
    is_scanner = λ i a. value_of (simulate (call_is_scanner i a)) >>= read_truth;
  }
