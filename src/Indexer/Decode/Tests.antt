-- ===== src/Indexer/Decode/Tests.antt =====
-- The decoder at one event of each kind of fate.
use sterun.Common.Int.{pos}
use sterun.Common.{
  String, Text, List, [], ◌∷◌, none, some, ◌==◌, ◌&&◌, if◌then◌else◌, ◌≡◌, refl, arith, All, eq_iff,
  map, get, string-Eq,
}
use sterun.Indexer.Chain.{event_created, ChainEventEnvelope}
use sterun.Indexer.Decode.{
  Native, created, number, bigint, object, with_field, no_field, string, find_field, i128,
  RawChainEvent, KnownContracts, emitter, u32, text_of, is_account, is_base32, account_address,
  topic, name_of, decode_payload, decode_ours, decode_named, decode_chain_event,
}
use sterun.Indexer.Decode.Gate.{IsOurs, decode_page-IsOurs, decode_chain_event_ignores}
use sterun.Indexer.Decode.Shape.{IsTyped, emitted, decode_chain_event-emitted}
use sterun.Indexer.Poll.{page_event, decode_page}
use sterun.Indexer.Reader.{
  ContractCall, call_get_category, Simulated, answers, reverts, field, decode_category,
  chain_reader,
}

abbrev two_contracts : KnownContracts
two_contracts = record { event_registry = "CR"; race_record = "CT" }

abbrev created_envelope : ChainEventEnvelope
created_envelope = record {
  id = "1";
  contract_id = "CR";
  ledger = 10;
  ledger_closed_at = 50;
  tx_hash = "t";
  event = event_created 4 "GAAAAAAAAAAAAAAAAAAAAAAAAAAAAAAAAAAAAAAAAAAAAAAAAAAAAAAA";
}

-- The same event from a contract that is not ours, and with no organiser in it.
abbrev forged : RawChainEvent
forged = record (emitted created_envelope) {
  contract_id = "CX";
  topics = string "event_created" ∷ number (pos 4) ∷ [];
}

abbrev raw_page : List RawChainEvent
raw_page = emitted created_envelope ∷ forged ∷ []

page_decoded :
    decode_page (map (page_event two_contracts) raw_page) ≡ some (created_envelope ∷ [], 1)
unfolding decode_page page_event decode_chain_event decode_named decode_ours decode_payload name_of
    topic emitter u32 text_of account_address is_account is_base32 get
page_decoded = refl

-- From our contract the missing organiser throws.
misshapen_throws : decode_chain_event two_contracts (record forged { contract_id = "CR" }) ≡ none
unfolding decode_chain_event decode_named decode_ours decode_payload name_of topic emitter u32
    text_of get
misshapen_throws = refl

decode_page-IsOurs_example : All (IsOurs two_contracts) (created_envelope ∷ [])
decode_page-IsOurs_example =
    decode_page-IsOurs two_contracts raw_page (created_envelope ∷ []) 1 page_decoded

decode_chain_event_ignores_example : decode_chain_event two_contracts forged ≡ some none
decode_chain_event_ignores_example =
    decode_chain_event_ignores two_contracts forged (λ e. ground (arith, (eq_iff "CX" "CR").1 e))
      (λ e. ground (arith, (eq_iff "CX" "CT").1 e))

created-IsTyped : IsTyped created_envelope.event
unfolding is_account is_base32
created-IsTyped = (omega arith, refl)

created_from_registry : created_envelope.contract_id ≡ emitter two_contracts created
unfolding emitter
created_from_registry = refl

decode_chain_event-emitted_example :
    decode_chain_event two_contracts (emitted created_envelope) ≡ some (some created_envelope)
decode_chain_event-emitted_example =
    decode_chain_event-emitted two_contracts created_envelope created-IsTyped created_from_registry
      (omega arith)

abbrev no_hex : Text → String
no_hex b = ""

abbrev category_value : Native
category_value = object (
    with_field "code" (string "10K") (
      with_field "distance_m" (number (pos 10_000)) (
        with_field "quota" (number (pos 300)) (
          with_field "price_usdc" (bigint (pos 50))
            (with_field "entered_count" (number (pos 7)) no_field)))))

-- A registry whose event 4 has the category 2, and no other answer.
abbrev one_category : ContractCall → Simulated
one_category (call_get_category event_id category_id) =
    if event_id == 4 && category_id == 2 then answers category_value else reverts
one_category _ = reverts

category_is_read :
    (chain_reader no_hex one_category).get_category (4, 2)
    ≡ some (record {
      event_id = 4;
      category_id = 2;
      code = "10K";
      distance_m = 10_000;
      quota = 300;
      price_stroops = pos 50;
      entered_count = 7;
    })
unfolding chain_reader decode_category field find_field u32 i128 text_of
category_is_read = refl
