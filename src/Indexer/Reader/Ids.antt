-- ===== src/Indexer/Reader/Ids.antt =====
-- What the reader gives is what the contract answered to the call for the ids that were asked for.
use sterun.Common.{◌>>=◌, ℕ, String, Text, Option, some, ◌≡◌}
use sterun.Indexer.Chain.{ChainEvent, ChainCategory, ChainRecord}
use sterun.Indexer.Decode.{
  Native, u32, u64, i128, optional_u64, text_of, account_address, unit_enum, event_statuses,
}
use sterun.Indexer.Apply.{Reader}
use sterun.Indexer.Reader.{
  ContractCall, Simulated, answers, record_states, field, optional_u32, decode_token_ids,
  bytes32_hex, call_get_event, call_get_category, call_record_of,
}

module _ (to_hex : Text → String) where
  -- The fields of an answer are those of the value.
  abbrev pub EventOf : ℕ → Native → ChainEvent → Type 0
  EventOf i v e =
      (e.event_id ≡ i)
      × ((field v "organiser" >>= account_address) ≡ some e.organiser)
      × ((field v "name" >>= text_of) ≡ some e.name)
      × ((field v "metadata_hash" >>= bytes32_hex to_hex) ≡ some e.metadata_hash)
      × ((field v "uri" >>= text_of) ≡ some e.uri)
      × ((field v "starts_at" >>= u64) ≡ some e.starts_at)
      × ((field v "status" >>= unit_enum event_statuses) ≡ some e.status)

  abbrev pub CategoryOf : ℕ → ℕ → Native → ChainCategory → Type 0
  CategoryOf i c v a =
      (a.event_id ≡ i)
      × (a.category_id ≡ c)
      × ((field v "code" >>= text_of) ≡ some a.code)
      × ((field v "distance_m" >>= u32) ≡ some a.distance_m)
      × ((field v "quota" >>= u32) ≡ some a.quota)
      × ((field v "price_usdc" >>= i128) ≡ some a.price_stroops)
      × ((field v "entered_count" >>= u32) ≡ some a.entered_count)

  abbrev pub RecordOf : ℕ → Native → ChainRecord → Type 0
  RecordOf t v r =
      (r.token_id ≡ t)
      × ((field v "event_id" >>= u32) ≡ some r.event_id)
      × ((field v "category_id" >>= u32) ≡ some r.category_id)
      × ((field v "bib_no" >>= u32) ≡ some r.bib_no)
      × ((field v "participant_hash" >>= bytes32_hex to_hex) ≡ some r.participant_hash)
      × ((field v "state" >>= unit_enum record_states) ≡ some r.state)
      × ((field v "entered_at" >>= u64) ≡ some r.entered_at)
      × ((field v "claimed_at" >>= optional_u64) ≡ some r.claimed_at)
      × ((field v "finish_time_s" >>= optional_u32) ≡ some r.finish_time_s)
      × ((field v "result_at" >>= optional_u64) ≡ some r.result_at)
      × ((field v "addon_ids" >>= decode_token_ids) ≡ some r.addon_ids)

  -- What a reader gives, against what the contracts answered to the call for the same ids.
  pub record IsAnswered (simulate : ContractCall → Simulated) (reader : Reader) : Type 0 where
    pub event :
        (i : ℕ) (e : ChainEvent)
        → reader.get_event i ≡ some e
        → (v : Native) × (simulate (call_get_event i) ≡ answers v) × EventOf i v e
    pub category :
        (i c : ℕ) (a : ChainCategory)
        → reader.get_category (i, c) ≡ some a
        → (v : Native) × (simulate (call_get_category i c) ≡ answers v) × CategoryOf i c v a
    pub record' :
        (t : ℕ) (r : ChainRecord)
        → reader.record_of t ≡ some r
        → (v : Native) × (simulate (call_record_of t) ≡ answers v) × RecordOf t v r
