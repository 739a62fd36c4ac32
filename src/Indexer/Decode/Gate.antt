-- ===== src/Indexer/Decode/Gate.antt =====
-- What passes the decoder.
use sterun.Common.{
  ℕ, ◌+◌, String, List, [], ◌∷◌, Option, none, some, str_eq, eq_iff, ◌≡◌, ◌≢◌, sym, ◌∙◌, arith,
  Option-cases, Bool-cases, inl, inr, All, map, ap, subst,
}
use sterun.Common.Int.{pos}
use mathlib.Core.Option.{some-injective}
use sterun.Indexer.Chain.{
  DecodedEvent, event_created, category_added, event_status_changed, scanner_added, scanner_removed,
  slot_reserved, quota_increased, registration_closes_set, mint, record_entered,
  racepack_claimed_event, record_finished, record_finished_untimed, record_dnf, ChainEventEnvelope,
}
use sterun.Indexer.Decode.{
  number, RawChainEvent, KnownContracts, EventName, created, category, status_change, scanner_in,
  scanner_out, reserved, raised, closes, minted, entry, claim, finish, untimed, dnf', emitter, u32,
  decode_payload, decode_ours, decode_named, name_of, decode_chain_event,
}
use sterun.Indexer.Poll.{page_event, decode_page}

-- The name of a decoded event.
abbrev pub named : DecodedEvent → EventName
named (event_created event_id organiser) = created
named (category_added event_id category_id price quota) = category
named (event_status_changed event_id s) = status_change
named (scanner_added event_id scanner) = scanner_in
named (scanner_removed event_id scanner) = scanner_out
named (slot_reserved event_id category_id seq) = reserved
named (quota_increased event_id category_id previous current) = raised
named (registration_closes_set event_id previous current) = closes
named (mint to token_id) = minted
named (record_entered runner event_id bib_no token_id) = entry
named (racepack_claimed_event token_id event_id operator) = claim
named (record_finished token_id event_id time) = finish
named (record_finished_untimed token_id event_id) = untimed
named (record_dnf token_id event_id) = dnf'

decode_payload-named :
    (name : EventName) (raw : RawChainEvent) (e : DecodedEvent)
    → decode_payload name raw ≡ some e
    → named e ≡ name
unfolding decode_payload
decode_payload-named _ raw e h = ground arith

abbrev pub IsOurs : KnownContracts → ChainEventEnvelope → Type 0
IsOurs contracts e = e.contract_id ≡ emitter contracts (named e.event)

decode_ours-IsOurs :
    (contracts : KnownContracts) (raw : RawChainEvent) (name : EventName) (e : ChainEventEnvelope)
    → raw.contract_id ≡ emitter contracts name
    → decode_ours raw name ≡ some e
    → IsOurs contracts e
unfolding decode_ours
decode_ours-IsOurs contracts raw name e from h = elim (Option-cases (decode_payload name raw)) [
  | inl fails ↦ ground arith
  | inr (d, made) ↦ elim (Option-cases raw.ledger_closed_at) [
    | inl fails ↦ ground arith
    | inr (t, dated) ↦ elim (Option-cases (u32 (number (pos raw.ledger)))) [
      | inl fails ↦ ground arith
      | inr (l, whole) ↦
          let made_of = some-injective _ _ (simp (made, dated, whole) at h) in
          subst (IsOurs contracts) made_of
            (from ∙ ap (emitter contracts) (sym (decode_payload-named name raw d made)))
    ]
  ]
]

decode_named-IsOurs :
    (contracts : KnownContracts) (raw : RawChainEvent) (name : Option EventName)
    (e : ChainEventEnvelope)
    → decode_named contracts raw name ≡ some (some e)
    → IsOurs contracts e
unfolding decode_named
decode_named-IsOurs contracts raw none e h = ground arith
decode_named-IsOurs contracts raw (some name) e h =
    elim (Bool-cases (str_eq raw.contract_id (emitter contracts name))) [
      | inr other ↦ ground arith
      | inl same ↦ elim (Option-cases (decode_ours raw name)) [
        | inl fails ↦ ground arith
        | inr (e', ours) ↦
            let made = decode_ours-IsOurs contracts raw name e' ((eq_iff _ _).0 same) ours in
            let same_event : e' ≡ e = ground arith in subst (IsOurs contracts) same_event made
      ]
    ]

decode_chain_event-IsOurs :
    (contracts : KnownContracts) (raw : RawChainEvent) (e : ChainEventEnvelope)
    → decode_chain_event contracts raw ≡ some (some e)
    → IsOurs contracts e
unfolding decode_chain_event
decode_chain_event-IsOurs contracts raw e h = elim (Bool-cases (str_eq raw.type "contract")) [
  | inr other ↦ ground arith
  | inl same ↦ elim (Bool-cases raw.in_successful_contract_call) [
    | inr failed ↦ ground arith
    | inl done ↦ decode_named-IsOurs contracts raw (name_of raw) e (ground arith)
  ]
]

decoded-All :
    (contracts : KnownContracts) (raw : RawChainEvent) (d : Option ChainEventEnvelope)
    (es' : List ChainEventEnvelope) (ignored' : ℕ) (es : List ChainEventEnvelope) (ignored : ℕ)
    → decode_chain_event contracts raw ≡ some d
    → All (IsOurs contracts) es'
    → elim d as (λ _. List ChainEventEnvelope × ℕ) [
      | none ↦ (es', ignored' + 1)
      | some e ↦ (e ∷ es', ignored')
    ]
      ≡ (es, ignored)
    → All (IsOurs contracts) es
decoded-All contracts raw none es' ignored' es ignored decoded later same =
    subst (All (IsOurs contracts)) (ap (λ (p : List ChainEventEnvelope × ℕ). p.0) same) later
decoded-All contracts raw (some e) es' ignored' es ignored decoded later same =
    subst (All (IsOurs contracts)) (ap (λ (p : List ChainEventEnvelope × ℕ). p.0) same)
      (decode_chain_event-IsOurs contracts raw e decoded, later)

-- Every event that a page brings into the index was emitted by the contract that may emit events of
-- its name, of the two that are known.
pub decode_page-IsOurs :
    (contracts : KnownContracts) (raws : List RawChainEvent) (es : List ChainEventEnvelope)
    (ignored : ℕ)
    → decode_page (map (page_event contracts) raws) ≡ some (es, ignored)
    → All (IsOurs contracts) es
unfolding decode_page page_event
decode_page-IsOurs contracts [] es ignored h =
    let nothing : [] ≡ es = ground arith in subst (All (IsOurs contracts)) nothing tt
decode_page-IsOurs contracts (raw ∷ raws) es ignored h =
    elim (Option-cases (decode_chain_event contracts raw)) [
      | inl fails ↦ ground arith
      | inr (d, decoded) ↦ elim (Option-cases (decode_page (map (page_event contracts) raws))) [
        | inl fails ↦ ground arith
        | inr ((es', ignored'), rest) ↦
            let later = decode_page-IsOurs contracts raws es' ignored' rest in
            decoded-All contracts raw d es' ignored' es ignored decoded later
              (some-injective _ _ (rw (decoded, rest) at h))
      ]
    ]

foreign :
    (contracts : KnownContracts) (name : EventName) (id : String)
    → id ≢ contracts.event_registry
    → id ≢ contracts.race_record
    → id ≢ emitter contracts name
unfolding emitter
foreign contracts minted id a b = b
foreign contracts entry id a b = b
foreign contracts claim id a b = b
foreign contracts finish id a b = b
foreign contracts untimed id a b = b
foreign contracts dnf' id a b = b
foreign contracts _ id a b = a

-- An event of any other contract is ignored, whatever its topics and data are: it never makes the
-- decoder throw.
pub decode_chain_event_ignores :
    (contracts : KnownContracts) (raw : RawChainEvent)
    → raw.contract_id ≢ contracts.event_registry
    → raw.contract_id ≢ contracts.race_record
    → decode_chain_event contracts raw ≡ some none
unfolding decode_chain_event decode_named
decode_chain_event_ignores contracts raw a b = elim (Option-cases (name_of raw)) [
  | inl unnamed ↦ ground arith
  | inr (name, is) ↦ ground (
    arith,
    foreign contracts name raw.contract_id a b,
    eq_iff raw.contract_id (emitter contracts name),
  )
]
