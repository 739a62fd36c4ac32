-- ===== src/Indexer/Tables/Links.antt =====
-- be/src/indexer/store.ts: linking the vault's rows to the records.
use sterun.Common.{
  ℕ, String, Bool, true, false, not, ◌&&◌, List, [], ◌∷◌, Option, none, some, ◌==◌, ltb, str_eq,
  if◌then◌else◌, find?, map, nat-Eq, string-Eq, pair-Eq, values,
}
use sterun.Indexer.Chain.{state-Eq, record_entered, ChainEventEnvelope}
use sterun.Indexer.Tables.Rows.{RecordRow, Participant, Index, coalesce}

unfoldable pub is_linked : List Participant → ℕ → Bool
is_linked [] token_id = false
is_linked (p ∷ rest) token_id = elim p.token_id [
  | none ↦ is_linked rest token_id
  | some t ↦ if t == token_id then true else is_linked rest token_id
]

unfoldable pub links_to : List Participant → Option ℕ → Participant → RecordRow → Bool
links_to before only p r =
    elim only [ none ↦ true | some t ↦ r.token_id == t ]
    && (str_eq p.participant_hash r.participant_hash
        && (str_eq p.runner_address r.runner_address
            && (p.event_id == r.event_id
                && (p.category_id == r.category_id && not (is_linked before r.token_id)))))

-- The transaction of the earliest `record_entered` of a token.
unfoldable pub enters : ℕ → ChainEventEnvelope → Bool
enters token_id e = elim e.event [
  | record_entered runner event_id bib_no t ↦ t == token_id
  | _ ↦ false
]

unfoldable pub earliest_enter :
    Option ChainEventEnvelope → ℕ → List ChainEventEnvelope → Option ChainEventEnvelope
earliest_enter best token_id [] = best
earliest_enter best token_id (e ∷ rest) =
    let take = earliest_enter (some e) token_id rest in
    let keep = earliest_enter best token_id rest in
    if enters token_id e
    then elim best [ none ↦ take | some b ↦ if ltb e.ledger b.ledger then take else keep ]
    else keep

unfoldable pub link_one :
    Index → List Participant → Option ℕ → Option String → Participant → Participant
link_one s before only tx p = elim p.token_id [
  | some t ↦ p
  | none ↦ elim (find? (links_to before only p) (values s.records)) [
    | none ↦ p
    | some r ↦ record p {
      token_id = some r.token_id;
      enter_tx_hash = coalesce tx (elim (earliest_enter none r.token_id s.chain_events) [
        | none ↦ none
        | some e ↦ some e.tx_hash
      ]);
    }
  ]
]

-- No two rows have the same token, as the unique index has it.
unfoldable pub tokens_unique : List Participant → Bool
tokens_unique [] = true
tokens_unique (p ∷ rest) =
    elim p.token_id [ none ↦ true | some t ↦ not (is_linked rest t) ] && tokens_unique rest

-- None where the unique index refuses the statement.
unfoldable pub link_participants : Index → Option ℕ → Option String → Option Index
link_participants s only tx =
    let linked = map (link_one s s.participants only tx) s.participants in
    if tokens_unique linked then some (record s { participants = linked }) else none
