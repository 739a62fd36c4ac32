-- ===== src/Indexer/Poll.antt =====
-- be/src/indexer/indexer.ts and source.ts: one poll. The RPC's answers are a parameter: an event of a
-- page is its ledger and what decoding it gives, `none` where that throws, as `page_event` makes it. A
-- poll that throws leaves the tables as they were, by ROLLBACK.
pub mod Replay
pub mod Cursor
use sterun.Common.{
  ◌>>=◌, ℕ, ◌+◌, ◌/◌, ◌^◌, zero, String, Text, codes, Bool, true, false, not, ◌&&◌, List, [], ◌∷◌,
  ◌++◌, Option, none, some, ltb, ◌==◌, if◌then◌else◌, map, length,
}
use sterun.Results.Csv.{is_blank, if_safe, digits, number}
use sterun.Indexer.Chain.{ChainEventEnvelope}
use sterun.Indexer.Decode.{RawChainEvent, KnownContracts, decode_chain_event}
use sterun.Indexer.Tables.{CursorState, Index, greatest, save_cursor, insert_chain_event}
use sterun.Indexer.Apply.{Reader, Hydration, hydrate, apply}

abbrev pub default_page_limit : ℕ
default_page_limit = 200

-- An event of a page: `decoded` is none where decoding throws, `some none` for one that is not ours.
pub record PageEvent : Type 0 where
  pub ledger : ℕ
  pub decoded : Option (Option ChainEventEnvelope)

pub record EventPage : Type 0 where
  pub events : List PageEvent
  pub cursor : String
  pub latest_ledger : ℕ
  pub oldest_ledger : ℕ

pub data EventPageRequest : Type 0 where
  from_cursor : String → (limit : ℕ) → EventPageRequest
  from_ledger : (start_ledger limit : ℕ) → EventPageRequest

pub record RpcHealth : Type 0 where
  pub latest_ledger : ℕ
  pub oldest_ledger : ℕ

pub record EventSource : Type 0 where
  pub health : Option RpcHealth
  pub get_events : EventPageRequest → Option EventPage

pub record IndexerOptions : Type 0 where
  pub page_limit : Option ℕ
  pub start_ledger : Option ℕ

-- `cursor.split("-")[0]`.
unfoldable pub before_dash : Text → Text
before_dash [] = []
before_dash (c ∷ s) = if c == 0x2d then [] else c ∷ before_dash s

unfoldable pub ledger_from_cursor : String → Option ℕ
ledger_from_cursor cursor =
    let (toid, rest) = digits (before_dash (codes cursor)) in
    if not (is_blank toid) && is_blank rest
    then (do ledger ← if_safe (number toid / 2 ^ 32); if ltb 0 ledger then some ledger else none)
    else none

unfoldable pub request_for :
    IndexerOptions → Option CursorState → (oldest_ledger : ℕ) → EventPageRequest
request_for options saved oldest_ledger =
    let limit : ℕ = elim options.page_limit [ none ↦ default_page_limit | some n ↦ n ] in
    let first : ℕ = elim options.start_ledger [ none ↦ oldest_ledger | some n ↦ n ] in
    elim saved [
      | none ↦ from_ledger (greatest first oldest_ledger) limit
      | some old ↦
          let wanted = if old.last_ledger == 0 then first else old.last_ledger + 1 in
          let start : EventPageRequest = from_ledger (greatest wanted oldest_ledger) limit in
          elim old.cursor [
            | none ↦ start
            | some cursor ↦ if is_blank (codes cursor) then start else from_cursor cursor limit
          ]
    ]

-- An event of the RPC, decoded where the poll does it.
unfoldable pub page_event : KnownContracts → RawChainEvent → PageEvent
page_event contracts raw = record {
  ledger = raw.ledger;
  decoded = decode_chain_event contracts raw;
}

-- The envelopes, and how many events are not ours.
unfoldable pub decode_page : List PageEvent → Option (List ChainEventEnvelope × ℕ)
decode_page [] = some ([], 0)
decode_page (raw ∷ rest) = do
  decoded ← raw.decoded
  (envelopes, ignored) ← decode_page rest
  some (elim decoded [
    | none ↦ (envelopes, ignored + 1)
    | some envelope ↦ (envelope ∷ envelopes, ignored)
  ])

pub record Tally : Type 0 where
  pub applied : ℕ
  pub duplicates : ℕ
  pub orphans : ℕ

unfoldable pub apply_inserted :
    Index × Bool → ChainEventEnvelope → Hydration → Tally → Option (Index × Tally)
apply_inserted (s, false) envelope h t = some (s, record t { duplicates = t.duplicates + 1 })
apply_inserted (s, true) envelope h t = do
  (s', orphan) ← apply s envelope h
  some (s', record t { applied = t.applied + 1; orphans = t.orphans + orphan })

unfoldable pub apply_page :
    Index → List ChainEventEnvelope → Hydration → Tally → Option (Index × Tally)
apply_page s [] h t = some (s, t)
apply_page s (e ∷ rest) h t = do
  (s', t') ← apply_inserted (insert_chain_event s e) e h t
  apply_page s' rest h t'

unfoldable pub max_ledger : ℕ → List PageEvent → ℕ
max_ledger n [] = n
max_ledger n (e ∷ rest) = max_ledger (greatest n e.ledger) rest

unfoldable pub last_ledger_of : Option CursorState → EventPage → ℕ
last_ledger_of saved page =
    let start : ℕ = elim saved [ none ↦ 0 | some old ↦ old.last_ledger ] in
    let at_cursor : ℕ = elim (ledger_from_cursor page.cursor) [ none ↦ 0 | some n ↦ n ] in
    let seen = greatest (max_ledger start page.events) at_cursor in
    if ltb page.latest_ledger seen then page.latest_ledger else seen

pub record PollResult : Type 0 where
  pub fetched : ℕ
  pub tally : Tally
  pub ignored : ℕ
  pub last_ledger : ℕ
  pub page : EventPage

-- Where the cursor is set after a page.
abbrev pub position : EventPage → Option CursorState → CursorState
position page saved = record {
  cursor = some page.cursor;
  last_ledger = last_ledger_of saved page;
  oldest_ledger = some page.oldest_ledger;
}

-- The transaction: the events, then the cursor.
unfoldable pub commit_page :
    EventPage
    → List ChainEventEnvelope
    → (ignored : ℕ) → Hydration
    → Index
    → Option (Index × PollResult)
commit_page page envelopes ignored hydration s = do
  (s', tally) ←
      apply_page s envelopes hydration (record { applied = 0; duplicates = 0; orphans = 0 })
  some (
    save_cursor s' (position page s.cursor),
    record {
      fetched = length page.events;
      tally = tally;
      ignored = ignored;
      last_ledger = last_ledger_of s.cursor page;
      page = page;
    },
  )

unfoldable pub poll_page : Reader → EventPage → Index → Option (Index × PollResult)
poll_page reader page s = do
  (envelopes, ignored) ← decode_page page.events
  hydration ← hydrate reader envelopes
  commit_page page envelopes ignored hydration s

unfoldable pub poll_once :
    IndexerOptions → EventSource → Reader → Index → Option (Index × PollResult)
poll_once options source reader s = do
  health ← source.health
  page ← source.get_events (request_for options s.cursor health.oldest_ledger)
  poll_page reader page s
