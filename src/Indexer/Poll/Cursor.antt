-- ===== src/Indexer/Poll/Cursor.antt =====
-- How far the indexer has got, and where it asks next.
use sterun.Common.{
  ℕ, ◌+◌, ◌≤◌, ◌<◌, true, false, List, [], ◌∷◌, Option, none, some, ◌≡◌, refl, ◌∙◌, length, arith,
  String, Bool, Bool-cases, Option-cases, inl, inr, ◌⊎◌, In, ltb, codes, All,
}
use sterun.Results.Csv.{is_blank}
use sterun.Indexer.Chain.{ChainEventEnvelope}
use sterun.Indexer.Tables.{
  CursorState, Index, greatest, newer_cursor, save_cursor, insert_chain_event,
}
use sterun.Indexer.Apply.{Reader, Hydration, hydrate, apply}
use sterun.Indexer.Poll.{
  PageEvent, EventPage, EventPageRequest, from_cursor, from_ledger, IndexerOptions, request_for,
  ledger_from_cursor, decode_page, Tally, apply_inserted, apply_page, max_ledger, last_ledger_of,
  position, PollResult, commit_page, poll_page,
}
use sterun.Indexer.Poll.Replay.{apply_page-cursor, max_ledger-start}

decode_page-length :
    (events : List PageEvent) (es : List ChainEventEnvelope) (ignored : ℕ)
    → decode_page events ≡ some (es, ignored)
    → length es + ignored ≡ length events
unfolding decode_page
decode_page-length [] es ignored same = ground arith
decode_page-length (e ∷ events) es ignored same = elim (Option-cases e.decoded) [
  | inl fails ↦ ground arith
  | inr (d, ok) ↦ elim (Option-cases (decode_page events)) [
    | inl fails ↦ ground arith
    | inr ((es', ignored'), rest) ↦ ground (arith, decode_page-length events es' ignored' rest)
  ]
]

apply_inserted-tally :
    (p : Index × Bool) (e : ChainEventEnvelope) (h : Hydration) (t : Tally) (r : Index × Tally)
    → apply_inserted p e h t ≡ some r
    → r.1.applied + r.1.duplicates ≡ t.applied + t.duplicates + 1
unfolding apply_inserted
apply_inserted-tally (s, false) e h t r same = ground arith
apply_inserted-tally (s, true) e h t r same = elim (Option-cases (apply s e h)) [
  | inl fails ↦ ground arith
  | inr ((s1, o), done) ↦ ground arith
]

apply_page-tally :
    (s : Index) (es : List ChainEventEnvelope) (h : Hydration) (t : Tally) (r : Index × Tally)
    → apply_page s es h t ≡ some r
    → r.1.applied + r.1.duplicates ≡ t.applied + t.duplicates + length es
unfolding apply_page
apply_page-tally s [] h t r same = ground arith
apply_page-tally s (e ∷ es) h t r same =
    elim (Option-cases (apply_inserted (insert_chain_event s e) e h t)) [
      | inl fails ↦ ground arith
      | inr ((s1, t1), done) ↦ omega (
        arith,
        apply_inserted-tally (insert_chain_event s e) e h t (s1, t1) done,
        apply_page-tally s1 es h t1 r (rw done at same),
      )
    ]

-- The ledger that was saved, 0 before the first poll.
abbrev pub reached : Option CursorState → ℕ
reached none = 0
reached (some c) = c.last_ledger

last_ledger_of-bounds :
    (page : EventPage) (saved : Option CursorState)
    → (let n = (newer_cursor saved (position page saved)).last_ledger in
        (reached saved ≤ n)
        × ((n ≤ reached saved) ⊎ (n ≤ page.latest_ledger))
        × ((l : ℕ) → l ≤ max_ledger 0 page.events → l ≤ page.latest_ledger → l ≤ n))
unfolding newer_cursor last_ledger_of greatest
last_ledger_of-bounds page none = (ground arith, ground arith, λ l seen near. ground arith)
last_ledger_of-bounds page (some old) =
    let start = max_ledger-start old.last_ledger page.events in
    (ground arith, ground arith, λ l seen near. ground arith)

-- The greatest ledger is the start, or that of an event.
max_ledger-attained :
    (n : ℕ) (es : List PageEvent)
    → (max_ledger n es ≤ n) ⊎ ((e : PageEvent) × In e es × (max_ledger n es ≤ e.ledger))
unfolding max_ledger greatest
max_ledger-attained n [] = inl (omega arith)
max_ledger-attained n (e ∷ es) = elim (max_ledger-attained (greatest n e.ledger) es) [
  | inr (d, later, h) ↦ inr (d, inr later, h)
  | inl h ↦ elim (Bool-cases (ltb n e.ledger)) [
    | inl newer ↦ inr (e, inl refl, ground arith)
    | inr older ↦ inl (ground arith)
  ]
]

-- A ledger that the indexer has seen: no later than the one it had reached, that of the page's cursor
-- or that of an event of the page.
abbrev pub IsSeen : Option CursorState → EventPage → ℕ → Type 0
IsSeen saved page l =
    (l ≤ reached saved)
    ⊎ ((n : ℕ) × (ledger_from_cursor page.cursor ≡ some n) × (l ≤ n))
    ⊎ ((e : PageEvent) × In e page.events × (l ≤ e.ledger))

abbrev cursor_ledger : Option ℕ → ℕ
cursor_ledger none = 0
cursor_ledger (some n) = n

last_ledger_of-cases :
    (page : EventPage) (saved : Option CursorState)
    → (let l = (newer_cursor saved (position page saved)).last_ledger in
        (l ≤ reached saved)
        ⊎ (l ≤ max_ledger (reached saved) page.events)
        ⊎ (l ≤ cursor_ledger (ledger_from_cursor page.cursor)))
unfolding newer_cursor last_ledger_of greatest
last_ledger_of-cases page none = elim (ledger_from_cursor page.cursor) [
  | none ↦ ground arith
  | some n ↦ ground arith
]
last_ledger_of-cases page (some old) = ground arith

last_ledger_of-IsSeen :
    (page : EventPage) (saved : Option CursorState)
    → IsSeen saved page (newer_cursor saved (position page saved)).last_ledger
last_ledger_of-IsSeen page saved = elim (last_ledger_of-cases page saved) [
  | inl h ↦ inl h
  | inr (inl h) ↦ elim (max_ledger-attained (reached saved) page.events) [
    | inl k ↦ inl (omega (arith, h, k))
    | inr (d, listed, k) ↦ inr (inr (d, listed, omega (arith, h, k)))
  ]
  | inr (inr h) ↦ elim (Option-cases (ledger_from_cursor page.cursor)) [
    | inl e ↦ inl (ground (arith, h, e))
    | inr (n, e) ↦ inr (inl (n, e, ground (arith, h, e)))
  ]
]

max_ledger-ge : (n : ℕ) (es : List PageEvent) → n ≤ max_ledger n es
unfolding max_ledger greatest
max_ledger-ge n [] = ground arith
max_ledger-ge n (e ∷ es) = ground (arith, max_ledger-ge (greatest n e.ledger) es)

-- What holds of all that is not past the greatest ledger holds of every event.
max_ledger-All :
    (P : PageEvent → Type 0) (n : ℕ) (es : List PageEvent)
    → ((e : PageEvent) → e.ledger ≤ max_ledger n es → P e)
    → All P es
unfolding max_ledger greatest
max_ledger-All P n [] k = tt
max_ledger-All P n (e ∷ es) k = (
  k e (ground (arith, max_ledger-ge (greatest n e.ledger) es)),
  max_ledger-All P (greatest n e.ledger) es k,
)

newer_cursor-position :
    (page : EventPage) (saved : Option CursorState)
    → (newer_cursor saved (position page saved)).cursor ≡ some page.cursor
unfolding newer_cursor
newer_cursor-position page none = refl
newer_cursor-position page (some old) = refl

commit_page-saves :
    (page : EventPage) (es : List ChainEventEnvelope) (ignored : ℕ) (h : Hydration) (s : Index)
    (r : Index × PollResult)
    → commit_page page es ignored h s ≡ some r
    → (r.0.cursor ≡ some (newer_cursor s.cursor (position page s.cursor)))
      × (r.1.tally.applied + r.1.tally.duplicates + r.1.ignored ≡ length es + ignored)
unfolding commit_page save_cursor
commit_page-saves page es ignored h s r same =
    let start : Tally = record { applied = 0; duplicates = 0; orphans = 0 } in
    elim (Option-cases (apply_page s es h start)) [
      | inl fails ↦ ground arith
      | inr ((s1, t1), done) ↦ ground (
        arith,
        apply_page-cursor s es h start (s1, t1) done,
        apply_page-tally s es h start (s1, t1) done,
      )
    ]

-- What a poll that succeeds with a page leaves: the cursor of the page; a last ledger that is at
-- least the one before, is not past the network's unless it was already, is at least that of every
-- event of the page that is not past the network's, and is no later than the one before, the ledger of
-- the page's cursor or that of an event of the page, whichever is the latest; and every event of the page is counted
-- once, as applied, as a duplicate or as ignored.
pub poll_page_progress :
    (reader : Reader) (page : EventPage) (s : Index) (r : Index × PollResult)
    → poll_page reader page s ≡ some r
    → (c : CursorState) × (r.0.cursor ≡ some c)
      × (c.cursor ≡ some page.cursor)
      × (reached s.cursor ≤ c.last_ledger)
      × ((c.last_ledger ≤ reached s.cursor) ⊎ (c.last_ledger ≤ page.latest_ledger))
      × All (λ e. e.ledger ≤ page.latest_ledger → e.ledger ≤ c.last_ledger) page.events
      × IsSeen s.cursor page c.last_ledger
      × (r.1.tally.applied + r.1.tally.duplicates + r.1.ignored ≡ length page.events)
unfolding poll_page
poll_page_progress reader page s r same = elim (Option-cases (decode_page page.events)) [
  | inl fails ↦ ground arith
  | inr ((es, ignored), decoded) ↦ elim (Option-cases (hydrate reader es)) [
    | inl fails ↦ ground arith
    | inr (h, hydrated) ↦
        let (saved, counted) =
          commit_page-saves page es ignored h s r (rw (decoded, hydrated) at same) in
        let (kept, near, far) = last_ledger_of-bounds page s.cursor in
        (
          newer_cursor s.cursor (position page s.cursor),
          saved,
          newer_cursor-position page s.cursor,
          kept,
          near,
          max_ledger-All _ 0 page.events (λ e seen at. far e.ledger seen at),
          last_ledger_of-IsSeen page s.cursor,
          counted ∙ decode_page-length page.events es ignored decoded,
        )
  ]
]

-- No cursor is saved, or an empty one.
abbrev pub HasNoCursor : Option CursorState → Type 0
HasNoCursor none = Unit
HasNoCursor (some old) =
    (old.cursor ≡ none) ⊎ ((c : String) × (old.cursor ≡ some c) × (is_blank (codes c) ≡ true))

-- Where a request may start: at the cursor that is saved, or, with none, at a ledger that is retained,
-- before every retained ledger that follows the last one reached.
abbrev pub Resumes : Option CursorState → (oldest_ledger : ℕ) → EventPageRequest → Type 0
Resumes saved oldest (from_cursor cursor limit) =
    (old : CursorState) × (saved ≡ some old)
    × (old.cursor ≡ some cursor)
    × (is_blank (codes cursor) ≡ false)
Resumes saved oldest (from_ledger start limit) =
    HasNoCursor saved
    × (oldest ≤ start)
    × ((n : ℕ) → oldest ≤ n → 0 < reached saved → reached saved < n → start ≤ n)

-- What is asked of the RPC: the saved cursor where there is one and it is not empty; else a ledger
-- that is not older than those retained, and that skips no retained ledger after the last one reached,
-- where one has been reached.
pub request_for_lem :
    (options : IndexerOptions) (saved : Option CursorState) (oldest : ℕ)
    → Resumes saved oldest (request_for options saved oldest)
unfolding request_for greatest
request_for_lem options none oldest = (tt, ground arith, ground arith)
request_for_lem options (some old) oldest = elim (Option-cases old.cursor) [
  | inl e ↦ rw e (inl refl, ground arith, λ n retained started after. ground arith)
  | inr (c, e) ↦ elim (Bool-cases (is_blank (codes c))) [
    | inl b ↦ rw (e, b) (inr (c, refl, b), ground arith, λ n retained started after. ground arith)
    | inr b ↦ rw (e, b) (record old { cursor = some c }, refl, refl, b)
  ]
]
