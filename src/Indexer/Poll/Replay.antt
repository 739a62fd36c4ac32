-- ===== src/Indexer/Poll/Replay.antt =====
-- A page that is fetched again.
use sterun.Common.{
  ℕ, ◌+◌, true, false, List, [], ◌∷◌, ◌++◌, Option, none, some, any, str_eq, eq_iff, any-concat,
  append-nil, ap, any-append, Bool, ◌≡◌, refl, sym, subst, ◌∙◌, length, arith, Bool-cases,
  Option-cases, inl, inr, All, String,
}
use mathlib.Core.Option.{some-injective}
use sterun.Indexer.Chain.{ChainEventEnvelope, DecodedEvent}
use sterun.Indexer.Tables.{
  Index, greatest, CursorState, newer_cursor, save_cursor, is_logged, insert_chain_event,
  upsert_event, update_event, set_registration_closes, set_event_status, upsert_category,
  update_category, touch_category, raise_category_quota, recount_category, upsert_record,
  apply_record_transition, insert_transition, add_scanner, remove_scanner, link_participants,
}
use sterun.Indexer.Apply.{
  Reader, hydrate, Hydration, apply_created, apply_category, link_vault_row, apply_entered,
  advance_record, advance, apply_event, apply, Applied,
}
use sterun.Indexer.Poll.{
  PageEvent, EventPage, PollResult, max_ledger, last_ledger_of, position, commit_page, decode_page,
  poll_page, Tally, apply_inserted, apply_page,
}

abbrev KeepsLog : Index → Applied → Type 0
KeepsLog s none = Unit
KeepsLog s (some (s', o)) = (s'.chain_events ≡ s.chain_events) × (s'.cursor ≡ s.cursor)

apply_event-KeepsLog :
    (s : Index) (e : ChainEventEnvelope) (h : Hydration) (d : DecodedEvent)
    → KeepsLog s (apply_event s e h d)
unfolding apply_event apply_created apply_category apply_entered advance_record advance
    link_vault_row upsert_event update_event set_registration_closes set_event_status
    upsert_category update_category touch_category raise_category_quota recount_category
    upsert_record apply_record_transition insert_transition add_scanner remove_scanner
    link_participants
apply_event-KeepsLog s e h d = ground arith

apply-log :
    (s s' : Index) (e : ChainEventEnvelope) (h : Hydration) (o : ℕ)
    → apply s e h ≡ some (s', o)
    → (s'.chain_events ≡ s.chain_events) × (s'.cursor ≡ s.cursor)
unfolding apply
apply-log s s' e h o same = subst (KeepsLog s) same (apply_event-KeepsLog s e h e.event)

insert_chain_event-is_logged :
    (s : Index) (e : ChainEventEnvelope)
    → (is_logged (insert_chain_event s e).0 e.id ≡ true)
      × ((j : String) → is_logged s j ≡ true → is_logged (insert_chain_event s e).0 j ≡ true)
unfolding insert_chain_event is_logged
insert_chain_event-is_logged s e = elim (Bool-cases (any (λ x. str_eq x.id e.id) s.chain_events)) [
  | inl old ↦ rw old (old, λ j k. k)
  | inr new ↦
      rw new (
        any-concat _ s.chain_events e ((eq_iff e.id e.id).1 refl),
        λ j k. rw any-append (rw k refl),
      )
]

-- What a page leaves logged: all that was, and its own events.
abbrev pub Logs : List ChainEventEnvelope → Index → Index → Type 0
Logs es s s' =
    ((j : String) → is_logged s j ≡ true → is_logged s' j ≡ true)
    × All (λ e. is_logged s' e.id ≡ true) es

apply_inserted-log :
    (p : Index × Bool) (e : ChainEventEnvelope) (h : Hydration) (t : Tally) (r : Index × Tally)
    → apply_inserted p e h t ≡ some r
    → (p.0.chain_events ≡ r.0.chain_events) × (p.0.cursor ≡ r.0.cursor)
unfolding apply_inserted
apply_inserted-log (s, false) e h t r same = ground arith
apply_inserted-log (s, true) e h t r same = elim (Option-cases (apply s e h)) [
  | inl fails ↦ ground arith
  | inr ((s1, o), done) ↦ ground (arith, apply-log s s1 e h o done)
]

apply_inserted-Logs :
    (s : Index) (e : ChainEventEnvelope) (h : Hydration) (t : Tally) (r : Index × Tally)
    → apply_inserted (insert_chain_event s e) e h t ≡ some r
    → Logs (e ∷ []) s r.0
unfolding is_logged
apply_inserted-Logs s e h t r same =
    let (log, _) = apply_inserted-log (insert_chain_event s e) e h t r same in
    let (here, before) = insert_chain_event-is_logged s e in
    (λ j k. rw (← log) (before j k), (rw (← log) here, tt))

apply_page-Logs :
    (s : Index) (es : List ChainEventEnvelope) (h : Hydration) (t : Tally) (r : Index × Tally)
    → apply_page s es h t ≡ some r
    → Logs es s r.0
unfolding apply_page
apply_page-Logs s [] h t r same = (λ j k. ground arith, tt)
apply_page-Logs s (e ∷ es) h t r same =
    elim (Option-cases (apply_inserted (insert_chain_event s e) e h t)) [
      | inl fails ↦ ground arith
      | inr ((s1, t1), done) ↦
          let (keeps, (logged, _)) = apply_inserted-Logs s e h t (s1, t1) done in
          let (later, logs) = apply_page-Logs s1 es h t1 r (rw done at same) in
          (λ j k. later j (keeps j k), (later e.id logged, logs))
    ]

pub apply_page-known :
    (s : Index) (es fs : List ChainEventEnvelope) (h : Hydration) (t : Tally)
    → All (λ e. is_logged s e.id ≡ true) es
    → apply_page s (es ++ fs) h t
      ≡ apply_page s fs h (record t { duplicates = t.duplicates + length es })
unfolding apply_page apply_inserted insert_chain_event
apply_page-known s [] fs h t k =
    ap (λ d. apply_page s fs h (record t { duplicates = d })) (omega arith)
apply_page-known s (e ∷ es) fs h t (k, ks) = rw k (
    apply_page-known s es fs h (record t { duplicates = t.duplicates + 1 }) ks
    ∙ ap (λ d. apply_page s fs h (record t { duplicates = d })) (omega arith))

insert_chain_event-cursor :
    (s : Index) (e : ChainEventEnvelope) → (insert_chain_event s e).0.cursor ≡ s.cursor
unfolding insert_chain_event
insert_chain_event-cursor s e = ground arith

pub apply_page-cursor :
    (s : Index) (es : List ChainEventEnvelope) (h : Hydration) (t : Tally) (r : Index × Tally)
    → apply_page s es h t ≡ some r
    → r.0.cursor ≡ s.cursor
unfolding apply_page
apply_page-cursor s [] h t r same = ground arith
apply_page-cursor s (e ∷ es) h t r same =
    elim (Option-cases (apply_inserted (insert_chain_event s e) e h t)) [
      | inl fails ↦ ground arith
      | inr ((s1, t1), done) ↦
          let (_, kept) = apply_inserted-log (insert_chain_event s e) e h t (s1, t1) done in
          apply_page-cursor s1 es h t1 r (rw done at same)
          ∙ (sym kept ∙ insert_chain_event-cursor s e)
    ]

pub max_ledger-start :
    (n : ℕ) (es : List PageEvent) → max_ledger n es ≡ greatest n (max_ledger 0 es)
unfolding max_ledger greatest
max_ledger-start n [] = ground arith
max_ledger-start n (e ∷ es) =
    ground
      (arith, max_ledger-start (greatest n e.ledger) es, max_ledger-start (greatest 0 e.ledger) es)

newest :
    (page : EventPage) (saved : Option CursorState) (c : CursorState)
    → c.last_ledger ≡ (newer_cursor saved (position page saved)).last_ledger
    → greatest c.last_ledger (last_ledger_of (some c) page) ≡ c.last_ledger
unfolding newer_cursor last_ledger_of greatest
newest page none c e = ground (arith, max_ledger-start c.last_ledger page.events)
newest page (some old) c e = ground (
  arith,
  max_ledger-start c.last_ledger page.events,
  max_ledger-start old.last_ledger page.events,
)

newer_cursor_again :
    (page : EventPage) (saved : Option CursorState)
    → (let c = newer_cursor saved (position page saved) in
        newer_cursor (some c) (position page (some c)) ≡ c)
unfolding newer_cursor
newer_cursor_again page none =
    ap (λ n. record (position page none) { last_ledger = n })
      (newest page none (position page none) refl)
newer_cursor_again page (some old) =
    ap (λ n. record (position page (some old)) { last_ledger = n })
      (newest page (some old) (newer_cursor (some old) (position page (some old))) refl)

abbrev Again : EventPage → List ChainEventEnvelope → ℕ → Hydration → Index → Type 0
Again page es ignored h s' =
    (again : PollResult) × (commit_page page es ignored h s' ≡ some (s', again))
    × (again.tally.applied ≡ 0)
    × (again.tally.orphans ≡ 0)

known_page-Again :
    (page : EventPage) (es : List ChainEventEnvelope) (ignored : ℕ) (h : Hydration) (s' : Index)
    (c : CursorState)
    → All (λ e. is_logged s' e.id ≡ true) es
    → s'.cursor ≡ some c
    → newer_cursor (some c) (position page (some c)) ≡ c
    → Again page es ignored h s'
unfolding commit_page save_cursor apply_page
known_page-Again page es ignored h s' c logged at same =
    let start : Tally = record { applied = 0; duplicates = 0; orphans = 0 } in
    let known : apply_page s' es h start ≡ some (s', record start { duplicates = 0 + length es }) =
      rw append-nil at (apply_page-known s' es [] h start logged) in
    let saved : save_cursor s' (position page s'.cursor) ≡ s' =
      ap (λ x. record s' { cursor = x }) (rw at (rw same refl)) in
    let again : PollResult = record {
      fetched = length page.events;
      tally = record start { duplicates = 0 + length es };
      ignored = ignored;
      last_ledger = last_ledger_of s'.cursor page;
      page = page;
    } in
    (again, rw known (ap (λ x. some (x, again)) saved), refl, refl)

commit_page-Again :
    (page : EventPage) (es : List ChainEventEnvelope) (ignored : ℕ) (h : Hydration) (s : Index)
    (r : Index × PollResult)
    → commit_page page es ignored h s ≡ some r
    → Again page es ignored h r.0
unfolding commit_page is_logged save_cursor
commit_page-Again page es ignored h s r same =
    let start : Tally = record { applied = 0; duplicates = 0; orphans = 0 } in
    elim (Option-cases (apply_page s es h start)) [
      | inl fails ↦ ground arith
      | inr ((s1, t1), done) ↦
          let (_, logged) = apply_page-Logs s es h start (s1, t1) done in
          let kept = apply_page-cursor s es h start (s1, t1) done in
          let c = newer_cursor s.cursor (position page s.cursor) in
          let s2 = save_cursor s1 (position page s.cursor) in
          let ends : s2 ≡ r.0 =
            ap (λ (x : Index × PollResult). x.0) (some-injective _ _ (rw done at same)) in
          subst (Again page es ignored h) ends (
            known_page-Again page es ignored h s2 c logged (rw kept refl)
              (newer_cursor_again page s.cursor))
    ]

-- When a page has been applied, the same page from the same contracts can be applied again: that
-- counts nothing as applied or orphaned, and every table, the log and the cursor are as they were.
pub poll_page_replay :
    (reader : Reader) (page : EventPage) (s : Index) (r : Index × PollResult)
    → poll_page reader page s ≡ some r
    → (again : PollResult) × (poll_page reader page r.0 ≡ some (r.0, again))
      × (again.tally.applied ≡ 0)
      × (again.tally.orphans ≡ 0)
unfolding poll_page
poll_page_replay reader page s r same = elim (Option-cases (decode_page page.events)) [
  | inl fails ↦ ground arith
  | inr ((es, ignored), decoded) ↦ elim (Option-cases (hydrate reader es)) [
    | inl fails ↦ ground arith
    | inr (h, hydrated) ↦
        rw (decoded, hydrated)
          (commit_page-Again page es ignored h s r (rw (decoded, hydrated) at same))
  ]
]
