-- ===== src/Indexer/Rebuild/Events.antt =====
-- The events that a rebuild writes, and their close dates.
use sterun.Common.{
  ℕ, ◌⊎◌, ◌+◌, ◌≤◌, ◌<◌, zero, suc, List, Option, none, some, ◌≡◌, refl, sym, subst, ◌∙◌, arith,
  Bool-cases, inl, inr, nat-Eq, pair-Eq, get, put, get-put, get-put_self, length, length-put_new,
  length-put_old, ◌==◌, false,
}
use mathlib.Core.Option.{some-injective}
use sterun.Indexer.Chain.{ChainEvent}
use sterun.Indexer.Tables.{
  Provenance, greatest, EventRow, Index, upsert_event, update_event, set_registration_closes,
}
use sterun.Indexer.Apply.{Reader}
use sterun.Indexer.Rebuild.{
  read_range, WalkedEvent, walk_event, write_events, write_close_date, write_close_dates,
}
use sterun.Indexer.Rebuild.Ranges.{read_range-nil, read_range-cons, AnswersById, walk_event-Walked}

-- The row of an event holds what the contract answered, and the close date.
pub record Holds (s : Index) (j : ℕ) (e : ChainEvent) (closes_at : Option ℕ) : Type 0 where
  pub row : EventRow
  pub indexed : get s.events j ≡ some row
  pub organiser : row.organiser ≡ e.organiser
  pub status : row.status ≡ e.status
  pub name : row.name ≡ e.name
  pub starts_at : row.starts_at ≡ e.starts_at
  pub closing : row.registration_closes_at ≡ closes_at

pub Holds-get :
    (s s' : Index) (j : ℕ) (e : ChainEvent) (c : Option ℕ)
    → get s'.events j ≡ get s.events j
    → Holds s j e c
    → Holds s' j e c
Holds-get s s' j e c same h = record {
  row = h.row;
  indexed = same ∙ h.indexed;
  organiser = h.organiser;
  status = h.status;
  name = h.name;
  starts_at = h.starts_at;
  closing = h.closing;
}

-- Of the events' table, `n` rows from `i` on have been written, and `more` of them are new.
pub record EventsWritten (reader : Reader) (closes : WalkedEvent → Option ℕ) (i n more : ℕ)
    (s s' : Index) : Type 0 where
  pub categories : s'.categories ≡ s.categories
  pub records : s'.records ≡ s.records
  pub size : length s'.events ≡ length s.events + more
  pub kept : (j : ℕ) → (j < i) ⊎ (i + n ≤ j) → get s'.events j ≡ get s.events j
  pub holds :
      (j : ℕ) (w : WalkedEvent)
      → i ≤ j
      → j < i + n
      → walk_event reader j ≡ some w
      → Holds s' j w.event (closes w)

module _ (reader : Reader) where
  nothing-EventsWritten :
      (closes : WalkedEvent → Option ℕ) (i : ℕ) (s : Index) → EventsWritten reader closes i 0 0 s s
  nothing-EventsWritten closes i s = record {
    categories = refl;
    records = refl;
    size = omega arith;
    kept = λ j out. refl;
    holds = λ j w from below walk. ground arith;
  }

  EventsWritten-next :
      (closes : WalkedEvent → Option ℕ) (i n a b : ℕ) (s s1 s' : Index)
      → EventsWritten reader closes i 1 a s s1
      → EventsWritten reader closes (suc i) n b s1 s'
      → EventsWritten reader closes i (suc n) (a + b) s s'
  EventsWritten-next closes i n a b s s1 s' here later = record {
    categories = later.categories ∙ here.categories;
    records = later.records ∙ here.records;
    size = omega (arith, here.size, later.size);
    kept = λ j out. later.kept j (ground arith) ∙ here.kept j (ground arith);
    holds = λ j w from below walk. elim (Bool-cases (i == j)) [
      | inl same ↦
          Holds-get s1 s' j w.event (closes w) (later.kept j (ground arith))
            (here.holds j w from (ground arith) walk)
      | inr other ↦ later.holds j w (ground arith) (omega arith) walk
    ];
  }

  -- A row that holds what was walked is what `holds` asks of its number.
  held :
      (closes : WalkedEvent → Option ℕ) (i : ℕ) (w : WalkedEvent) (s : Index)
      → walk_event reader i ≡ some w
      → Holds s i w.event (closes w)
      → (j : ℕ) (x : WalkedEvent) → i ≤ j
      → j < i + 1
      → walk_event reader j ≡ some x
      → Holds s j x.event (closes x)
  held closes i w s walk h j x from below walk' =
      let here : i ≡ j = omega arith in
      let same =
        some-injective _ _
          (sym walk ∙ subst (λ t. walk_event reader t ≡ some x) (sym here) walk') in
      subst (λ t. Holds s t x.event (closes x)) here
        (subst (λ y. Holds s i y.event (closes y)) same h)

  upsert_event-Holds :
      (at : Provenance) (e : ChainEvent) (s : Index)
      → get s.events e.event_id ≡ none
      → Holds (upsert_event s e at) e.event_id e none
  unfolding upsert_event
  upsert_event-Holds at e s fresh = record {
    row = _;
    indexed = get-put_self s.events e.event_id _;
    organiser = refl;
    status = refl;
    name = refl;
    starts_at = refl;
    closing = rw fresh refl;
  }

  upsert_event-EventsWritten :
      (at : Provenance) (w : WalkedEvent) (s : Index)
      → walk_event reader w.event.event_id ≡ some w
      → get s.events w.event.event_id ≡ none
      → EventsWritten reader (λ x. none) w.event.event_id 1 1 s (upsert_event s w.event at)
  unfolding upsert_event
  upsert_event-EventsWritten at w s walk fresh = record {
    categories = refl;
    records = refl;
    size = length-put_new s.events w.event.event_id _ fresh ∙ omega arith;
    kept = λ j out.
        let other : (w.event.event_id == j) ≡ false = ground arith in
        get-put s.events w.event.event_id _ j ∙ rw other refl;
    holds =
        held (λ x. none) w.event.event_id w (upsert_event s w.event at) walk
          (upsert_event-Holds at w.event s fresh);
  }

  pub write_events-EventsWritten :
      (own : AnswersById reader) (at : Provenance) (i n : ℕ) (ws : List WalkedEvent) (s : Index)
      → read_range (walk_event reader) i n ≡ some ws
      → ((j : ℕ) → i ≤ j → get s.events j ≡ none)
      → EventsWritten reader (λ x. none) i n n s (write_events s ws at)
  unfolding write_events
  write_events-EventsWritten own at i zero ws s read fresh =
      subst (λ xs. EventsWritten reader (λ x. none) i 0 0 s (write_events s xs at))
        (sym (read_range-nil _ i ws read)) (nothing-EventsWritten (λ x. none) i s)
  write_events-EventsWritten own at i (suc n) ws s read fresh =
      let (w, rest, now, later, e) = read_range-cons (walk_event reader) i n ws read in
      let key = own.event i w.event (walk_event-Walked reader i w now).answered in
      let s1 = upsert_event s w.event at in
      let here =
        subst (λ t. EventsWritten reader (λ x. none) t 1 1 s s1) key
          (upsert_event-EventsWritten at w s
            (subst (λ t. walk_event reader t ≡ some w) (sym key) now)
            (subst (λ t. get s.events t ≡ none) (sym key) (fresh i (omega arith)))) in
      subst (λ xs. EventsWritten reader (λ x. none) i (suc n) (suc n) s (write_events s xs at))
        (sym e)
        (subst (λ k. EventsWritten reader (λ x. none) i (suc n) k s (write_events s1 rest at))
          (omega arith)
          (EventsWritten-next (λ x. none) i n 1 n s s1 _ here
            (write_events-EventsWritten own at (suc i) n rest s1 later
              (λ j from. here.kept j (ground arith) ∙ fresh j (omega arith)))))

  write_close_date-EventsWritten :
      (at : Provenance) (i : ℕ) (w : WalkedEvent) (c : Option ℕ) (s : Index)
      → walk_event reader i ≡ some w
      → c ≡ w.closes_at
      → Holds s i w.event none
      → EventsWritten reader (λ x. x.closes_at) i 1 0 s (write_close_date s i c at)
  unfolding write_close_date set_registration_closes update_event
  write_close_date-EventsWritten at i w none s walk same h = record {
    categories = refl;
    records = refl;
    size = omega arith;
    kept = λ j out. refl;
    holds = held (λ x. x.closes_at) i w s walk (subst (Holds s i w.event) same h);
  }
  write_close_date-EventsWritten at i w (some t) s walk same h =
      let dated : EventRow = record h.row {
        source = at.source;
        last_ledger = greatest h.row.last_ledger at.ledger;
        registration_closes_at = some t;
      } in
      rw (h.indexed, write_close_date, set_registration_closes, update_event)
        (record {
          categories = refl;
          records = refl;
          size = length-put_old s.events i dated h.row h.indexed ∙ omega arith;
          kept = λ j out.
              let other : (i == j) ≡ false = ground arith in
              get-put s.events i dated j ∙ rw other refl;
          holds =
              held (λ x. x.closes_at) i w (record s { events = put s.events i dated }) walk
                (record {
                  row = dated;
                  indexed = get-put_self s.events i dated;
                  organiser = h.organiser;
                  status = h.status;
                  name = h.name;
                  starts_at = h.starts_at;
                  closing = same;
                });
        })

  pub write_close_dates-EventsWritten :
      (at : Provenance) (i n : ℕ) (ws : List WalkedEvent) (s : Index)
      → read_range (walk_event reader) i n ≡ some ws
      → ((j : ℕ) (w : WalkedEvent)
          → i ≤ j
          → j < i + n
          → walk_event reader j ≡ some w
          → Holds s j w.event none)
      → EventsWritten reader (λ x. x.closes_at) i n 0 s (write_close_dates s i ws at)
  unfolding write_close_dates
  write_close_dates-EventsWritten at i zero ws s read written =
      subst (λ xs. EventsWritten reader (λ x. x.closes_at) i 0 0 s (write_close_dates s i xs at))
        (sym (read_range-nil _ i ws read)) (nothing-EventsWritten (λ x. x.closes_at) i s)
  write_close_dates-EventsWritten at i (suc n) ws s read written =
      let (w, rest, now, later, e) = read_range-cons (walk_event reader) i n ws read in
      let s1 = write_close_date s i w.closes_at at in
      let here =
        write_close_date-EventsWritten at i w w.closes_at s now refl
          (written i w (omega arith) (omega arith) now) in
      subst
        (λ xs. EventsWritten reader (λ x. x.closes_at) i (suc n) 0 s (write_close_dates s i xs at))
        (sym e)
        (EventsWritten-next (λ x. x.closes_at) i n 0 0 s s1 _ here
          (write_close_dates-EventsWritten at (suc i) n rest s1 later (λ j x from below walk.
            Holds-get s s1 j x.event none (here.kept j (ground arith))
              (written j x (omega arith) (omega arith) walk))))
