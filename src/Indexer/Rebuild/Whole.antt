-- ===== src/Indexer/Rebuild/Whole.antt =====
-- The index after a rebuild.
use sterun.Common.{
  ℕ, String, ◌+◌, ◌≤◌, ◌<◌, true, List, [], ◌∷◌, Option, none, some, ◌≡◌, refl, sym, subst, ◌∙◌, ap,
  arith, Option-cases, inl, inr, Dict, nat-Eq, pair-Eq, get, length,
}
use mathlib.Core.Option.{some-injective}
use sterun.Indexer.Chain.{ChainEventEnvelope}
use sterun.Indexer.Tables.{
  CursorState, from_state, Provenance, EventRow, CategoryRow, RecordRow, Index, greatest,
  newer_cursor, save_cursor, add_scanner, clear_materialised_tables, link_participants,
}
use sterun.Indexer.Apply.{Reader}
use sterun.Indexer.Rebuild.{
  read_range, WalkedEvent, walk_event, WalkedRecord, walk_record, list_scanner_candidates,
  still_allowed, write_events, write_close_dates, write_categories, write_scanners, write_records,
  restore_transition_provenance, rebuilt, settled, RebuildResult, rebuild,
}
use sterun.Indexer.Rebuild.Ranges.{read_range_at, AnswersById, walk_event-Walked}
use sterun.Indexer.Rebuild.Records.{SameTables, write_records-RecordsWritten, RecordAgrees-get}
use sterun.Indexer.Rebuild.Events.{
  EventsWritten, write_events-EventsWritten, write_close_dates-EventsWritten,
}
use sterun.Indexer.Rebuild.Categories.{
  CategoriesWritten, write_categories-CategoriesWritten, CategoryAgrees-get,
}
use sterun.Indexer.Doctor.{DoctorReport, doctor}
use sterun.Indexer.Doctor.Agreement.{EventAgrees, Agrees}
use sterun.Indexer.Doctor.Sound.{doctor_iff}

write_scanners-SameTables :
    (s : Index) (d : Dict (ℕ × String) ℕ) → SameTables s (write_scanners s d)
unfolding write_scanners add_scanner
write_scanners-SameTables s [] = record { events = refl; categories = refl; records = refl }
write_scanners-SameTables s ((k, l) ∷ d) =
    let later = write_scanners-SameTables (add_scanner s k.0 k.1 l) d in
    record { events = later.events; categories = later.categories; records = later.records }

Agrees-SameTables :
    (reader : Reader) (s s' : Index) → SameTables s s' → Agrees reader s → Agrees reader s'
Agrees-SameTables reader s s' same a = record {
  event_count = rw same.events a.event_count;
  total_supply = rw same.records a.total_supply;
  events = λ i below.
      let e = a.events i (rw same.events at below) in
      record {
        on_chain = e.on_chain;
        row = e.row;
        closes_at = e.closes_at;
        count = e.count;
        answered = e.answered;
        closes = e.closes;
        counted = e.counted;
        indexed = rw same.events e.indexed;
        organiser = e.organiser;
        status = e.status;
        name = e.name;
        starts_at = e.starts_at;
        registration_closes_at = e.registration_closes_at;
        categories = λ c under.
            CategoryAgrees-get reader s s' i c (rw same.categories refl) (e.categories c under);
      };
  records = λ t below.
      RecordAgrees-get reader s s' t (rw same.records refl)
        (a.records t (rw same.records at below));
}

EventAgrees-written :
    (reader : Reader) (n : ℕ) (events : List WalkedEvent) (s1 s2 s3 s5 : Index)
    → read_range (walk_event reader) 0 n ≡ some events
    → EventsWritten reader (λ x. x.closes_at) 0 n 0 s1 s2
    → CategoriesWritten reader 0 n s2 s3
    → s5.events ≡ s2.events
    → s5.categories ≡ s3.categories
    → (i : ℕ) → i < n
    → EventAgrees reader s5 i
EventAgrees-written reader n events s1 s2 s3 s5 walked e2 c3 to_events to_categories i below =
    let (w, walk) =
      read_range_at (walk_event reader) 0 n events i walked (omega arith) (omega arith) in
    let here = walk_event-Walked reader i w walk in
    let h = e2.holds i w (omega arith) (omega arith) walk in
    record {
      on_chain = w.event;
      row = h.row;
      closes_at = w.closes_at;
      count = here.count;
      answered = here.answered;
      closes = here.closes;
      counted = here.counted;
      indexed = ap (λ (d : Dict ℕ EventRow). get d i) to_events ∙ h.indexed;
      organiser = h.organiser;
      status = h.status;
      name = h.name;
      starts_at = h.starts_at;
      registration_closes_at = h.closing;
      categories = λ c under.
          CategoryAgrees-get reader s3 s5 i c
            (ap (λ (d : Dict (ℕ × ℕ) CategoryRow). get d (i, c)) to_categories)
            (c3.agrees i c here.count (omega arith) (omega arith) here.counted under);
    }

rebuilt-Agrees :
    (reader : Reader) (own : AnswersById reader) (s : Index) (ledger n m : ℕ)
    (events : List WalkedEvent) (scanners : Dict (ℕ × String) ℕ) (records : List WalkedRecord)
    → reader.event_count ≡ some n
    → reader.total_supply ≡ some m
    → read_range (walk_event reader) 0 n ≡ some events
    → read_range (walk_record reader) 0 m ≡ some records
    → Agrees reader (rebuilt s ledger events scanners records)
unfolding rebuilt clear_materialised_tables get
rebuilt-Agrees reader own s ledger n m events scanners records en em walked recorded =
    let at : Provenance = record { source = from_state; ledger = ledger } in
    let s0 = clear_materialised_tables s in
    let s1 = write_events s0 events at in
    let s2 = write_close_dates s1 0 events at in
    let s3 = write_categories s2 events at in
    let s4 = write_scanners s3 scanners in
    let s5 = write_records s4 records at in
    let e1 = write_events-EventsWritten reader own at 0 n events s0 walked (λ j from. refl) in
    let e2 =
      write_close_dates-EventsWritten reader at 0 n events s1 walked
        (λ j w from below walk. e1.holds j w from below walk) in
    let c3 =
      write_categories-CategoriesWritten reader own at 0 n events s2 walked
        (λ a b from. rw (e2.categories ∙ e1.categories) refl) in
    let k4 = write_scanners-SameTables s3 scanners in
    let r5 =
      write_records-RecordsWritten reader own at 0 m records s4 recorded
        (λ j from. rw (k4.records ∙ (c3.records ∙ (e2.records ∙ e1.records))) refl) in
    let to_events = r5.events ∙ (k4.events ∙ c3.events) in
    let to_categories = r5.categories ∙ k4.categories in
    let size_events : length s5.events ≡ n = rw to_events (omega (arith, e1.size, e2.size)) in
    let size_records : length s5.records ≡ m =
      r5.size
      ∙ ap (λ (d : Dict ℕ RecordRow). length d + m)
          (k4.records ∙ (c3.records ∙ (e2.records ∙ e1.records)))
      ∙ omega arith in
    record {
      event_count = en ∙ ap some (sym size_events);
      total_supply = em ∙ ap some (sym size_records);
      events = λ i below.
          EventAgrees-written reader n events s1 s2 s3 s5 walked e2 c3 to_events to_categories i
            (omega (arith, size_events));
      records = λ t below. r5.agrees t (omega arith) (omega (arith, size_records));
    }

link_participants-SameTables :
    (s : Index) (only : Option ℕ) (tx : Option String) (s' : Index)
    → link_participants s only tx ≡ some s'
    → SameTables s s'
unfolding link_participants
link_participants-SameTables s only tx s' e = ground arith

-- `doctor` reports that the index is ok; the cursor is cleared, the last ledger at least `latest_ledger`.
abbrev pub IsRebuilt : Reader → ℕ → Index → Type 0
IsRebuilt reader latest_ledger s =
    ((report : DoctorReport) × (doctor reader s ≡ some report) × (report.ok ≡ true))
    × ((c : CursorState) × (s.cursor ≡ some c)
        × (c.cursor ≡ none)
        × (latest_ledger ≤ c.last_ledger))

newer_cursor-cleared :
    (saved : Option CursorState) (u : CursorState)
    → ((newer_cursor saved u).cursor ≡ u.cursor)
      × (u.last_ledger ≤ (newer_cursor saved u).last_ledger)
unfolding newer_cursor greatest
newer_cursor-cleared none u = (refl, omega arith)
newer_cursor-cleared (some old) u = (refl, ground arith)

settled-IsRebuilt :
    (reader : Reader) (race_record : String) (ledger : ℕ) (linked : Index)
    → Agrees reader linked
    → IsRebuilt reader ledger (settled race_record ledger linked)
unfolding settled save_cursor restore_transition_provenance
settled-IsRebuilt reader race_record ledger linked a =
    let update : CursorState = record {
      cursor = none;
      last_ledger = ledger;
      oldest_ledger = none;
    } in
    let (cleared, far) = newer_cursor-cleared linked.cursor update in
    (
      (doctor_iff reader (settled race_record ledger linked)).1 (
          Agrees-SameTables reader linked _
            (record { events = refl; categories = refl; records = refl }) a),
      (newer_cursor linked.cursor update, refl, cleared, far),
    )

-- A rebuild that succeeds, from contracts that answer each id with its own, leaves an index of which
-- `doctor` reports, from the same contracts, that it is ok. Its cursor is cleared, and its last ledger
-- is at least the network's at the start.
pub rebuild-doctor :
    (in_order : List ChainEventEnvelope → List ChainEventEnvelope) (race_record : String)
    (latest_ledger : ℕ) (reader : Reader) (s : Index) (r : Index × RebuildResult)
    → AnswersById reader
    → rebuild in_order race_record latest_ledger reader s ≡ some r
    → IsRebuilt reader latest_ledger r.0
unfolding rebuild
rebuild-doctor in_order race_record ledger reader s r own done =
    elim (Option-cases reader.event_count) [
      | inl fails ↦ ground arith
      | inr (n, e1) ↦ elim (Option-cases (read_range (walk_event reader) 0 n)) [
        | inl fails ↦ ground arith
        | inr (events, e2) ↦ elim (Option-cases reader.total_supply) [
          | inl fails ↦ ground arith
          | inr (m, e3) ↦ elim (Option-cases (read_range (walk_record reader) 0 m)) [
            | inl fails ↦ ground arith
            | inr (records, e4) ↦
                elim (Option-cases (still_allowed reader (list_scanner_candidates in_order s))) [
                  | inl fails ↦ ground arith
                  | inr (scanners, e5) ↦
                      elim (Option-cases
                        (link_participants (rebuilt s ledger events scanners records) none none)) [
                          | inl fails ↦ ground arith
                          | inr (linked, e6) ↦
                              let kept =
                                Agrees-SameTables reader _ linked
                                  (link_participants-SameTables _ none none linked e6)
                                  (rebuilt-Agrees reader own s ledger n m events scanners records e1
                                    e3 e2 e4) in
                              subst (IsRebuilt reader ledger)
                                (ap (λ (x : Index × RebuildResult). x.0)
                                  (some-injective _ _ (simp (e1, e2, e3, e4, e5, e6) at done)))
                                (settled-IsRebuilt reader race_record ledger linked kept)
                        ]
                ]
          ]
        ]
      ]
    ]
