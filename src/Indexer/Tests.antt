-- ===== src/Indexer/Tests.antt =====
-- The indexer over two short pages.
use sterun.Common.{
  ◌+◌, ◌≤◌, true, List, Option, none, some, string-Eq, nat-Eq, pair-Eq, get, put, ◌≡◌, refl, ◌↔◌,
  arith, inr, length, All, ◌⊎◌,
}
use sterun.Results.Csv.{digits, number, number_from, if_safe}
use sterun.Indexer.Chain.{event_created, ChainEventEnvelope}
use sterun.Indexer.Tables.{
  clear_materialised_tables, CursorState, Index, greatest, newer_cursor, save_cursor, is_logged,
  insert_chain_event, upsert_event, upsert_category, update_category, count_records,
  recount_category, upsert_record, insert_transition, link_participants, tokens_unique,
}
use sterun.Indexer.Apply.{
  hydrate, read_each, want_events, want_categories, want_records, event_is_indexed, apply_created,
  apply_category, link_vault_row, apply_entered, apply_event, apply,
}
use sterun.Indexer.Poll.{
  IndexerOptions, from_ledger, request_for, before_dash, ledger_from_cursor, decode_page,
  apply_inserted, apply_page, max_ledger, last_ledger_of, commit_page, poll_page, PollResult,
}
use sterun.Indexer.Poll.Replay.{poll_page_replay}
use sterun.Indexer.Poll.Cursor.{IsSeen, reached, poll_page_progress, Resumes, request_for_lem}
use sterun.Indexer.Counts.{IsCounted}
use sterun.Indexer.Counts.Pages.{IsFaithful, Orderly, poll_page-IsCounted}
use sterun.Indexer.Doctor.{DoctorReport, doctor}
use sterun.Indexer.Doctor.Agreement.{Agrees}
use sterun.Indexer.Doctor.Sound.{doctor_iff}
use sterun.Indexer.Samples.{
  small_reader, empty, sample_reader, envelope, sample_envelopes, sample_page, sample_hydration,
  home,
}
use sterun.Indexer.Rebuild.{
  read_range, walk_event, walk_record, replay_scanners, table_scanners, list_scanner_candidates,
  still_allowed, write_events, write_close_date, write_close_dates, upsert_categories,
  write_categories, write_scanners, write_steps, write_records, result_step,
  reconstruct_transitions, rebuilt, RebuildResult, rebuild,
}
use sterun.Indexer.Rebuild.Ranges.{AnswersById}
use sterun.Indexer.Rebuild.Whole.{IsRebuilt, rebuild-doctor}

abbrev result_of : Option (Index × PollResult) → Index × PollResult
result_of (some r) = r
result_of none = (
  empty,
  record {
    fetched = 0;
    tally = record { applied = 0; duplicates = 0; orphans = 0 };
    ignored = 0;
    last_ledger = 0;
    page = sample_page;
  },
)

abbrev first_poll : Index × PollResult
first_poll = result_of (poll_page sample_reader sample_page empty)

first_polled : poll_page sample_reader sample_page empty ≡ some first_poll
unfolding poll_page commit_page decode_page hydrate read_each want_events want_categories
    want_records apply_page apply_inserted insert_chain_event is_logged apply apply_event
    apply_created apply_category event_is_indexed apply_entered upsert_event upsert_category
    update_category upsert_record insert_transition recount_category link_vault_row
    link_participants tokens_unique get put
first_polled = refl

counts_one :
    (first_poll.1.tally.applied ≡ 3)
    × (first_poll.1.last_ledger ≡ 13)
    × (first_poll.0.cursor
        ≡ some (record { cursor = some "55834574848-1"; last_ledger = 13; oldest_ledger = some 5 }))
unfolding poll_page commit_page decode_page hydrate read_each want_events want_categories
    want_records apply_page apply_inserted insert_chain_event is_logged apply apply_event
    apply_created apply_category event_is_indexed apply_entered upsert_event upsert_category
    update_category upsert_record insert_transition recount_category link_vault_row
    link_participants tokens_unique get put last_ledger_of max_ledger ledger_from_cursor before_dash
    digits number number_from if_safe greatest save_cursor newer_cursor
counts_one = (refl, refl, refl)

poll_page_replay_example :
    (again : PollResult) × (poll_page sample_reader sample_page first_poll.0
      ≡ some (first_poll.0, again))
    × (again.tally.applied ≡ 0)
    × (again.tally.orphans ≡ 0)
poll_page_replay_example = poll_page_replay sample_reader sample_page empty first_poll first_polled

poll_page_progress_example :
    (c : CursorState) × (first_poll.0.cursor ≡ some c)
    × (c.cursor ≡ some sample_page.cursor)
    × (reached empty.cursor ≤ c.last_ledger)
    × ((c.last_ledger ≤ reached empty.cursor) ⊎ (c.last_ledger ≤ sample_page.latest_ledger))
    × All (λ e. e.ledger ≤ sample_page.latest_ledger → e.ledger ≤ c.last_ledger) sample_page.events
    × IsSeen empty.cursor sample_page c.last_ledger
    × (first_poll.1.tally.applied + first_poll.1.tally.duplicates + first_poll.1.ignored
        ≡ length sample_page.events)
poll_page_progress_example =
    poll_page_progress sample_reader sample_page empty first_poll first_polled

abbrev defaults : IndexerOptions
defaults = record { page_limit = none; start_ledger = none }

abbrev rebuilt_cursor : Option CursorState
rebuilt_cursor = some (record { cursor = none; last_ledger = 30; oldest_ledger = none })

asks_after_rebuild : request_for defaults rebuilt_cursor 5 ≡ from_ledger 31 200
unfolding request_for greatest
asks_after_rebuild = refl

request_for_lem_example : Resumes rebuilt_cursor 5 (request_for defaults rebuilt_cursor 5)
request_for_lem_example = request_for_lem defaults rebuilt_cursor 5

sample_reader-IsFaithful : IsFaithful home sample_reader
sample_reader-IsFaithful = record {
  record_of = λ t r at. ground arith;
  get_category = λ k c at. ground arith;
}

sample_hydrated : hydrate sample_reader sample_envelopes ≡ some sample_hydration
unfolding hydrate read_each want_events want_categories want_records put
sample_hydrated = refl

sample_decoded : decode_page sample_page.events ≡ some (sample_envelopes, 0)
unfolding decode_page
sample_decoded = refl

sample-Orderly :
    Orderly empty sample_envelopes sample_hydration
      (record { applied = 0; duplicates = 0; orphans = 0 })
unfolding apply_inserted insert_chain_event is_logged apply apply_event apply_created apply_category
    event_is_indexed apply_entered upsert_event upsert_category update_category upsert_record
    insert_transition recount_category link_vault_row link_participants tokens_unique get put
    count_records
sample-Orderly = (λ new. tt, (λ new. inr refl, (λ new. tt, tt)))

empty-IsCounted : IsCounted home empty
unfolding get
empty-IsCounted = record { counted = λ k row at. ground arith; settled = λ t r at. ground arith }

poll_page-IsCounted_example : IsCounted home first_poll.0
poll_page-IsCounted_example =
    poll_page-IsCounted home sample_reader sample_page empty sample_envelopes 0 sample_hydration
      first_poll sample_reader-IsFaithful sample_decoded sample_hydrated sample-Orderly
      empty-IsCounted first_polled

doctor_iff_example :
    ((report : DoctorReport) × (doctor sample_reader first_poll.0 ≡ some report)
      × (report.ok ≡ true))
    ↔ Agrees sample_reader first_poll.0
doctor_iff_example = doctor_iff sample_reader first_poll.0

wrong_organiser_stops : apply empty (envelope "1" 10 (event_created 0 "G9")) sample_hydration ≡ none
unfolding apply apply_event apply_created get
wrong_organiser_stops = refl

abbrev in_order : List ChainEventEnvelope → List ChainEventEnvelope
in_order log = log

abbrev rebuild_of : Option (Index × RebuildResult) → Index × RebuildResult
rebuild_of (some r) = r
rebuild_of none =
    (empty, record { events = 0; categories = 0; records = 0; transitions = 0; from_ledger = 0 })

abbrev first_rebuild : Index × RebuildResult
first_rebuild = rebuild_of (rebuild in_order "C" 30 small_reader empty)

first_rebuilt : rebuild in_order "C" 30 small_reader empty ≡ some first_rebuild
unfolding rebuild read_range walk_event walk_record list_scanner_candidates replay_scanners
    table_scanners still_allowed link_participants tokens_unique rebuilt write_records write_steps
    write_scanners write_categories write_close_dates write_events upsert_categories
    write_close_date reconstruct_transitions result_step insert_transition get upsert_record
    upsert_category upsert_event clear_materialised_tables
first_rebuilt = refl

small_reader-AnswersById : AnswersById small_reader
small_reader-AnswersById = record {
  event = λ i e at. ground arith;
  category = λ i c a at. ground arith;
  record' = λ t r at. ground arith;
}

rebuild-doctor_example : IsRebuilt small_reader 30 first_rebuild.0
rebuild-doctor_example =
    rebuild-doctor in_order "C" 30 small_reader empty first_rebuild small_reader-AnswersById
      first_rebuilt
