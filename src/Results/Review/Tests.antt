-- ===== src/Results/Review/Tests.antt =====
-- `reviewResults` on small files, and its theorems at them.
use sterun.Common.{
  ℕ, List, [], ◌∷◌, Option, none, some, ◌≡◌, refl, any, true, map, Aligned, arith, get, put,
  put_all, String,
}
use sterun.Results.Row.{ParsedRow, ResultKind, timed, untimed, dnf}
use sterun.Results.Anomaly.{
  ambiguous_bib, duplicate_bib, not_claimed, impossible_time, unknown_bib, already_final,
  AnomalyKind, ReviewedRow, IndexedRecord, Anomaly, Reason, wrong, reverts, still_entered,
  appears_again, appears_already, CategoryDistance, time_anomaly, pair_map, bib_map, distance_map,
  read_row, resolve_bib, resolve_pair, resolve, lifecycle, distance_of, time_check,
}
use sterun.Results.Review.{
  key_of, mark_first, duplicates, malformed, reviewed, push, review_read, review_row, review_rows,
  count_anomalies, count_rows, review_results, is_duplicate,
}
use sterun.Results.Review.Safe.{IsPublishable}
use sterun.Results.Review.Rows.{review_results-IsPublishable}
use sterun.Results.Review.Unique.{repeated_rows_marked}

review_runs : Unit {0}
unfolding time_anomaly pair_map bib_map distance_map read_row resolve_bib resolve_pair resolve
    lifecycle distance_of time_check key_of mark_first duplicates malformed reviewed push
    review_read review_row review_rows count_anomalies count_rows review_results get put put_all
review_runs = tt

abbrev entry : ℕ → ℕ → ℕ → String → IndexedRecord
entry token category bib state = record {
  token_id = token;
  category_id = category;
  bib_no = bib;
  state = state;
}

-- Bib 1 is worn in both categories.
abbrev entries : List IndexedRecord
entries =
    entry 10 0 1 "RacepackClaimed"
    ∷ entry 11 1 1 "RacepackClaimed"
    ∷ entry 12 0 2 "Entered"
    ∷ entry 13 0 3 "Finished"
    ∷ entry 14 0 4 "RacepackClaimed"
    ∷ []

abbrev distances : List CategoryDistance
distances = record { category_id = 0; distance_m = 5000 } ∷ []

abbrev read : ℕ → ℕ → Option ℕ → ResultKind → Option ℕ → ParsedRow
read line bib category kind finish = record {
  line = line;
  raw = [];
  bib_no = some bib;
  category_id = category;
  finish_time_s = finish;
  kind = some kind;
  problem = none;
}

abbrev results_file : List ParsedRow
results_file =
    read 2 1 none timed (some 1500)
    ∷ read 3 1 (some 0) timed (some 1500)
    ∷ read 4 2 none timed (some 1600)
    ∷ read 5 2 none dnf none
    ∷ read 6 3 none dnf none
    ∷ read 7 4 none timed (some 100)
    ∷ read 8 9 none untimed none
    ∷ []

kinds : List ReviewedRow → List (List AnomalyKind)
kinds rows = map (λ r. map (λ a. a.kind) r.anomalies) rows

-- Ambiguous; clean; not claimed and then repeated; repeated; final; too fast; unknown.
review_test :
    kinds (review_results results_file entries distances).rows
    ≡ (ambiguous_bib ∷ [])
      ∷ []
      ∷ (not_claimed ∷ duplicate_bib ∷ [])
      ∷ (duplicate_bib ∷ [])
      ∷ (already_final ∷ [])
      ∷ (impossible_time ∷ [])
      ∷ (unknown_bib ∷ [])
      ∷ []
unfolding review_runs kinds
review_test = refl

abbrev repeated : ℕ → Option ResultKind → Option ℕ → List Anomaly → ReviewedRow
repeated line kind finish found = record {
  line = line;
  bib_no = some 2;
  category_id = some 0;
  finish_time_s = finish;
  kind = kind;
  token_id = some 12;
  state = some "Entered";
  anomalies = found;
}

abbrev repeat : Reason → Anomaly
repeat why = record { kind = duplicate_bib; reason = why; severity = wrong }

abbrev not_collected : Anomaly
not_collected = record { kind = not_claimed; reason = still_entered 2 timed; severity = reverts }

abbrev first_row : ReviewedRow
first_row = repeated 4 (some timed) (some 1600) (not_collected ∷ repeat (appears_again 2 5) ∷ [])

abbrev second_row : ReviewedRow
second_row = repeated 5 (some dnf) none (repeat (appears_already 2 4) ∷ [])

repeated_rows_marked_example :
    (any is_duplicate first_row.anomalies ≡ true) × (any is_duplicate second_row.anomalies ≡ true)
unfolding review_runs
repeated_rows_marked_example =
    repeated_rows_marked results_file entries distances 2 3 first_row second_row 12 (omega arith)
      refl refl refl refl

review_results-IsPublishable_example :
    Aligned
      (λ row r. (r.line ≡ row.line) × (r.anomalies ≡ [] → IsPublishable entries distances row r))
      results_file
      (review_results results_file entries distances).rows
review_results-IsPublishable_example = review_results-IsPublishable results_file entries distances
