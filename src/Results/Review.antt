-- ===== src/Results/Review.antt =====
-- be/src/results/anomalies.ts: the loop of `reviewResults` over the rows of a file.
pub mod Marks
pub mod Unique
pub mod Counts
pub mod Tests
pub mod Rows
pub mod Safe
use sterun.Common.{
  ℕ, ◌+◌, Bool, true, false, ◌&&◌, List, [], ◌∷◌, ◌++◌, Option, none, some, ◌==◌, if◌then◌else◌,
  length, modify, filter, any, Eq, Dict, get, put, ◌≡◌, ◌↔◌, arith,
}
use sterun.Results.Row.{ResultKind, ParsedRow}
use sterun.Results.Anomaly.{
  AnomalyKind, malformed_row, unknown_bib, ambiguous_bib, duplicate_bib, not_claimed, already_final,
  impossible_time, wrong, unreadable, appears_already, appears_again, Anomaly, ReviewedRow,
  IndexedRecord, CategoryDistance, distance_map, read_row, resolve, lifecycle, time_check,
}

-- 2. The keys of `seen`: `t:…` for a record, `b:…:…` for a row that names none.
pub data Key : Type 0 where
  by_token : ℕ → Key
  by_bib : Option ℕ → ℕ → Key

abbrev option_eq : Option ℕ → Option ℕ → Bool
option_eq none none = true
option_eq (some a) (some b) = a == b
option_eq _ _ = false

abbrev key_eq : Key → Key → Bool
key_eq (by_token a) (by_token b) = a == b
key_eq (by_bib c a) (by_bib d b) = option_eq c d && a == b
key_eq _ _ = false

pub key_eq_iff : (k j : Key) → (key_eq k j ≡ true) ↔ (k ≡ j)
key_eq_iff (by_token a) (by_token b) = ground arith
key_eq_iff (by_token a) (by_bib d b) = ground arith
key_eq_iff (by_bib c a) (by_token b) = ground arith
key_eq_iff (by_bib c a) (by_bib d b) = ground arith

instance abbrev pub key-Eq : Eq Key
key-Eq = record { beq = key_eq; beq_iff = key_eq_iff }

unfoldable pub key_of : Option IndexedRecord → Option ℕ → ℕ → Key
key_of (some r) category bib = by_token r.token_id
key_of none category bib = by_bib category bib

abbrev pub is_duplicate : Anomaly → Bool
is_duplicate a = elim a.kind [ duplicate_bib ↦ true | _ ↦ false ]

-- The mark on the row where a repeated key first appeared.
unfoldable pub mark_first : ℕ → ℕ → ReviewedRow → ReviewedRow
mark_first bib line first = if any is_duplicate first.anomalies then first else record first {
  anomalies =
      first.anomalies
      ++ record { kind = duplicate_bib; reason = appears_again bib line; severity = wrong } ∷ [];
}

pub record Seen : Type 0 where
  pub line : ℕ
  pub index : ℕ

unfoldable pub duplicates : ℕ → Option Seen → List Anomaly
duplicates bib none = []
duplicates bib (some first) =
    record { kind = duplicate_bib; reason = appears_already bib first.line; severity = wrong } ∷ []

-- The row that is pushed for a row that could be read.
unfoldable pub reviewed :
    Dict ℕ ℕ
    → ParsedRow
    → ℕ
    → ResultKind
    → Option IndexedRecord × List Anomaly
    → Option Seen
    → ReviewedRow
reviewed distances row bib kind (found, unresolved) first = record {
  line = row.line;
  bib_no = row.bib_no;
  category_id = elim found [ some r ↦ some r.category_id | none ↦ row.category_id ];
  finish_time_s = row.finish_time_s;
  kind = some kind;
  token_id = elim found [ some r ↦ some r.token_id | none ↦ none ];
  state = elim found [ some r ↦ some r.state | none ↦ none ];
  anomalies =
      unresolved
      ++ (duplicates bib first
          ++ (lifecycle found kind bib ++ time_check distances found kind row.finish_time_s));
}

unfoldable pub malformed : ParsedRow → ReviewedRow
malformed row = record {
  line = row.line;
  bib_no = row.bib_no;
  category_id = row.category_id;
  finish_time_s = row.finish_time_s;
  kind = none;
  token_id = none;
  state = none;
  anomalies =
      record { kind = malformed_row; reason = unreadable row.problem; severity = wrong } ∷ [];
}

-- The variables of the loop over the parsed rows.
pub record Loop : Type 0 where
  pub seen : Dict Key Seen
  pub rows : List ReviewedRow

unfoldable pub push : Loop → Key → ParsedRow → ℕ → Option Seen → ReviewedRow → Loop
push s key row bib (some first) new = record s {
  rows = modify s.rows first.index (mark_first bib row.line) ++ new ∷ [];
}
push s key row bib none new = record {
  seen = put s.seen key (record { line = row.line; index = length s.rows });
  rows = s.rows ++ new ∷ [];
}

unfoldable pub review_read :
    List IndexedRecord → Dict ℕ ℕ → Loop → ParsedRow → Option (ℕ × ResultKind) → Loop
review_read records distances s row none = record s { rows = s.rows ++ malformed row ∷ [] }
review_read records distances s row (some (bib, kind)) =
    let found = resolve records row.category_id bib in
    let key = key_of found.0 row.category_id bib in
    let first = get s.seen key in
    push s key row bib first (reviewed distances row bib kind found first)

-- One round of the loop.
unfoldable pub review_row : List IndexedRecord → Dict ℕ ℕ → Loop → ParsedRow → Loop
review_row records distances s row = review_read records distances s row (read_row row)

unfoldable pub review_rows : List IndexedRecord → Dict ℕ ℕ → Loop → List ParsedRow → Loop
review_rows records distances s [] = s
review_rows records distances s (row ∷ rows) =
    review_rows records distances (review_row records distances s row) rows

abbrev pub is_clean : ReviewedRow → Bool
is_clean r = elim r.anomalies [ [] ↦ true | a ∷ rest ↦ false ]

abbrev pub kind_eq : AnomalyKind → AnomalyKind → Bool
kind_eq malformed_row malformed_row = true
kind_eq unknown_bib unknown_bib = true
kind_eq ambiguous_bib ambiguous_bib = true
kind_eq duplicate_bib duplicate_bib = true
kind_eq not_claimed not_claimed = true
kind_eq already_final already_final = true
kind_eq impossible_time impossible_time = true
kind_eq _ _ = false

abbrev pub KindCounts : Type 0
KindCounts = AnomalyKind → ℕ

unfoldable pub count_anomalies : KindCounts → List Anomaly → KindCounts
count_anomalies c [] = c
count_anomalies c (a ∷ rest) = count_anomalies (λ k. if kind_eq a.kind k then c k + 1 else c k) rest

unfoldable pub count_rows : KindCounts → List ReviewedRow → KindCounts
count_rows c [] = c
count_rows c (r ∷ rs) = count_rows (count_anomalies c r.anomalies) rs

pub record ResultsReview : Type 0 where
  pub rows : List ReviewedRow
  pub publishable : List ReviewedRow
  pub by_kind : KindCounts
  pub total : ℕ
  pub publishable_count : ℕ

unfoldable pub review_results :
    List ParsedRow → List IndexedRecord → List CategoryDistance → ResultsReview
review_results parsed records categories =
    let s =
      review_rows records (distance_map categories) (record { seen = []; rows = [] }) parsed in
    let publishable = filter is_clean s.rows in
    record {
      rows = s.rows;
      publishable = publishable;
      by_kind = count_rows (λ k. 0) s.rows;
      total = length s.rows;
      publishable_count = length publishable;
    }
