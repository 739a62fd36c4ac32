-- ===== src/Results/Lines.antt =====
-- be/src/results/csv.ts: the lines of a results file and the rows that they give.
pub mod Readable
pub mod Tests
use sterun.Common.{
  Text, ℕ, ◌+◌, ◌*◌, Bool, true, false, not, ◌&&◌, ◌||◌, List, [], ◌∷◌, ◌++◌, Option, none, some,
  ◌==◌, leb, if◌then◌else◌, any, length, map, get_elem?, zero, suc, ◌>>=◌,
}
use sterun.Results.Row.{
  ResultKind, timed, untimed, dnf, Problem, bad_bib, unknown_status, time_not_empty, time_missing,
  bad_time, bad_category, ParsedRow,
}
use sterun.Results.Csv.{
  trim_left, trim, is_blank, normalise_header, Lookup, own, inherited, absent, lookup, Column,
  bib_no, category_id, finish_time_s, status, header_aliases, status_aliases, if_safe, digits,
  number, parse_index, split_line, detect_delimiter, starts_with,
}

-- `[0-5]?\d`, which nothing but a digit may follow.
unfoldable pub sixty : Text → Option (ℕ × Text)
sixty s =
    let (ds, rest) = digits s in
    elim ds [
      | [] ↦ none
      | a ∷ [] ↦ some (number (a ∷ []), rest)
      | a ∷ b ∷ [] ↦ if leb a 0x35 then some (number (a ∷ b ∷ []), rest) else none
      | a ∷ b ∷ c ∷ more ↦ none
    ]

-- `(?:\.(\d{1,3}))?$`, and `(?:\.\d+)?$` with no limit.
unfoldable pub ends_time : Bool → Text → Bool
ends_time limited [] = true
ends_time limited (c ∷ s) =
    let (ds, rest) = digits s in
    c == 0x2e && (not (is_blank ds) && (is_blank rest && (not limited || leb (length ds) 3)))

unfoldable pub after_minutes : (a b : ℕ) → Text → Option ℕ
after_minutes a b [] = if_safe (a * 60 + b)
after_minutes a b (c ∷ s) =
    if c == 0x3a
    then (do
      (seconds, rest) ← sixty s
      if ends_time true rest then if_safe (a * 3600 + b * 60 + seconds) else none)
    else if ends_time true (c ∷ s)
    then if_safe (a * 60 + b)
    else none

-- The value after its first run of digits.
unfoldable pub after_digits : Text → Text → Option ℕ
after_digits ds [] = if_safe (number ds)
after_digits ds (c ∷ s) =
    if c == 0x3a && leb (length ds) 3
    then (do (b, rest) ← sixty s; after_minutes (number ds) b rest)
    else if ends_time false (c ∷ s)
    then if_safe (number ds)
    else none

unfoldable pub parse_finish_time : Text → Option ℕ
parse_finish_time input =
    let (ds, rest) = digits (trim input) in if is_blank ds then none else after_digits ds rest

-- The cell of a status: empty, or what its lookup gives.
unfoldable pub read_status : Text → Option (Lookup ResultKind)
read_status text =
    if is_blank text then none else some (lookup status_aliases (normalise_header text))

pub record Reading : Type 0 where
  pub kind : Option ResultKind
  pub finish_time_s : Option ℕ
  pub problem : Option Problem

unfoldable pub reads_problem : Problem → Reading
reads_problem p = record { kind = none; finish_time_s = none; problem = some p }

unfoldable pub read_untimed : ResultKind → Text → Reading
read_untimed k time_text =
    if not (is_blank time_text)
    then reads_problem (time_not_empty k time_text)
    else record { kind = some k; finish_time_s = none; problem = none }

unfoldable pub read_timed : (says_timed : Bool) → (time_text : Text) → Option ℕ → Reading
read_timed says_timed time_text (some t) = record {
  kind = some timed;
  finish_time_s = some t;
  problem = none;
}
read_timed says_timed time_text none =
    reads_problem (if is_blank time_text && says_timed then time_missing else bad_time time_text)

-- An inherited value is neither undefined nor one of the two words, so its row is read as timed.
unfoldable pub read_kind : Option (Lookup ResultKind) → (status_text time_cell : Text) → Reading
read_kind (some absent) status_text time_cell = reads_problem (unknown_status status_text)
read_kind (some (own untimed)) status_text time_cell = read_untimed untimed (trim time_cell)
read_kind (some (own dnf)) status_text time_cell = read_untimed dnf (trim time_cell)
read_kind (some (own timed)) status_text time_cell =
    read_timed true (trim time_cell) (parse_finish_time time_cell)
read_kind (some inherited) status_text time_cell =
    read_timed false (trim time_cell) (parse_finish_time time_cell)
read_kind none status_text time_cell =
    read_timed false (trim time_cell) (parse_finish_time time_cell)

unfoldable pub read_bib : Option ℕ → (bib_cell status_cell time_cell : Text) → Reading
read_bib none bib_cell status_cell time_cell = reads_problem (bad_bib (trim bib_cell))
read_bib (some bib) bib_cell status_cell time_cell =
    let text = trim status_cell in read_kind (read_status text) text time_cell

unfoldable pub check_category : Text → Option ℕ → Option Problem → Option Problem
check_category category_cell category (some p) = some p
check_category category_cell category none =
    if not (is_blank (trim category_cell)) && elim category [ none ↦ true | some c ↦ false ]
    then some (bad_category (trim category_cell))
    else none

unfoldable pub pushed_row : ℕ → Text → Option ℕ → Option ℕ → Reading → Option Problem → ParsedRow
pushed_row line raw bib category reading (some p) = record {
  line = line;
  raw = raw;
  bib_no = none;
  category_id = none;
  finish_time_s = none;
  kind = none;
  problem = some p;
}
pushed_row line raw bib category reading none = record {
  line = line;
  raw = raw;
  bib_no = bib;
  category_id = category;
  finish_time_s = reading.finish_time_s;
  kind = reading.kind;
  problem = none;
}

-- Where each column stands; the bib's always does.
pub record Columns : Type 0 where
  pub bib_at : ℕ
  pub time_at : Option ℕ
  pub status_at : Option ℕ
  pub category_at : Option ℕ

abbrev pub cell_at : List Text → ℕ → Text
cell_at cells i = elim (get_elem? cells i) [ none ↦ [] | some cell ↦ cell ]

abbrev pub cell_of : List Text → Option ℕ → Text
cell_of cells none = []
cell_of cells (some i) = cell_at cells i

unfoldable pub read_line : Columns → (line : ℕ) → (raw : Text) → List Text → ParsedRow
read_line at line raw cells =
    let bib_cell = cell_at cells at.bib_at in
    let category_cell = cell_of cells at.category_at in
    let bib = parse_index bib_cell in
    let category = if is_blank (trim category_cell) then none else parse_index category_cell in
    let reading = read_bib bib bib_cell (cell_of cells at.status_at) (cell_of cells at.time_at) in
    pushed_row line raw bib category reading (check_category category_cell category reading.problem)

-- Blank, or a comment.
unfoldable pub is_skipped : Text → Bool
is_skipped raw = is_blank (trim raw) || starts_with 0x23 (trim_left raw)

-- The rows of the lines that follow the header, and how many were skipped.
unfoldable pub read_lines : Columns → ℕ → (line : ℕ) → List Text → List ParsedRow × ℕ
read_lines at delimiter line [] = ([], 0)
read_lines at delimiter line (raw ∷ lines) =
    let (rows, skipped) = read_lines at delimiter (line + 1) lines in
    if is_skipped raw
    then (rows, skipped + 1)
    else (read_line at line raw (split_line raw delimiter) ∷ rows, skipped)

abbrev pub column_eq : Column → Column → Bool
column_eq bib_no bib_no = true
column_eq category_id category_id = true
column_eq finish_time_s finish_time_s = true
column_eq status status = true
column_eq _ _ = false

-- `mapped.indexOf`.
unfoldable pub index_of : Column → List (Lookup Column) → Option ℕ
index_of c [] = none
index_of c (l ∷ ls) =
    if elim l [ own d ↦ column_eq c d | _ ↦ false ]
    then some 0
    else elim (index_of c ls) [ none ↦ none | some i ↦ some (i + 1) ]

pub data CsvFormatError : Type 0 where
  no_rows : CsvFormatError
  bad_header : List Text → CsvFormatError

pub record ParsedCsv : Type 0 where
  pub rows : List ParsedRow
  pub header : List Text
  pub skipped : ℕ

pub data Parsed : Type 0 where
  throws : CsvFormatError → Parsed
  returns : ParsedCsv → Parsed

-- `text.split(/\r?\n/)`: a carriage return before a line feed belongs to the break.
unfoldable pub split_lines : Text → List Text
split_lines [] = [] ∷ []
split_lines (c ∷ s) =
    let rest = split_lines s in
    if c == 0xa
    then [] ∷ rest
    else if c == 0xd && starts_with 0xa s
    then rest
    else elim rest [ [] ↦ (c ∷ []) ∷ [] | l ∷ ls ↦ (c ∷ l) ∷ ls ]

-- The last line is dropped when it is empty.
unfoldable pub drop_last : List Text → List Text
drop_last [] = []
drop_last (l ∷ []) = if is_blank l then [] else l ∷ []
drop_last (l ∷ m ∷ ls) = l ∷ drop_last (m ∷ ls)

unfoldable pub columns_of : List (Lookup Column) → Option Columns
columns_of mapped = elim (index_of bib_no mapped) [
  | none ↦ none
  | some bib ↦ elim (index_of finish_time_s mapped) [
    | none ↦ elim (index_of status mapped) [
      | none ↦ none
      | some s ↦ some (record {
        bib_at = bib;
        time_at = none;
        status_at = some s;
        category_at = index_of category_id mapped;
      })
    ]
    | some t ↦ some (record {
      bib_at = bib;
      time_at = some t;
      status_at = index_of status mapped;
      category_at = index_of category_id mapped;
    })
  ]
]

-- From the first line with content on; `line` is its number.
unfoldable pub parse_from : (line : ℕ) → List Text → Parsed
parse_from line [] = throws no_rows
parse_from line (l ∷ lines) =
    if is_skipped l
    then parse_from (line + 1) lines
    else (let delimiter = detect_delimiter l in
        let header = map normalise_header (split_line l delimiter) in
        elim (columns_of (map (lookup header_aliases) header)) [
          | none ↦ throws (bad_header header)
          | some at ↦
              let (rows, skipped) = read_lines at delimiter (line + 1) lines in
              returns (record { rows = rows; header = header; skipped = skipped })
        ])

unfoldable pub parse_results_csv : Text → Parsed
parse_results_csv text = parse_from 1 (drop_last (split_lines text))
