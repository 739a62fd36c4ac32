-- ===== src/Results/Lines/Readable.antt =====
-- The rows that a file gives, as the review reads them.
use sterun.Common.{
  Text, ℕ, ◌+◌, ◌++◌, ◌||◌, filter, Bool, true, false, List, [], ◌∷◌, Option, none, some, map,
  length, All, ◌≡◌, ◌⊎◌, refl, arith, Bool-cases, Option-cases, inl, inr, ap, subst,
}
use sterun.Results.Row.{ResultKind, timed, untimed, dnf, Problem, ParsedRow}
use sterun.Results.Anomaly.{read_row}
use sterun.Results.Csv.{
  Lookup, own, inherited, absent, trim, trim_left, starts_with, is_blank, lookup, header_aliases,
  normalise_header, split_line, detect_delimiter,
}
use sterun.Results.Lines.{
  parse_finish_time, read_status, Reading, reads_problem, read_untimed, read_timed, read_kind,
  read_bib, check_category, pushed_row, Columns, read_line, is_skipped, read_lines, columns_of,
  Parsed, throws, returns, ParsedCsv, parse_from, parse_results_csv, drop_last, split_lines,
}

-- A timed row has a time, and no other row has one.
abbrev pub HasTime : ResultKind → Option ℕ → Type 0
HasTime timed finish = (t : ℕ) × (finish ≡ some t)
HasTime untimed finish = finish ≡ none
HasTime dnf finish = finish ≡ none

abbrev IsKnown : Option ℕ → Reading → Type 0
IsKnown bib r =
    (b : ℕ) × (bib ≡ some b) × (k : ResultKind) × (r.kind ≡ some k) × HasTime k r.finish_time_s

-- A row without a problem has its bib, its kind and the time that its kind has, and the review reads
-- them; a row with a problem has nothing else.
abbrev pub IsReadable : ParsedRow → Type 0
IsReadable row =
    ((row.problem ≡ none)
      × ((b : ℕ) × (k : ResultKind) × (read_row row ≡ some (b, k))
          × (row.bib_no ≡ some b)
          × (row.kind ≡ some k)
          × HasTime k row.finish_time_s))
    ⊎ (((p : Problem) × (row.problem ≡ some p))
        × (read_row row ≡ none)
        × (row.bib_no ≡ none)
        × (row.category_id ≡ none)
        × (row.kind ≡ none)
        × (row.finish_time_s ≡ none))

read_untimed-HasTime :
    (k : ResultKind) (text : Text)
    → HasTime k none
    → (read_untimed k text).problem ≡ none
    → ((read_untimed k text).kind ≡ some k) × HasTime k (read_untimed k text).finish_time_s
unfolding read_untimed reads_problem
read_untimed-HasTime k text none' h = elim (Bool-cases (is_blank text)) [
  | inl e ↦ rw e (refl, none')
  | inr e ↦ absurd (cc (rw e at h))
]

read_timed-HasTime :
    (b : Bool) (text : Text) (o : Option ℕ)
    → (read_timed b text o).problem ≡ none
    → ((read_timed b text o).kind ≡ some timed) × HasTime timed (read_timed b text o).finish_time_s
unfolding read_timed reads_problem
read_timed-HasTime b text none h = absurd (cc h)
read_timed-HasTime b text (some t) h = (refl, (t, refl))

read_kind-HasTime :
    (o : Option (Lookup ResultKind)) (status time : Text)
    → (read_kind o status time).problem ≡ none
    → (k : ResultKind) × (((read_kind o status time).kind ≡ some k)
        × HasTime k (read_kind o status time).finish_time_s)
unfolding read_kind reads_problem
read_kind-HasTime (some absent) s t h = absurd (cc h)
read_kind-HasTime (some (own untimed)) s t h =
    (untimed, read_untimed-HasTime untimed (trim t) refl h)
read_kind-HasTime (some (own dnf)) s t h = (dnf, read_untimed-HasTime dnf (trim t) refl h)
read_kind-HasTime (some (own timed)) s t h =
    (timed, read_timed-HasTime true (trim t) (parse_finish_time t) h)
read_kind-HasTime (some inherited) s t h =
    (timed, read_timed-HasTime false (trim t) (parse_finish_time t) h)
read_kind-HasTime none s t h = (timed, read_timed-HasTime false (trim t) (parse_finish_time t) h)

read_bib-IsKnown :
    (bib : Option ℕ) (bib_cell status time : Text)
    → (read_bib bib bib_cell status time).problem ≡ none
    → IsKnown bib (read_bib bib bib_cell status time)
unfolding read_bib reads_problem
read_bib-IsKnown none c s t h = absurd (cc h)
read_bib-IsKnown (some b) c s t h =
    let (k, (e, time)) = read_kind-HasTime (read_status (trim s)) (trim s) t h in
    (b, refl, k, e, time)

check_category-none :
    (c : Text) (category : Option ℕ) (o : Option Problem)
    → check_category c category o ≡ none
    → o ≡ none
unfolding check_category
check_category-none c category none h = refl
check_category-none c category (some p) h = h

read_known :
    (row : ParsedRow) (b : ℕ) (k : ResultKind)
    → row.problem ≡ none
    → row.bib_no ≡ some b
    → row.kind ≡ some k
    → HasTime k row.finish_time_s
    → read_row row ≡ some (b, k)
unfolding read_row
read_known row b timed p e e' (t, h) = ground arith
read_known row b untimed p e e' h = ground arith
read_known row b dnf p e e' h = ground arith

pushed_row-IsReadable :
    (line : ℕ) (raw : Text) (bib category : Option ℕ) (r : Reading) (o : Option Problem)
    → (o ≡ none → IsKnown bib r)
    → IsReadable (pushed_row line raw bib category r o)
unfolding pushed_row read_row
pushed_row-IsReadable line raw bib category r (some p) h =
    inr ((p, refl), refl, refl, refl, refl, refl)
pushed_row-IsReadable line raw bib category r none h =
    let (b, e, k, e', time) = h refl in
    inl (
      refl,
      (b, k, read_known (pushed_row line raw bib category r none) b k refl e e' time, e, e', time),
    )

read_line-IsReadable :
    (at : Columns) (line : ℕ) (raw : Text) (cells : List Text)
    → IsReadable (read_line at line raw cells)
unfolding read_line
read_line-IsReadable at line raw cells =
    pushed_row-IsReadable line raw _ _ _ _
      λ h. read_bib-IsKnown _ _ _ _ (check_category-none _ _ _ h)

-- A line that is blank or starts with a `#`.
abbrev pub is_passed_over : Text → Bool
is_passed_over l = is_blank (trim l) || starts_with 0x23 (trim_left l)

is_skipped_lem : (l : Text) → is_skipped l ≡ is_passed_over l
unfolding is_skipped
is_skipped_lem l = refl

read_lines-IsReadable :
    (at : Columns) (delimiter line : ℕ) (lines : List Text)
    → (let r = read_lines at delimiter line lines in
        All IsReadable r.0
        × (r.1 ≡ length (filter is_passed_over lines))
        × (length r.0 + r.1 ≡ length lines))
unfolding read_lines
read_lines-IsReadable at delimiter line [] = (tt, refl, omega arith)
read_lines-IsReadable at delimiter line (raw ∷ lines) =
    let (good, passed, count) = read_lines-IsReadable at delimiter (line + 1) lines in
    elim (Bool-cases (is_passed_over raw)) [
      | inl e ↦ rw (is_skipped_lem raw, e) (good, omega (arith, passed), omega (arith, count))
      | inr e ↦
          rw (is_skipped_lem raw, e)
            (
              (read_line-IsReadable at line raw (split_line raw delimiter), good),
              passed,
              omega (arith, count),
            )
    ]

abbrev csv_or : ParsedCsv → Parsed → ParsedCsv
csv_or csv (throws e) = csv
csv_or csv (returns csv') = csv'

-- The rows are readable, and the lines are those passed over above the header, the header, and those
-- below it, each of which is a row or is counted as skipped.
abbrev pub IsAccounted : List Text → ParsedCsv → Type 0
IsAccounted lines csv =
    All IsReadable csv.rows
    × (above : List Text) × (header : Text) × (below : List Text) × (lines
        ≡ above ++ header ∷ below)
    × All (λ l. is_passed_over l ≡ true) above
    × (is_passed_over header ≡ false)
    × (csv.skipped ≡ length (filter is_passed_over below))
    × (length csv.rows + csv.skipped ≡ length below)

parse_from-IsAccounted :
    (line : ℕ) (lines : List Text) (csv : ParsedCsv)
    → parse_from line lines ≡ returns csv
    → IsAccounted lines csv
unfolding parse_from
parse_from-IsAccounted line [] csv h = absurd (cc h)
parse_from-IsAccounted line (l ∷ lines) csv h = elim (Bool-cases (is_passed_over l)) [
  | inl e ↦
      let (good, above, header, below, same, passed, kept, skipped, count) =
        parse_from-IsAccounted (line + 1) lines csv (rw (is_skipped_lem l, e) at h) in
      (good, l ∷ above, header, below, ap (λ ls. l ∷ ls) same, (e, passed), kept, skipped, count)
  | inr e ↦
      elim (Option-cases (
        columns_of (
          map (lookup header_aliases)
            (map normalise_header (split_line l (detect_delimiter l)))))) [
              | inl e' ↦ absurd (cc (rw (is_skipped_lem l, e, e') at h))
              | inr (at, e') ↦
                  let (good, skipped, count) =
                    read_lines-IsReadable at (detect_delimiter l) (line + 1) lines in
                  subst (IsAccounted (l ∷ lines))
                    (ap (csv_or csv) (rw (is_skipped_lem l, e, e') at h))
                    (good, [], l, lines, refl, tt, e, skipped, count)
            ]
]

-- When the file can be read at all, every row that it gives is one that the review can read with its
-- bib, its kind and the time of its kind, or has a problem and nothing else. The header is the first
-- line that is neither blank nor a comment, each line below it is a row or is skipped, and those
-- skipped are the blank ones and the comments among them.
pub parse_results_csv-IsAccounted :
    (text : Text) (csv : ParsedCsv)
    → parse_results_csv text ≡ returns csv
    → IsAccounted (drop_last (split_lines text)) csv
unfolding parse_results_csv
parse_results_csv-IsAccounted text csv h =
    parse_from-IsAccounted 1 (drop_last (split_lines text)) csv h
