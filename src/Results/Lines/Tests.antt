-- ===== src/Results/Lines/Tests.antt =====
-- Results files and cells that show how they are read.
use sterun.Common.{Text, text_eq, codes, [], ◌∷◌, ◌++◌, none, some, ◌≡◌, refl}
use sterun.Results.Row.{timed}
use sterun.Results.Csv.{
  is_js_space, trim_left, trim_right, trim, lower, drop_bom, underscores, only_names,
  normalise_header, inherited, lookup, if_safe, digits, number_from, number, whole_number,
  parse_index, split_from, split_line, count_of, detect_delimiter,
}
use sterun.Results.Lines.{
  sixty, ends_time, after_minutes, after_digits, parse_finish_time, read_status, reads_problem,
  read_untimed, read_timed, read_kind, read_bib, check_category, pushed_row, read_line, is_skipped,
  read_lines, index_of, returns, ParsedCsv, split_lines, drop_last, columns_of, parse_from,
  parse_results_csv,
}
use sterun.Results.Lines.Readable.{IsAccounted, parse_results_csv-IsAccounted}

csv_runs : Unit {0}
unfolding is_js_space trim_left trim_right trim lower drop_bom underscores only_names
    normalise_header lookup if_safe digits number_from number whole_number parse_index split_from
    split_line count_of detect_delimiter sixty ends_time after_minutes after_digits
    parse_finish_time read_status reads_problem read_untimed read_timed read_kind read_bib
    check_category pushed_row read_line is_skipped read_lines index_of split_lines drop_last
    columns_of parse_from parse_results_csv text_eq
csv_runs = tt

finish_times :
    (parse_finish_time (codes " 52:41 ") ≡ some 3161)
    × (parse_finish_time (codes "1:02:41.5") ≡ some 3761)
    × (parse_finish_time (codes "3161.4") ≡ some 3161)
    × (parse_finish_time (codes "52:61") ≡ none)
    × (parse_finish_time (codes "1:2:3:4") ≡ none)
unfolding csv_runs
finish_times = (refl, refl, refl, refl, refl)

quoted_cells :
    split_line (codes "a,\"b,\"\"c\"\"\",d") 0x2c ≡ codes "a" ∷ codes "b,\"c\"" ∷ codes "d" ∷ []
unfolding csv_runs
quoted_cells = refl

-- The word is a property of every object, so it is not undefined, and the row is read as a finish.
inherited_status_is_timed :
    (read_status (codes "Constructor") ≡ some inherited)
    × ((read_kind (read_status (codes "Constructor")) (codes "Constructor") (codes "52:41")).kind
        ≡ some timed)
unfolding csv_runs
inherited_status_is_timed = (refl, refl)

abbrev sample_file : Text
sample_file =
    codes "Bib,Time" ++ 0xd ∷ 0xa ∷ (codes "# gun 6:00" ++ 0xa ∷ (codes "7,52:41" ++ 0xa ∷ []))

abbrev sample_csv : ParsedCsv
sample_csv = record {
  rows =
      record {
        line = 3;
        raw = codes "7,52:41";
        bib_no = some 7;
        category_id = none;
        finish_time_s = some 3161;
        kind = some timed;
        problem = none;
      }
      ∷ [];
  header = codes "bib" ∷ codes "time" ∷ [];
  skipped = 1;
}

sample_file_is_read : parse_results_csv sample_file ≡ returns sample_csv
unfolding csv_runs
sample_file_is_read = refl

parse_results_csv-IsAccounted_example : IsAccounted (drop_last (split_lines sample_file)) sample_csv
parse_results_csv-IsAccounted_example =
    parse_results_csv-IsAccounted sample_file sample_csv sample_file_is_read
