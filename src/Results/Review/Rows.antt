-- ===== src/Results/Review/Rows.antt =====
-- The review is row by row, and its rows without an anomaly are safe to publish.
use sterun.Common.{
  ℕ, List, [], ◌∷◌, ◌++◌, Option, none, some, modify, any, append-eq-nil, append-nil, append_assoc,
  Aligned, Aligned-concat, Aligned-modify, Dict, nat-Eq, get, ◌≡◌, refl, subst, arith, Bool-cases,
  inl, inr,
}
use sterun.Results.Row.{ParsedRow, ResultKind, timed, untimed, dnf}
use sterun.Results.Anomaly.{
  ReviewedRow, IndexedRecord, CategoryDistance, distance_map, read_row, resolve, lifecycle,
  time_check, distance_of,
}
use sterun.Results.Review.{
  Key, key-Eq, key_of, is_duplicate, mark_first, Seen, duplicates, malformed, reviewed, Loop, push,
  review_read, review_row, review_rows, review_results,
}
use sterun.Results.Review.Safe.{
  IsPublishable, lifecycle_lem, IsPlausible, time_anomaly_lem, resolve_lem,
}

read_row_lem :
    (row : ParsedRow) (bib : ℕ) (kind : ResultKind)
    → read_row row ≡ some (bib, kind)
    → (row.problem ≡ none)
      × (row.bib_no ≡ some bib)
      × (row.kind ≡ some kind)
      × (kind ≡ timed → (t : ℕ) × (row.finish_time_s ≡ some t))
unfolding read_row
read_row_lem row bib kind h = (ground arith, ground arith, ground arith, λ e. ground arith)

time_check_lem :
    (distances : Dict ℕ ℕ) (r : IndexedRecord) (kind : ResultKind) (finish : Option ℕ)
    → time_check distances (some r) kind finish ≡ []
    → (kind ≡ timed → (t : ℕ) × (finish ≡ some t))
    → kind ≡ timed
    → (t : ℕ) × (finish ≡ some t) × IsPlausible t (get distances r.category_id)
unfolding time_check distance_of
time_check_lem distances r timed (some t) h has e = (t, refl, time_anomaly_lem t _ h)
time_check_lem distances r timed none h has e = cc ((has e).1)
time_check_lem distances r untimed finish h has e = cc
time_check_lem distances r dnf finish h has e = cc

module _ (records : List IndexedRecord) (categories : List CategoryDistance) where
  abbrev Reviews : ParsedRow → ReviewedRow → Type 0
  Reviews row r = (r.line ≡ row.line) × (r.anomalies ≡ [] → IsPublishable records categories row r)

  Reviews-mark_first :
      (bib line : ℕ) (row : ParsedRow) (r : ReviewedRow)
      → Reviews row r
      → Reviews row (mark_first bib line r)
  unfolding mark_first
  Reviews-mark_first bib line row r h = elim (Bool-cases (any is_duplicate r.anomalies)) [
    | inl e ↦ rw (e, mark_first) h
    | inr e ↦ rw (e, mark_first) (h.0, λ k. cc ((append-eq-nil r.anomalies _ k).1))
  ]

  Reviews-malformed : (row : ParsedRow) → Reviews row (malformed row)
  unfolding malformed
  Reviews-malformed row = (refl, λ e. cc)

  Reviews-reviewed :
      (row : ParsedRow) (bib : ℕ) (kind : ResultKind) (first : Option Seen)
      → read_row row ≡ some (bib, kind)
      → Reviews row (
          reviewed
            (distance_map categories)
            row
            bib
            kind
            (resolve records row.category_id bib)
            first)
  unfolding reviewed
  Reviews-reviewed row bib kind first e = (
    refl,
    λ clean.
        let (resolved, rest) = append-eq-nil _ _ clean in
        let (_, checks) = append-eq-nil (duplicates bib first) _ rest in
        let (alive, time) = append-eq-nil _ _ checks in
        let (target, found, named) = resolve_lem records row.category_id bib resolved in
        let (unread, has_bib, has_kind, has_time) = read_row_lem row bib kind e in
        record {
          bib = bib;
          kind = kind;
          target = target;
          unread = unread;
          has_bib = has_bib;
          has_kind = refl;
          asked = has_kind;
          named = named;
          token = rw found;
          accepted =
              lifecycle_lem target kind bib (subst (λ o. lifecycle o kind bib ≡ []) found alive);
          plausible =
              time_check_lem (distance_map categories) target kind row.finish_time_s
                (subst (λ o. time_check (distance_map categories) o kind row.finish_time_s ≡ [])
                  found time)
                has_time;
        },
  )

  Aligned-push :
      (done : List ParsedRow) (s : Loop) (key : Key) (row : ParsedRow) (bib : ℕ)
      (first : Option Seen) (new : ReviewedRow)
      → Aligned Reviews done s.rows
      → Reviews row new
      → Aligned Reviews (done ++ row ∷ []) (push s key row bib first new).rows
  unfolding push
  Aligned-push done s key row bib none new h r = Aligned-concat Reviews done s.rows row new h r
  Aligned-push done s key row bib (some first) new h r =
      Aligned-concat Reviews done (modify s.rows first.index (mark_first bib row.line)) row new
        (Aligned-modify Reviews done s.rows first.index (mark_first bib row.line)
          (Reviews-mark_first bib row.line) h)
        r

  Aligned-review_read :
      (done : List ParsedRow) (s : Loop) (row : ParsedRow) (read : Option (ℕ × ResultKind))
      → read_row row ≡ read
      → Aligned Reviews done s.rows
      → Aligned Reviews
          (done ++ row ∷ [])
          (review_read records (distance_map categories) s row read).rows
  unfolding review_read
  Aligned-review_read done s row none e h =
      Aligned-concat Reviews done s.rows row (malformed row) h (Reviews-malformed row)
  Aligned-review_read done s row (some (bib, kind)) e h =
      let found = resolve records row.category_id bib in
      let key = key_of found.0 row.category_id bib in
      let first = get s.seen key in
      Aligned-push done s key row bib first _ h (Reviews-reviewed row bib kind first e)

  Aligned-review_rows :
      (done : List ParsedRow) (s : Loop) (parsed : List ParsedRow)
      → Aligned Reviews done s.rows
      → Aligned Reviews
          (done ++ parsed)
          (review_rows records (distance_map categories) s parsed).rows
  unfolding review_rows review_row
  Aligned-review_rows done s [] h = rw append-nil h
  Aligned-review_rows done s (row ∷ parsed) h =
      subst
        (λ l.
          Aligned Reviews l (review_rows records (distance_map categories) s (row ∷ parsed)).rows)
        (append_assoc done (row ∷ []) parsed)
        (Aligned-review_rows (done ++ row ∷ []) (review_row records (distance_map categories) s row)
          parsed (Aligned-review_read done s row (read_row row) refl h))

-- The review has one row for each row of the file, in the file's order and with its line number;
-- and a row without an anomaly is safe to publish: the file's row could be read, it names one
-- record of the event, the last that has its category and bib, or, where it gives no category, the only
-- one that has its bib; the contract accepts this kind of result for that record's state, and a
-- timed row has a plausible time.
pub review_results-IsPublishable :
    (parsed : List ParsedRow) (records : List IndexedRecord) (categories : List CategoryDistance)
    → Aligned
        (λ row r. (r.line ≡ row.line) × (r.anomalies ≡ [] → IsPublishable records categories row r))
        parsed
        (review_results parsed records categories).rows
unfolding review_results
review_results-IsPublishable parsed records categories =
    Aligned-review_rows records categories [] (record { seen = []; rows = [] }) parsed tt
