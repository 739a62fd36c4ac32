-- ===== src/Results/Review/Unique.antt =====
-- Two rows of a file that name one record are both marked.
use mathlib.Core.Option.{some-injective}
use sterun.Common.{
  ◌<◌, length, length-append, length-modify, ◌⊎◌, ◌≢◌, sym, ℕ, true, List, [], ◌∷◌, ◌++◌, Dict,
  Option, none, some, get_elem?, modify, any, get_elem?-concat, get_elem?-modify, get, get-put,
  get-put_self, ◌≡◌, refl, ap, ◌∙◌, arith, inl, inr,
}
use sterun.Results.Anomaly.{
  Anomaly, ReviewedRow, IndexedRecord, CategoryDistance, resolve, read_row, distance_map,
}
use sterun.Results.Row.{ParsedRow, ResultKind}
use sterun.Results.Review.{
  Key, by_token, key-Eq, key_of, is_duplicate, mark_first, Seen, malformed, reviewed, Loop, push,
  review_read, review_row, review_rows, review_results,
}
use sterun.Results.Review.Marks.{
  marked, Tracks, Bounded, marked-mark_first, token_id-mark_first, Tracks-old, Tracks-malformed,
  reviewed_key, reviewed-marked,
}

module _ (s : Loop) (key : Key) (row : ParsedRow) (bib : ℕ) (new : ReviewedRow) where
  Bounded-push : (first : Option Seen) → Bounded s → Bounded (push s key row bib first new)
  unfolding push
  Bounded-push none b k f e = ground (
    arith,
    b k f,
    get-put s.seen key (record { line = row.line; index = length s.rows }) k,
    length-append s.rows (new ∷ []),
  )
  Bounded-push (some first) b k f e = omega (
    arith,
    b k f e,
    length-append (modify s.rows first.index (mark_first bib row.line)) (new ∷ []),
    length-modify s.rows first.index (mark_first bib row.line),
  )

  -- A key that was not seen before: the new row is where its record is first seen.
  Tracks-push_new :
      get s.seen key ≡ none
      → ((t : ℕ) → new.token_id ≡ some t → key ≡ by_token t)
      → Bounded s
      → Tracks s
      → Tracks (push s key row bib none new)
  unfolding push
  Tracks-push_new fresh names b h i r t e k = elim (get_elem?-concat s.rows new r i e) [
    | inl old ↦
        let (f, at, place) = Tracks-old s new b h i r t old k in
        (f, rw get-put (ground (arith, at, key-Eq.beq_iff key (by_token t))), place)
    | inr (here, same) ↦
        let is_key = names t (ap (λ (x : ReviewedRow). x.token_id) same ∙ k) in
        (
          record { line = row.line; index = length s.rows },
          rw (← is_key) (get-put_self s.seen key _),
          inl here,
        )
  ]

  -- A key that was seen before: the new row and the row where it was seen are marked.
  module _ (first : Seen) (b : Bounded s) (h : Tracks s) where
    rows' : List ReviewedRow
    rows' = modify s.rows first.index (mark_first bib row.line)

    firsts-push :
        (f : Seen)
        → f.index < length s.rows
        → ((f.index ≡ first.index)
            ⊎ ((q : ReviewedRow) → get_elem? s.rows f.index ≡ some q → marked q ≡ true))
        → (q : ReviewedRow) → get_elem? (rows' ++ new ∷ []) f.index ≡ some q
        → marked q ≡ true
    unfolding rows'
    firsts-push f below old q e = elim (get_elem?-concat rows' new q f.index e) [
      | inl e' ↦ elim (get_elem?-modify s.rows first.index f.index (mark_first bib row.line) q e') [
        | inl (x, _, _, changed) ↦ rw (← changed) (marked-mark_first bib row.line x)
        | inr (ne, kept) ↦ elim old [ inl same ↦ absurd (ne same) | inr firsts ↦ firsts q kept ]
      ]
      | inr (last, _) ↦
          absurd (omega (arith, length-modify s.rows first.index (mark_first bib row.line)))
    ]

    Tracks-push_seen :
        get s.seen key ≡ some first
        → ((t : ℕ) → new.token_id ≡ some t → key ≡ by_token t)
        → marked new ≡ true
        → Tracks (push s key row bib (some first) new)
    unfolding push rows'
    Tracks-push_seen known names dup i r t e k = elim (get_elem?-concat rows' new r i e) [
      | inl old ↦ elim (get_elem?-modify s.rows first.index i (mark_first bib row.line) r old) [
        | inl (x, _, at, changed) ↦
            let (f, seen_at, place) = h i x t at (
              sym (token_id-mark_first bib row.line x)
              ∙ ap (λ (y : ReviewedRow). y.token_id) changed
              ∙ k) in
            (
              f,
              seen_at,
              elim place [
                | inl here ↦ inl here
                | inr (_, firsts) ↦ inr (
                  rw (← changed) (marked-mark_first bib row.line x),
                  firsts-push f (b (by_token t) f seen_at) (inr firsts),
                )
              ],
            )
        | inr (_, kept) ↦
            let (f, seen_at, place) = h i r t kept k in
            (
              f,
              seen_at,
              elim place [
                | inl here ↦ inl here
                | inr (m, firsts) ↦ inr (m, firsts-push f (b (by_token t) f seen_at) (inr firsts))
              ],
            )
      ]
      | inr (_, same) ↦
          let is_key = names t (ap (λ (x : ReviewedRow). x.token_id) same ∙ k) in
          (
            first,
            rw (← is_key) known,
            inr (rw (← same) dup, firsts-push first (b key first known) (inl refl)),
          )
    ]

Tracks-push :
    (s : Loop) (key : Key) (row : ParsedRow) (bib : ℕ) (first : Option Seen) (new : ReviewedRow)
    → get s.seen key ≡ first
    → ((t : ℕ) → new.token_id ≡ some t → key ≡ by_token t)
    → ((f : Seen) → first ≡ some f → marked new ≡ true)
    → Bounded s
    → Tracks s
    → Tracks (push s key row bib first new)
Tracks-push s key row bib none new known names dup b h =
    Tracks-push_new s key row bib new known names b h
Tracks-push s key row bib (some first) new known names dup b h =
    Tracks-push_seen s key row bib new first b h known names (dup first refl)

reviewed_dup :
    (distances : Dict ℕ ℕ) (row : ParsedRow) (bib : ℕ) (kind : ResultKind)
    (found : Option IndexedRecord × List Anomaly) (first : Option Seen) (f : Seen)
    → first ≡ some f
    → marked (reviewed distances row bib kind found first) ≡ true
reviewed_dup distances row bib kind found first f e =
    rw e (reviewed-marked distances row bib kind found f)

abbrev pub Tracked : Loop → Type 0
Tracked s = Bounded s × Tracks s

Tracked-review_read :
    (records : List IndexedRecord) (distances : Dict ℕ ℕ) (s : Loop) (row : ParsedRow)
    (read : Option (ℕ × ResultKind))
    → Tracked s
    → Tracked (review_read records distances s row read)
unfolding review_read
Tracked-review_read records distances s row none (b, h) = (
  λ k f e. omega (arith, b k f e, length-append s.rows (malformed row ∷ [])),
  Tracks-malformed s row b h,
)
Tracked-review_read records distances s row (some (bib, kind)) (b, h) =
    let found = resolve records row.category_id bib in
    let key = key_of found.0 row.category_id bib in
    let first = get s.seen key in
    let new = reviewed distances row bib kind found first in
    (
      Bounded-push s key row bib new first b,
      Tracks-push s key row bib first new refl (reviewed_key distances row bib kind found first)
          (reviewed_dup distances row bib kind found first) b h,
    )

Tracked-review_rows :
    (records : List IndexedRecord) (distances : Dict ℕ ℕ) (s : Loop) (parsed : List ParsedRow)
    → Tracked s
    → Tracked (review_rows records distances s parsed)
unfolding review_rows review_row
Tracked-review_rows records distances s [] h = h
Tracked-review_rows records distances s (row ∷ parsed) h =
    Tracked-review_rows records distances (review_row records distances s row) parsed
      (Tracked-review_read records distances s row (read_row row) h)

Tracked-start : Tracked (record { seen = []; rows = [] })
unfolding get
Tracked-start = (λ k f e. cc, λ i r t e k. cc)

-- Two different rows of a review that name the same record are both marked as duplicates, the first
-- as well as the repeat, so neither is publishable.
pub repeated_rows_marked :
    (parsed : List ParsedRow) (records : List IndexedRecord) (categories : List CategoryDistance)
    (i j : ℕ) (r q : ReviewedRow) (t : ℕ)
    → i ≢ j
    → get_elem? (review_results parsed records categories).rows i ≡ some r
    → get_elem? (review_results parsed records categories).rows j ≡ some q
    → r.token_id ≡ some t
    → q.token_id ≡ some t
    → (any is_duplicate r.anomalies ≡ true) × (any is_duplicate q.anomalies ≡ true)
unfolding review_results
repeated_rows_marked parsed records categories i j r q t ne at_i at_j r_token q_token =
    let (_, tracks) =
      Tracked-review_rows records (distance_map categories) (record { seen = []; rows = [] }) parsed
        Tracked-start in
    let (f, first, place) = tracks i r t at_i r_token in
    let (g, again, place') = tracks j q t at_j q_token in
    let same : f.index ≡ g.index = ap index_of (some-injective f g (sym first ∙ again)) in
    elim place [
      | inl here ↦ elim place' [
        | inl there ↦ absurd (ne (here ∙ same ∙ sym there))
        | inr (m, firsts) ↦ (firsts r (rw (← same, ← here) at_i), m)
      ]
      | inr (m, firsts) ↦ elim place' [
        | inl there ↦ (m, firsts q (rw (same, ← there) at_j))
        | inr (m', _) ↦ (m, m')
      ]
    ]
  where
    index_of : Seen → ℕ
    index_of x = x.index
