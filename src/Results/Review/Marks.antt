-- ===== src/Results/Review/Marks.antt =====
-- How the loop of `reviewResults` marks repeated rows: what holds of `seen` and the rows.
use sterun.Common.{
  ◌<◌, length, ◌⊎◌, ℕ, Bool, true, List, [], ◌∷◌, ◌++◌, Dict, Option, none, some, get_elem?, any,
  any-append, any-concat, get_elem?-concat, get, ◌≡◌, refl, arith, inl, inr, Bool-cases,
}
use sterun.Results.Anomaly.{Anomaly, ReviewedRow, IndexedRecord}
use sterun.Results.Row.{ParsedRow, ResultKind}
use sterun.Results.Review.{
  Key, by_token, key-Eq, key_of, is_duplicate, mark_first, Seen, duplicates, malformed, reviewed,
  Loop,
}

abbrev pub marked : ReviewedRow → Bool
marked r = any is_duplicate r.anomalies

-- Every row that names a record is where the record was first seen, or it and the row where it was
-- first seen are marked.
abbrev pub Tracks : Loop → Type 0
Tracks s =
    (i : ℕ) (r : ReviewedRow) (t : ℕ)
    → get_elem? s.rows i ≡ some r
    → r.token_id ≡ some t
    → (f : Seen) × (get s.seen (by_token t) ≡ some f)
      × ((i ≡ f.index)
          ⊎ ((marked r ≡ true)
              × ((q : ReviewedRow) → get_elem? s.rows f.index ≡ some q → marked q ≡ true)))

abbrev pub Bounded : Loop → Type 0
Bounded s = (k : Key) (f : Seen) → get s.seen k ≡ some f → f.index < length s.rows

pub marked-mark_first : (bib line : ℕ) (r : ReviewedRow) → marked (mark_first bib line r) ≡ true
unfolding mark_first
marked-mark_first bib line r = elim (Bool-cases (marked r)) [
  | inl old ↦ rw (old, mark_first) old
  | inr new ↦ rw (new, mark_first) (any-concat is_duplicate r.anomalies _ refl)
]

pub token_id-mark_first :
    (bib line : ℕ) (r : ReviewedRow) → (mark_first bib line r).token_id ≡ r.token_id
unfolding mark_first
token_id-mark_first bib line r = ground arith

-- A row is added that names no record seen before: what was true of the others stays true.
module _ (s : Loop) (new : ReviewedRow) (bounded : Bounded s) (h : Tracks s) where
  pub Tracks-old :
      (i : ℕ) (r : ReviewedRow) (t : ℕ)
      → get_elem? s.rows i ≡ some r
      → r.token_id ≡ some t
      → (f : Seen) × (get s.seen (by_token t) ≡ some f)
        × ((i ≡ f.index)
            ⊎ ((marked r ≡ true)
                × ((q : ReviewedRow)
                    → get_elem? (s.rows ++ new ∷ []) f.index ≡ some q
                    → marked q ≡ true)))
  Tracks-old i r t e k =
      let (f, at, place) = h i r t e k in
      (
        f,
        at,
        elim place [
          | inl here ↦ inl here
          | inr (m, firsts) ↦ inr (
            m,
            λ q e'. elim (get_elem?-concat s.rows new q f.index e') [
              | inl old ↦ firsts q old
              | inr (last, _) ↦ absurd (omega (arith, bounded (by_token t) f at))
            ],
          )
        ],
      )

pub Tracks-malformed :
    (s : Loop) (row : ParsedRow)
    → Bounded s
    → Tracks s
    → Tracks (record s { rows = s.rows ++ malformed row ∷ [] })
unfolding malformed
Tracks-malformed s row b h i r t e k = elim (get_elem?-concat s.rows (malformed row) r i e) [
  | inl old ↦ Tracks-old s (malformed row) b h i r t old k
  | inr (_, new) ↦ cc (new, k)
]

pub reviewed_key :
    (distances : Dict ℕ ℕ) (row : ParsedRow) (bib : ℕ) (kind : ResultKind)
    (found : Option IndexedRecord × List Anomaly) (first : Option Seen) (t : ℕ)
    → (reviewed distances row bib kind found first).token_id ≡ some t
    → key_of found.0 row.category_id bib ≡ by_token t
unfolding reviewed key_of
reviewed_key distances row bib kind (none, as') first t h = cc
reviewed_key distances row bib kind (some r, as') first t h = ground arith

pub reviewed-marked :
    (distances : Dict ℕ ℕ) (row : ParsedRow) (bib : ℕ) (kind : ResultKind)
    (found : Option IndexedRecord × List Anomaly) (first : Seen)
    → marked (reviewed distances row bib kind found (some first)) ≡ true
unfolding reviewed duplicates
reviewed-marked distances row bib kind (found, unresolved) first =
    rw (any-append is_duplicate unresolved _) (ground arith)
