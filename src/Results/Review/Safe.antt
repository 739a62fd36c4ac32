-- ===== src/Results/Review/Safe.antt =====
-- What a row without an anomaly promises about the record that it is published to.
use sterun.Common.{
  ℕ, ◌*◌, ◌<◌, ◌≤◌, List, [], ◌∷◌, ◌++◌, Option, none, some, filter, In, append-nil, append_assoc,
  Dict, nat-Eq, pair-Eq, get, put, get-put, ◌≡◌, refl, ◌≢◌, ◌⊎◌, inl, inr, arith, ◌==◌, ==_iff,
  Bool-cases, eq_iff, String, ◌&&◌, sym, ap, ◌∙◌, refl,
}
use sterun.Results.Row.{ParsedRow, ResultKind, timed, dnf}
use sterun.Results.Anomaly.{
  ReviewedRow, IndexedRecord, CategoryDistance, max_plausible_finish_s, time_anomaly, pair_map,
  or_empty, bib_map, distance_map, resolve_bib, resolve_pair, resolve, lifecycle,
}

-- The records of an event that carry a bib.
abbrev pub with_bib : ℕ → List IndexedRecord → List IndexedRecord
with_bib bib = filter (λ r. r.bib_no == bib)

bib_map_lem :
    (m : Dict ℕ (List IndexedRecord)) (rs : List IndexedRecord) (bib : ℕ)
    → or_empty (get (bib_map m rs) bib) ≡ or_empty (get m bib) ++ with_bib bib rs
unfolding bib_map
bib_map_lem m [] bib = rw append-nil
bib_map_lem m (r ∷ rs) bib = elim (Bool-cases (r.bib_no == bib)) [
  | inl e ↦
      rw
        (
          bib_map_lem (put m r.bib_no (or_empty (get m r.bib_no) ++ r ∷ [])) rs bib,
          get-put,
          e,
          (==_iff r.bib_no bib).0 e,
        )
        (rw append_assoc)
  | inr e ↦
      rw (bib_map_lem (put m r.bib_no (or_empty (get m r.bib_no) ++ r ∷ [])) rs bib, get-put, e)
]

pair_map_lem :
    (m : Dict (ℕ × ℕ) IndexedRecord) (rs : List IndexedRecord) (c b : ℕ) (r : IndexedRecord)
    → get (pair_map m rs) (c, b) ≡ some r
    → (get m (c, b) ≡ some r) ⊎ (In r rs × (r.category_id ≡ c) × (r.bib_no ≡ b))
unfolding pair_map
pair_map_lem m [] c b r h = inl h
pair_map_lem m (q ∷ rs) c b r h =
    elim (pair_map_lem (put m (q.category_id, q.bib_no) q) rs c b r h) [
      | inl e ↦ ground (arith, get-put m (q.category_id, q.bib_no) q (c, b))
      | inr (later, category, bib) ↦ inr (inr later, category, bib)
    ]

-- The records of an event with a category and a bib.
abbrev pub with_pair : ℕ → ℕ → List IndexedRecord → List IndexedRecord
with_pair c b = filter (λ r. r.category_id == c && r.bib_no == b)

-- The last of a list, or what came before it.
abbrev last_after : Option IndexedRecord → List IndexedRecord → Option IndexedRecord
last_after o [] = o
last_after o (r ∷ rs) = last_after (some r) rs

pair_map-last :
    (m : Dict (ℕ × ℕ) IndexedRecord) (rs : List IndexedRecord) (c b : ℕ)
    → get (pair_map m rs) (c, b) ≡ last_after (get m (c, b)) (with_pair c b rs)
unfolding pair_map
pair_map-last m [] c b = refl
pair_map-last m (q ∷ rs) c b =
    rw (pair_map-last (put m (q.category_id, q.bib_no) q) rs c b, get-put)
      (elim (Bool-cases (q.category_id == c && q.bib_no == b)) [
        | inl e ↦ rw e refl
        | inr e ↦ rw e refl
      ])

last_after-some :
    (q r : IndexedRecord) (rs : List IndexedRecord)
    → last_after (some q) rs ≡ some r
    → (others : List IndexedRecord) × (q ∷ rs ≡ others ++ r ∷ [])
last_after-some q r [] h = ([], ground arith)
last_after-some q r (s ∷ rs) h =
    let (others, e) = last_after-some s r rs h in (q ∷ others, ap (λ l. q ∷ l) e)

last_after-none :
    (r : IndexedRecord) (rs : List IndexedRecord)
    → last_after none rs ≡ some r
    → (others : List IndexedRecord) × (rs ≡ others ++ r ∷ [])
last_after-none r [] h = absurd (cc h)
last_after-none r (q ∷ rs) h = last_after-some q r rs h

-- The record that a row names: the last that has its category and bib, or the only one that has its
-- bib where the row gives no category.
abbrev pub Names : List IndexedRecord → Option ℕ → ℕ → IndexedRecord → Type 0
Names records (some category) bib r =
    In r records
    × (r.category_id ≡ category)
    × (r.bib_no ≡ bib)
    × (others : List IndexedRecord) × (with_pair category bib records ≡ others ++ r ∷ [])
Names records none bib r = with_bib bib records ≡ r ∷ []

resolve_bib_lem :
    (bib : ℕ) (rs : List IndexedRecord)
    → (resolve_bib bib rs).1 ≡ []
    → (r : IndexedRecord) × ((resolve_bib bib rs).0 ≡ some r) × (rs ≡ r ∷ [])
unfolding resolve_bib
resolve_bib_lem bib [] h = cc
resolve_bib_lem bib (r ∷ []) h = (r, refl, refl)
resolve_bib_lem bib (r ∷ s ∷ rs) h = cc

resolve_pair_lem :
    (category bib : ℕ) (o : Option IndexedRecord)
    → (resolve_pair category bib o).1 ≡ []
    → (r : IndexedRecord) × ((resolve_pair category bib o).0 ≡ some r) × (o ≡ some r)
unfolding resolve_pair
resolve_pair_lem category bib none h = cc
resolve_pair_lem category bib (some r) h = (r, refl, refl)

pub resolve_lem :
    (records : List IndexedRecord) (category : Option ℕ) (bib : ℕ)
    → (resolve records category bib).1 ≡ []
    → (r : IndexedRecord) × ((resolve records category bib).0 ≡ some r)
      × Names records category bib r
unfolding resolve get
resolve_lem records (some category) bib h =
    let (r, found, at) = resolve_pair_lem category bib _ h in
    let (others, last) =
      last_after-none r (with_pair category bib records)
        (sym (pair_map-last [] records category bib) ∙ at) in
    elim (pair_map_lem [] records category bib r at) [
      | inl e ↦ absurd (cc e)
      | inr (listed, of_category, of_bib) ↦ (r, found, (listed, of_category, of_bib, others, last))
    ]
resolve_lem records none bib h =
    let (r, found, only) = resolve_bib_lem bib _ h in
    (r, found, ground (arith, only, bib_map_lem [] records bib))

-- The contract takes this kind of result for a record in this state.
pub record IsAccepted (state : String) (kind : ResultKind) : Type 0 where
  pub not_finished : state ≢ "Finished"
  pub not_dnf : state ≢ "Dnf"
  pub collected : (kind ≡ dnf) ⊎ (state ≢ "Entered")

pub lifecycle_lem :
    (r : IndexedRecord) (kind : ResultKind) (bib : ℕ)
    → lifecycle (some r) kind bib ≡ []
    → IsAccepted r.state kind
unfolding lifecycle
lifecycle_lem r kind bib h =
    ground (arith, eq_iff r.state "Finished", eq_iff r.state "Dnf", eq_iff r.state "Entered")

-- A time that a person can have run: positive, within a day, and no faster than 12.5 metres per
-- second over the distance of the category, where that is known.
pub record IsPlausible (t : ℕ) (distance : Option ℕ) : Type 0 where
  pub positive : 0 < t
  pub within_a_day : t ≤ max_plausible_finish_s
  pub not_too_fast : (d : ℕ) → distance ≡ some d → 2 * d ≤ 25 * t

pub time_anomaly_lem : (t : ℕ) (o : Option ℕ) → time_anomaly t o ≡ [] → IsPlausible t o
unfolding time_anomaly
time_anomaly_lem t none h = record {
  positive = ground arith;
  within_a_day = ground arith;
  not_too_fast = λ d e. cc;
}
time_anomaly_lem t (some m) h = record {
  positive = ground arith;
  within_a_day = ground arith;
  not_too_fast = λ d e. ground arith;
}

-- What a publishable row promises: it asks for one kind of result for one record of the event,
-- which the row alone determines and whose state the contract accepts it in; a timed row has a
-- plausible time.
pub record IsPublishable (records : List IndexedRecord) (categories : List CategoryDistance)
    (row : ParsedRow) (r : ReviewedRow) : Type 0 where
  pub bib : ℕ
  pub kind : ResultKind
  pub target : IndexedRecord
  pub unread : row.problem ≡ none
  pub has_bib : row.bib_no ≡ some bib
  pub has_kind : r.kind ≡ some kind
  pub asked : row.kind ≡ some kind
  pub named : Names records row.category_id bib target
  pub token : r.token_id ≡ some target.token_id
  pub accepted : IsAccepted target.state kind
  pub plausible :
      kind ≡ timed
      → (t : ℕ) × (r.finish_time_s ≡ some t)
        × IsPlausible t (get (distance_map categories) target.category_id)
