-- ===== src/Indexer/Counts.antt =====
-- `entered_count` of a category, which an entry recounts from the records.
pub mod Steps
pub mod Pages
use sterun.Common.{
  ℕ, ◌+◌, ◌≤◌, true, false, not, ◌&&◌, ◌||◌, List, [], ◌∷◌, Option, none, some, ◌==◌, ==_iff,
  if◌then◌else◌, ◌≡◌, ◌≢◌, refl, sym, subst, ◌∙◌, arith, Bool, Bool-cases, Option-cases, inl, inr,
  ap, Dict, Eq, nat-Eq, string-Eq, pair-Eq, get, put, get-put, get-put_self, ◌⊎◌, String, leb, ltb,
  str_eq,
}
use sterun.Indexer.Chain.{
  RecordState, state-Eq, EventStatus, ChainEvent, ChainCategory, ChainRecord, DecodedEvent,
  event_created, category_added, event_status_changed, scanner_added, scanner_removed,
  slot_reserved, quota_increased, registration_closes_set, mint, record_entered,
  racepack_claimed_event, record_finished, record_finished_untimed, record_dnf, ChainEventEnvelope,
}
use sterun.Indexer.Tables.{
  Provenance, RecordRow, CategoryRow, EventRow, TransitionRow, Index, greatest, upsert_event,
  update_event, set_registration_closes, set_event_status, upsert_category, update_category,
  touch_category, raise_category_quota, count_records, recount_category, upsert_record, Advance,
  apply_record_transition, insert_transition, add_scanner, remove_scanner, link_participants,
}
use sterun.Indexer.Apply.{
  Reader, Hydration, event_is_indexed, orphan_unless, apply_created, apply_category, link_vault_row,
  apply_entered, advance_record, advance, apply_event, apply, Applied,
}

-- 1 for a record of the category.
abbrev in_category : ℕ × ℕ → RecordRow → ℕ
in_category (event_id, category_id) r =
    if r.event_id == event_id && r.category_id == category_id then 1 else 0

abbrev in_category? : ℕ × ℕ → Option RecordRow → ℕ
in_category? k none = 0
in_category? k (some r) = in_category k r

count_records-put :
    (m : Dict ℕ RecordRow) (t : ℕ) (r : RecordRow) (k : ℕ × ℕ)
    → count_records (put m t r) k.0 k.1 + in_category? k (get m t)
      ≡ count_records m k.0 k.1 + in_category k r
unfolding count_records get put
count_records-put [] t r k = omega arith
count_records-put ((j, w) ∷ m) t r k = elim (Bool-cases (j == t)) [
  | inl same ↦ rw same (omega arith)
  | inr other ↦ rw other (omega (arith, count_records-put m t r k))
]

-- The tables say of every category how many records it has, and no record has left the category that
-- its token has on chain.
pub record IsCounted (home : ℕ → ℕ × ℕ) (s : Index) : Type 0 where
  pub counted :
      (k : ℕ × ℕ) (row : CategoryRow)
      → get s.categories k ≡ some row
      → row.entered_count ≡ count_records s.records k.0 k.1
  pub settled :
      (token : ℕ) (r : RecordRow)
      → get s.records token ≡ some r
      → (r.event_id, r.category_id) ≡ home token

module _ (home : ℕ → ℕ × ℕ) where
  -- Neither the categories nor the records change.
  pub IsCounted-same :
      (s s' : Index)
      → s'.categories ≡ s.categories
      → s'.records ≡ s.records
      → IsCounted home s
      → IsCounted home s'
  IsCounted-same s s' cats recs h = record {
    counted = λ k row at. rw recs (h.counted k row (rw cats at at));
    settled = λ t r at. h.settled t r (rw recs at at);
  }

  -- As `IsCounted`, but of one category nothing is said.
  abbrev pub CountedBut : ℕ × ℕ → Index → Type 0
  CountedBut k0 s =
      ((k : ℕ × ℕ) (row : CategoryRow)
        → (pair-Eq {A = ℕ} {B = ℕ}).beq k0 k ≡ false
        → get s.categories k ≡ some row
        → row.entered_count ≡ count_records s.records k.0 k.1)
      × ((token : ℕ) (r : RecordRow)
          → get s.records token ≡ some r
          → (r.event_id, r.category_id) ≡ home token)

  pub CountedBut-same :
      (k : ℕ × ℕ) (s s' : Index)
      → s'.categories ≡ s.categories
      → s'.records ≡ s.records
      → CountedBut k s
      → CountedBut k s'
  CountedBut-same k s s' cats recs (others, settled) = (
    λ j row ne at. rw recs (others j row ne (rw cats at at)),
    λ t r at. settled t r (rw recs at at),
  )

  pub IsCounted-but : (k : ℕ × ℕ) (s : Index) → IsCounted home s → CountedBut k s
  IsCounted-but k s h = (λ j row ne at. h.counted j row at, h.settled)

  -- The row of the category left out is set, with the right count.
  pub put_category-IsCounted :
      (s : Index) (k : ℕ × ℕ) (row : CategoryRow)
      → row.entered_count ≡ count_records s.records k.0 k.1
      → CountedBut k s
      → IsCounted home (record s { categories = put s.categories k row })
  put_category-IsCounted s k row right (others, settled) = record {
    counted = λ j row' at. elim (Bool-cases ((pair-Eq {A = ℕ} {B = ℕ}).beq k j)) [
      | inl same ↦
          ground (arith, get-put s.categories k row j, right, ==_iff k.0 j.0, ==_iff k.1 j.1)
      | inr other ↦ others j row' other (ground (arith, get-put s.categories k row j, at))
    ];
    settled = settled;
  }

  -- Nothing has to be said of a category that is not indexed.
  unindexed-IsCounted :
      (s : Index) (k : ℕ × ℕ) → get s.categories k ≡ none → CountedBut k s → IsCounted home s
  unindexed-IsCounted s k missing (others, settled) = record {
    counted = λ j row at. elim (Bool-cases ((pair-Eq {A = ℕ} {B = ℕ}).beq k j)) [
      | inl same ↦ ground (arith, missing, at, ==_iff k.0 j.0, ==_iff k.1 j.1)
      | inr other ↦ others j row other at
    ];
    settled = settled;
  }

  -- A row of a category changes, its count not.
  pub update_category-IsCounted :
      (s : Index) (e c : ℕ) (f : CategoryRow → CategoryRow)
      → ((row : CategoryRow) → (f row).entered_count ≡ row.entered_count)
      → IsCounted home s
      → IsCounted home (update_category s e c f).0
  unfolding update_category
  update_category-IsCounted s e c f same h = elim (Option-cases (get s.categories (e, c))) [
    | inl missing ↦ rw (missing, update_category) h
    | inr (row, old) ↦
        rw (old, update_category)
          (put_category-IsCounted s (e, c) (f row) (same row ∙ h.counted (e, c) row old)
            (IsCounted-but (e, c) s h))
  ]

  pub recount_category-IsCounted :
      (s : Index) (e c : ℕ) → CountedBut (e, c) s → IsCounted home (recount_category s e c)
  unfolding recount_category update_category
  recount_category-IsCounted s e c h = elim (Option-cases (get s.categories (e, c))) [
    | inl missing ↦
        rw (missing, recount_category, update_category) (unindexed-IsCounted s (e, c) missing h)
    | inr (row, old) ↦
        rw (old, recount_category, update_category) (put_category-IsCounted s (e, c) _ refl h)
  ]

  in_category_of_home :
      (k0 k : ℕ × ℕ) (r : RecordRow)
      → (r.event_id, r.category_id) ≡ k0
      → (pair-Eq {A = ℕ} {B = ℕ}).beq k0 k ≡ false
      → in_category k r ≡ 0
  in_category_of_home (a, b) (c, d) r e ne = ground arith

  old_elsewhere :
      (s : Index) (token : ℕ) (r : RecordRow) (k : ℕ × ℕ)
      → (r.event_id, r.category_id) ≡ home token
      → (pair-Eq {A = ℕ} {B = ℕ}).beq (r.event_id, r.category_id) k ≡ false
      → IsCounted home s
      → in_category? k (get s.records token) ≡ 0
  old_elsewhere s token r k at ne h = elim (Option-cases (get s.records token)) [
    | inl none_yet ↦ rw none_yet refl
    | inr (old, has) ↦ rw has (
        in_category_of_home (r.event_id, r.category_id) k old (h.settled token old has ∙ sym at) ne)
  ]

  pub put_record-CountedBut :
      (s : Index) (token : ℕ) (r : RecordRow)
      → (r.event_id, r.category_id) ≡ home token
      → IsCounted home s
      → CountedBut (r.event_id, r.category_id) (record s { records = put s.records token r })
  put_record-CountedBut s token r at h = (
    λ k row ne has. omega (
      arith,
      h.counted k row has,
      count_records-put s.records token r k,
      in_category_of_home (r.event_id, r.category_id) k r refl ne,
      old_elsewhere s token r k at ne h,
    ),
    λ j q has. elim (Bool-cases (token == j)) [
      | inl same ↦ ground (arith, get-put s.records token r j, at, ==_iff token j)
      | inr other ↦ h.settled j q (ground (arith, get-put s.records token r j))
    ],
  )

  -- A record changes, its category not.
  pub change_record-IsCounted :
      (s : Index) (token : ℕ) (old r : RecordRow)
      → get s.records token ≡ some old
      → r.event_id ≡ old.event_id
      → r.category_id ≡ old.category_id
      → IsCounted home s
      → IsCounted home (record s { records = put s.records token r })
  change_record-IsCounted s token old r has e c h =
      let at : (r.event_id, r.category_id) ≡ home token = rw (e, c) (h.settled token old has) in
      let (_, settled) = put_record-CountedBut s token r at h in
      record {
        counted = λ k row in_cats.
            ground (arith, h.counted k row in_cats, count_records-put s.records token r k);
        settled = settled;
      }
