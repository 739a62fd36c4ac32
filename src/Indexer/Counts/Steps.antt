-- ===== src/Indexer/Counts/Steps.antt =====
-- Events and pages keep the counts.
use sterun.Common.Int.{ℤ, int_eq}
use sterun.Common.{
  ℕ, true, false, not, ◌||◌, Option, none, some, ◌==◌, if◌then◌else◌, ◌≡◌, refl, sym, subst, arith,
  Bool, Bool-cases, Option-cases, inl, inr, nat-Eq, string-Eq, pair-Eq, get, ◌⊎◌, String, leb, ltb,
  str_eq,
}
use sterun.Indexer.Chain.{
  state-Eq, ChainEvent, ChainCategory, ChainRecord, DecodedEvent, event_created, category_added,
  event_status_changed, scanner_added, scanner_removed, slot_reserved, quota_increased,
  registration_closes_set, mint, record_entered, racepack_claimed_event, record_finished,
  record_finished_untimed, record_dnf, ChainEventEnvelope,
}
use sterun.Indexer.Tables.{
  Provenance, CategoryRow, EventRow, TransitionRow, Index, greatest, upsert_event, update_event,
  set_registration_closes, set_event_status, upsert_category, update_category, touch_category,
  raise_category_quota, count_records, upsert_record, Advance, apply_record_transition,
  insert_transition, add_scanner, remove_scanner, link_participants,
}
use sterun.Indexer.Apply.{
  Hydration, event_at, orphan_unless, apply_created, apply_category, link_vault_row, apply_entered,
  advance_record, advance, apply_event, Applied,
}
use sterun.Indexer.Counts.{
  IsCounted, IsCounted-same, CountedBut-same, CountedBut, put_category-IsCounted,
  update_category-IsCounted, recount_category-IsCounted, IsCounted-but, put_record-CountedBut,
  change_record-IsCounted,
}

-- A category is added before its first entry, or again.
abbrev pub InOrder : Index → DecodedEvent → Type 0
InOrder s (category_added event_id category_id price quota) =
    ((row : CategoryRow) × (get s.categories (event_id, category_id) ≡ some row))
    ⊎ (count_records s.records event_id category_id ≡ 0)
InOrder s _ = Unit

pub record IsTrusted (home : ℕ → ℕ × ℕ) (h : Hydration) : Type 0 where
  pub records :
      (token : ℕ) (r : ChainRecord)
      → get h.records token ≡ some r
      → (r.event_id, r.category_id) ≡ home r.token_id
  pub categories :
      (k : ℕ × ℕ) (c : ChainCategory)
      → get h.categories k ≡ some c
      → (c.event_id, c.category_id) ≡ k

abbrev Same : Index → Index → Type 0
Same s s' = (s'.categories ≡ s.categories) × (s'.records ≡ s.records)

insert_transition-Same : (s : Index) (t : TransitionRow) → Same s (insert_transition s t)
unfolding insert_transition
insert_transition-Same s t = ground arith

link_vault_row-Same : (s : Index) (token : ℕ) (tx : String) → Same s (link_vault_row s token tx)
unfolding link_vault_row link_participants
link_vault_row-Same s token tx = ground arith

-- The count that a category's row has after it is added.
upsert_category_count :
    (s : Index) (k : ℕ × ℕ)
    → ((row : CategoryRow) × (get s.categories k ≡ some row))
      ⊎ (count_records s.records k.0 k.1 ≡ 0)
    → ((row : CategoryRow)
        → get s.categories k ≡ some row
        → row.entered_count ≡ count_records s.records k.0 k.1)
    → elim (get s.categories k) [ none ↦ 0 | some row ↦ greatest row.entered_count 0 ]
      ≡ count_records s.records k.0 k.1
unfolding greatest
upsert_category_count s k first right = elim (Option-cases (get s.categories k)) [
  | inl missing ↦ rw missing (ground (arith, first, missing))
  | inr (row, old) ↦ rw old (ground (arith, right row old))
]

module _ (home : ℕ → ℕ × ℕ) where
  insert_transition-IsCounted :
      (s : Index) (t : TransitionRow) → IsCounted home s → IsCounted home (insert_transition s t)
  insert_transition-IsCounted s t h =
      let (cats, recs) = insert_transition-Same s t in
      IsCounted-same home s (insert_transition s t) cats recs h

  insert_transition-CountedBut :
      (k : ℕ × ℕ) (s : Index) (t : TransitionRow)
      → CountedBut home k s
      → CountedBut home k (insert_transition s t)
  insert_transition-CountedBut k s t h =
      let (cats, recs) = insert_transition-Same s t in
      CountedBut-same home k s (insert_transition s t) cats recs h

  link_vault_row-IsCounted :
      (s : Index) (token : ℕ) (tx : String)
      → IsCounted home s
      → IsCounted home (link_vault_row s token tx)
  link_vault_row-IsCounted s token tx h =
      let (cats, recs) = link_vault_row-Same s token tx in
      IsCounted-same home s (link_vault_row s token tx) cats recs h

  apply_record_transition-IsCounted :
      (s : Index) (token : ℕ) (next : Advance) (at : Provenance)
      → IsCounted home s
      → IsCounted home (apply_record_transition s token next at)
  unfolding apply_record_transition
  apply_record_transition-IsCounted s token next at h = elim (Option-cases (get s.records token)) [
    | inl missing ↦ rw (missing, apply_record_transition) h
    | inr (old, has) ↦
        rw (has, apply_record_transition)
          (change_record-IsCounted home s token old _ has refl refl h)
  ]

  -- What an applied event leaves is counted.
  abbrev pub Leaves : Applied → Type 0
  Leaves none = Unit
  Leaves (some (s, orphan)) = IsCounted home s

  apply_created-Leaves :
      (s : Index) (e : ChainEventEnvelope) (o : String) (c : Option ChainEvent)
      → IsCounted home s
      → Leaves (apply_created s e o c)
  unfolding apply_created upsert_event
  apply_created-Leaves s e o none h = tt
  apply_created-Leaves s e o (some c) h = elim (Bool-cases (str_eq c.organiser o)) [
    | inl same ↦ rw same (IsCounted-same home s _ refl refl h)
    | inr other ↦ rw other tt
  ]

  advance-Leaves :
      (s : Index) (e : ChainEventEnvelope) (token : ℕ) (next : Advance)
      → IsCounted home s
      → Leaves (advance s e token next)
  unfolding advance advance_record
  advance-Leaves s e token next h = elim (Option-cases (get s.records token)) [
    | inl missing ↦ rw (missing, advance) h
    | inr (old, has) ↦
        rw (has, advance)
          (insert_transition-IsCounted _ _
            (apply_record_transition-IsCounted s token next (event_at e) h))
  ]

  apply_category-Leaves :
      (s : Index) (e : ChainEventEnvelope) (k : ℕ × ℕ) (price : ℤ) (quota : ℕ)
      (c : Option ChainCategory)
      → ((row : CategoryRow) × (get s.categories k ≡ some row))
        ⊎ (count_records s.records k.0 k.1 ≡ 0)
      → ((cat : ChainCategory) → c ≡ some cat → (cat.event_id, cat.category_id) ≡ k)
      → IsCounted home s
      → Leaves (apply_category s e price quota c)
  unfolding apply_category upsert_category
  apply_category-Leaves s e k price quota none first ids h = tt
  apply_category-Leaves s e k price quota (some c) first ids h =
      elim (Bool-cases (ltb c.quota quota || not (int_eq c.price_stroops price))) [
        | inl bad ↦ rw bad tt
        | inr fine ↦ rw fine (
            let key : ℕ × ℕ = (c.event_id, c.category_id) in
            let first' =
              subst
                (λ j.
                  ((row : CategoryRow) × (get s.categories j ≡ some row))
                  ⊎ (count_records s.records j.0 j.1 ≡ 0))
                (sym (ids c refl)) first in
            put_category-IsCounted home s key _
              (upsert_category_count s key first' (λ row at. h.counted key row at))
              (IsCounted-but home key s h))
      ]

  update_event-Leaves :
      (s : Index) (e : ℕ) (f : EventRow → EventRow)
      → IsCounted home s
      → Leaves (orphan_unless (update_event s e f))
  unfolding update_event
  update_event-Leaves s e f h = elim (Option-cases (get s.events e)) [
    | inl missing ↦ rw (missing, update_event) h
    | inr (row, old) ↦ rw (old, update_event) (IsCounted-same home s _ refl refl h)
  ]

  apply_entered-Leaves :
      (s : Index) (e : ChainEventEnvelope) (runner : String) (event_id bib_no token : ℕ)
      (r : Option ChainRecord)
      → ((rec : ChainRecord) → r ≡ some rec → (rec.event_id, rec.category_id) ≡ home rec.token_id)
      → IsCounted home s
      → Leaves (apply_entered s e runner event_id bib_no token r)
  unfolding apply_entered upsert_record
  apply_entered-Leaves s e runner event_id bib_no token none at h = tt
  apply_entered-Leaves s e runner event_id bib_no token (some r) at h =
      elim (Bool-cases (not (r.event_id == event_id) || not (r.bib_no == bib_no))) [
        | inl bad ↦ rw bad tt
        | inr fine ↦ rw fine (
            let key : ℕ × ℕ = (r.event_id, r.category_id) in
            link_vault_row-IsCounted _ token e.tx_hash (
              recount_category-IsCounted home _ r.event_id r.category_id (
                insert_transition-CountedBut key _ _
                  (put_record-CountedBut home s r.token_id _ (at r refl) h))))
      ]

  add_scanner-Leaves :
      (s : Index) (e : ℕ) (a : String) (l : ℕ) (b : Bool)
      → IsCounted home s
      → Leaves (if b then some (s, 1) else some (add_scanner s e a l, 0))
  unfolding add_scanner
  add_scanner-Leaves s e a l true h = h
  add_scanner-Leaves s e a l false h = IsCounted-same home s _ refl refl h

  remove_scanner-Leaves :
      (s : Index) (e : ℕ) (a : String) (l : ℕ) (b : Bool)
      → IsCounted home s
      → Leaves (if b then some (s, 1) else some (remove_scanner s e a l, 0))
  unfolding remove_scanner
  remove_scanner-Leaves s e a l true h = h
  remove_scanner-Leaves s e a l false h = elim (Option-cases (get s.scanners (e, a))) [
    | inl missing ↦ rw (missing, remove_scanner) h
    | inr (row, old) ↦ rw (old, remove_scanner) (IsCounted-same home s _ refl refl h)
  ]

  update_category-Leaves :
      (s : Index) (e c : ℕ) (f : CategoryRow → CategoryRow)
      → ((row : CategoryRow) → (f row).entered_count ≡ row.entered_count)
      → IsCounted home s
      → Leaves (orphan_unless (update_category s e c f))
  update_category-Leaves s e c f same h = update_category-IsCounted home s e c f same h

  raise_category_quota-Leaves :
      (s : Index) (e c q : ℕ) (at : Provenance)
      → IsCounted home s
      → Leaves (orphan_unless (raise_category_quota s e c q at))
  unfolding raise_category_quota
  raise_category_quota-Leaves s e c q at h = update_category-IsCounted home s e c _ (λ row. refl) h

  category-Leaves :
      (s : Index) (b : Bool) (a : Applied)
      → IsCounted home s
      → Leaves a
      → Leaves (if b then some (s, 1) else a)
  category-Leaves s true a h k = h
  category-Leaves s false a h k = k

  pub apply_event-Leaves :
      (s : Index) (e : ChainEventEnvelope) (h : Hydration) (d : DecodedEvent)
      → IsTrusted home h
      → InOrder s d
      → IsCounted home s
      → Leaves (apply_event s e h d)
  unfolding apply_event set_event_status set_registration_closes touch_category
  apply_event-Leaves s e h (event_created event_id organiser) k o c =
      apply_created-Leaves s e organiser _ c
  apply_event-Leaves s e h (category_added event_id category_id price quota) k o c =
      category-Leaves s _ _ c (
        apply_category-Leaves s e (event_id, category_id) price quota _ o
          (λ cat at. k.categories _ cat at) c)
  apply_event-Leaves s e h (event_status_changed event_id status) k o c =
      update_event-Leaves s event_id _ c
  apply_event-Leaves s e h (scanner_added event_id scanner) k o c =
      add_scanner-Leaves s event_id scanner e.ledger _ c
  apply_event-Leaves s e h (scanner_removed event_id scanner) k o c =
      remove_scanner-Leaves s event_id scanner e.ledger _ c
  apply_event-Leaves s e h (slot_reserved event_id category_id seq) k o c =
      update_category-Leaves s event_id category_id _ (λ row. refl) c
  apply_event-Leaves s e h (quota_increased event_id category_id previous current) k o c =
      elim (Bool-cases (leb current previous)) [
        | inl falls ↦ rw (falls, apply_event) tt
        | inr rises ↦
            rw (rises, apply_event)
              (raise_category_quota-Leaves s event_id category_id current (event_at e) c)
      ]
  apply_event-Leaves s e h (registration_closes_set event_id previous current) k o c =
      update_event-Leaves s event_id _ c
  apply_event-Leaves s e h (mint to token_id) k o c = c
  apply_event-Leaves s e h (record_entered runner event_id bib_no token_id) k o c =
      apply_entered-Leaves s e runner event_id bib_no token_id _ (k.records token_id) c
  apply_event-Leaves s e h (racepack_claimed_event token_id event_id operator) k o c =
      advance-Leaves s e token_id _ c
  apply_event-Leaves s e h (record_finished token_id event_id finish_time_s) k o c =
      advance-Leaves s e token_id _ c
  apply_event-Leaves s e h (record_finished_untimed token_id event_id) k o c =
      advance-Leaves s e token_id _ c
  apply_event-Leaves s e h (record_dnf token_id event_id) k o c = advance-Leaves s e token_id _ c
