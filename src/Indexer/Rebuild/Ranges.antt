-- ===== src/Indexer/Rebuild/Ranges.antt =====
-- What a loop of reads has read, and what the contracts answer to it.
use sterun.Common.{
  ℕ, ◌+◌, ◌≤◌, ◌<◌, ◌==◌, ==_iff, Bool-cases, zero, suc, List, [], ◌∷◌, Option, some, ◌≡◌, sym,
  arith, Option-cases, inl, inr, subst,
}
use mathlib.Core.Option.{some-injective}
use sterun.Indexer.Chain.{ChainEvent, ChainCategory, ChainRecord}
use sterun.Indexer.Apply.{Reader}
use sterun.Indexer.Rebuild.{read_range, WalkedEvent, walk_event, WalkedRecord, walk_record}

module _ {A : Type 0} where
  pub read_range-nil :
      (read : ℕ → Option A) (i : ℕ) (xs : List A) → read_range read i 0 ≡ some xs → xs ≡ []
  unfolding read_range
  read_range-nil read i xs e = sym (some-injective _ _ e)

  pub read_range-cons :
      (read : ℕ → Option A) (i n : ℕ) (xs : List A)
      → read_range read i (suc n) ≡ some xs
      → (a : A) × (rest : List A) × (read i ≡ some a)
        × (read_range read (suc i) n ≡ some rest)
        × (xs ≡ a ∷ rest)
  unfolding read_range
  read_range-cons read i n xs e = elim (Option-cases (read i)) [
    | inl fails ↦ ground arith
    | inr (a, here) ↦ elim (Option-cases (read_range read (suc i) n)) [
      | inl fails ↦ ground arith
      | inr (rest, later) ↦ (a, rest, here, later, sym (some-injective _ _ (rw (here, later) at e)))
    ]
  ]

  -- Every turn of the loop has read something.
  pub read_range_at :
      (read : ℕ → Option A) (i n : ℕ) (xs : List A) (j : ℕ)
      → read_range read i n ≡ some xs
      → i ≤ j
      → j < i + n
      → (a : A) × (read j ≡ some a)
  read_range_at read i zero xs j e from below = ground arith
  read_range_at read i (suc n) xs j e from below =
      let (a, rest, now, later, made) = read_range-cons read i n xs e in
      elim (Bool-cases (i == j)) [
        | inl same ↦ (a, subst (λ k. read k ≡ some a) ((==_iff i j).0 same) now)
        | inr other ↦ read_range_at read (suc i) n rest j later (ground arith) (omega arith)
      ]

-- What is asked by an id is answered with that id.
pub record AnswersById (reader : Reader) : Type 0 where
  pub event : (i : ℕ) (e : ChainEvent) → reader.get_event i ≡ some e → e.event_id ≡ i
  pub category :
      (i c : ℕ) (a : ChainCategory)
      → reader.get_category (i, c) ≡ some a
      → (a.event_id ≡ i) × (a.category_id ≡ c)
  pub record' : (t : ℕ) (r : ChainRecord) → reader.record_of t ≡ some r → r.token_id ≡ t

pub walk_record-reads :
    (reader : Reader) (t : ℕ) (w : WalkedRecord)
    → walk_record reader t ≡ some w
    → reader.record_of t ≡ some w.chain
unfolding walk_record
walk_record-reads reader t w e = elim (Option-cases (reader.record_of t)) [
  | inl fails ↦ ground arith
  | inr (r, read) ↦ elim (Option-cases (reader.owner_of t)) [
    | inl fails ↦ ground arith
    | inr (o, owned) ↦ ground arith
  ]
]

-- What a walked event was read from.
pub record Walked (reader : Reader) (i : ℕ) (w : WalkedEvent) : Type 0 where
  pub count : ℕ
  pub answered : reader.get_event i ≡ some w.event
  pub closes : reader.registration_closes i ≡ some w.closes_at
  pub counted : reader.category_count i ≡ some count
  pub listed : read_range (λ c. reader.get_category (i, c)) 0 count ≡ some w.categories

pub walk_event-Walked :
    (reader : Reader) (i : ℕ) (w : WalkedEvent) → walk_event reader i ≡ some w → Walked reader i w
unfolding walk_event
walk_event-Walked reader i w e = elim (Option-cases (reader.get_event i)) [
  | inl fails ↦ ground arith
  | inr (ev, e1) ↦ elim (Option-cases (reader.registration_closes i)) [
    | inl fails ↦ ground arith
    | inr (closes, e2) ↦ elim (Option-cases (reader.category_count i)) [
      | inl fails ↦ ground arith
      | inr (n, e3) ↦ elim (Option-cases (read_range (λ c. reader.get_category (i, c)) 0 n)) [
        | inl fails ↦ ground arith
        | inr (cats, e4) ↦
            let made = some-injective _ _ (simp (e1, e2, e3, e4) at e) in
            subst (Walked reader i) made
              (record { count = n; answered = e1; closes = e2; counted = e3; listed = e4 })
      ]
    ]
  ]
]
