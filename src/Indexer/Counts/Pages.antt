-- ===== src/Indexer/Counts/Pages.antt =====
-- The counts after a poll.
use sterun.Common.{
  ℕ, true, false, List, [], ◌∷◌, ◌++◌, Option, none, some, ◌≡◌, refl, subst, arith, Bool-cases,
  Option-cases, inl, inr, ap, Dict, Eq, nat-Eq, pair-Eq, get, put, get-put,
}
use mathlib.Core.Option.{some-injective}
use sterun.Indexer.Chain.{
  DecodedEvent, category_added, ChainCategory, ChainRecord, ChainEventEnvelope,
}
use sterun.Indexer.Tables.{Index, is_logged, insert_chain_event, save_cursor}
use sterun.Indexer.Apply.{
  Reader, Hydration, hydrate, read_each, want_events, want_categories, want_records, apply,
}
use sterun.Indexer.Poll.{
  EventPage, Tally, apply_inserted, apply_page, PollResult, commit_page, poll_page, decode_page,
}
use sterun.Indexer.Counts.{IsCounted, IsCounted-same}
use sterun.Indexer.Counts.Steps.{InOrder, IsTrusted, Leaves, apply_event-Leaves}

-- What the contracts answer of a token and of a category: a token stays in one category, and a category
-- answers by its own ids.
pub record IsFaithful (home : ℕ → ℕ × ℕ) (reader : Reader) : Type 0 where
  pub record_of :
      (token : ℕ) (r : ChainRecord)
      → reader.record_of token ≡ some r
      → (r.event_id, r.category_id) ≡ home r.token_id
  pub get_category :
      (k : ℕ × ℕ) (c : ChainCategory)
      → reader.get_category k ≡ some c
      → (c.event_id, c.category_id) ≡ k

-- Every answer that was read satisfies what the reader's answers satisfy.
read_each-get :
    {K V : Type 0} ⦃e : Eq K⦄ (P : K → V → Type 0) (read : K → Option V) (m : Dict K V)
    (ks : List K) (m' : Dict K V)
    → ((k : K) (v : V) → read k ≡ some v → P k v)
    → ((k : K) (v : V) → get m k ≡ some v → P k v)
    → read_each read m ks ≡ some m'
    → (k : K) (v : V) → get m' k ≡ some v
    → P k v
unfolding read_each
read_each-get ⦃e⦄ P read m [] m' answers has same k v at = has k v (ground arith)
read_each-get ⦃e⦄ P read m (j ∷ js) m' answers has same k v at = elim (Option-cases (read j)) [
  | inl fails ↦ ground arith
  | inr (w, answer) ↦
      read_each-get P read (put m j w) js m' answers
        (λ i u at. elim (Bool-cases (e.beq j i)) [
          | inl here ↦
              subst (λ x. P x u) ((e.beq_iff j i).0 here)
                (answers j u (ground (arith, get-put m j w i, answer, here)))
          | inr other ↦ has i u (ground (arith, get-put m j w i))
        ])
        (rw answer at same) k v at
]

-- Each event of the page that is not logged yet comes in order, and the rest after it.
abbrev Then : Option (Index × Tally) → (Index → Tally → Type 0) → Type 0
Then none next = Unit
Then (some (s, t)) next = next s t

abbrev pub Orderly : Index → List ChainEventEnvelope → Hydration → Tally → Type 0
Orderly s [] h t = Unit
Orderly s (e ∷ es) h t =
    (is_logged s e.id ≡ false → InOrder s e.event)
    × Then (apply_inserted (insert_chain_event s e) e h t) (λ s' t'. Orderly s' es h t')

module _ (home : ℕ → ℕ × ℕ) where
  hydrate-IsTrusted :
      (reader : Reader) (es : List ChainEventEnvelope) (h : Hydration)
      → IsFaithful home reader
      → hydrate reader es ≡ some h
      → IsTrusted home h
  unfolding hydrate get
  hydrate-IsTrusted reader es h k same =
      elim (Option-cases (read_each reader.get_event [] (want_events [] es))) [
        | inl fails ↦ ground arith
        | inr (evs, e1) ↦
            elim (Option-cases (read_each reader.get_category [] (want_categories [] es))) [
              | inl fails ↦ ground arith
              | inr (cats, e2) ↦
                  elim (Option-cases (read_each reader.record_of [] (want_records [] es))) [
                    | inl fails ↦ ground arith
                    | inr (recs, e3) ↦
                        let read = some-injective _ _ (rw (e1, e2, e3) at same) in
                        subst (IsTrusted home) read (record {
                          records =
                              read_each-get
                                (λ token r. (r.event_id, r.category_id) ≡ home r.token_id)
                                reader.record_of [] (want_records [] es) recs k.record_of
                                (λ i u at. ground arith) e3;
                          categories =
                              read_each-get (λ k c. (c.event_id, c.category_id) ≡ k)
                                reader.get_category [] (want_categories [] es) cats k.get_category
                                (λ i u at. ground arith) e2;
                        })
                  ]
            ]
      ]

  InOrder-log :
      (s : Index) (l : List ChainEventEnvelope) (d : DecodedEvent)
      → InOrder s d
      → InOrder (record s { chain_events = l }) d
  InOrder-log s l (category_added event_id category_id price quota) o = o
  InOrder-log s l _ o = tt

  apply_inserted_new :
      (s : Index) (e : ChainEventEnvelope) (h : Hydration) (t : Tally) (r : Index × Tally)
      → apply_inserted (s, true) e h t ≡ some r
      → (n : ℕ) × (apply s e h ≡ some (r.0, n))
  unfolding apply_inserted
  apply_inserted_new s e h t r same = elim (Option-cases (apply s e h)) [
    | inl fails ↦ ground arith
    | inr ((s', n), done) ↦ (n, ground arith)
  ]

  apply_inserted-IsCounted :
      (s : Index) (e : ChainEventEnvelope) (h : Hydration) (t : Tally) (r : Index × Tally)
      → IsTrusted home h
      → (is_logged s e.id ≡ false → InOrder s e.event)
      → IsCounted home s
      → apply_inserted (insert_chain_event s e) e h t ≡ some r
      → IsCounted home r.0
  unfolding insert_chain_event apply_inserted apply
  apply_inserted-IsCounted s e h t r k o c same = elim (Bool-cases (is_logged s e.id)) [
    | inl old ↦
        subst (IsCounted home)
          (ap (λ (x : Index × Tally). x.0) (some-injective _ _ (rw old at same))) c
    | inr new ↦
        let log = s.chain_events ++ e ∷ [] in
        let s1 = record s { chain_events = log } in
        let left =
          apply_event-Leaves home s1 e h e.event k (InOrder-log s log e.event (o new))
            (IsCounted-same home s s1 refl refl c) in
        let (n, done) = apply_inserted_new s1 e h t r (rw new at same) in
        subst (Leaves home) done left
  ]

  pub apply_page-IsCounted :
      (s : Index) (es : List ChainEventEnvelope) (h : Hydration) (t : Tally) (r : Index × Tally)
      → IsTrusted home h
      → Orderly s es h t
      → IsCounted home s
      → apply_page s es h t ≡ some r
      → IsCounted home r.0
  unfolding apply_page
  apply_page-IsCounted s [] h t r k o c same =
      subst (IsCounted home) (ap (λ (x : Index × Tally). x.0) (some-injective _ _ same)) c
  apply_page-IsCounted s (e ∷ es) h t r k (o, os) c same =
      elim (Option-cases (apply_inserted (insert_chain_event s e) e h t)) [
        | inl fails ↦ ground arith
        | inr ((s1, t1), done) ↦
            apply_page-IsCounted s1 es h t1 r k (rw done at os)
              (apply_inserted-IsCounted s e h t (s1, t1) k o c done) (rw done at same)
      ]

  -- Where the contracts answer faithfully, so that a token stays in its category, a poll leaves every
  -- category with as many entries as the index has records of it, if it found them so: provided that
  -- each event of the page that is new and adds a category comes before the first entry in it.
  pub poll_page-IsCounted :
      (reader : Reader) (page : EventPage) (s : Index) (es : List ChainEventEnvelope) (ignored : ℕ)
      (h : Hydration) (r : Index × PollResult)
      → IsFaithful home reader
      → decode_page page.events ≡ some (es, ignored)
      → hydrate reader es ≡ some h
      → Orderly s es h (record { applied = 0; duplicates = 0; orphans = 0 })
      → IsCounted home s
      → poll_page reader page s ≡ some r
      → IsCounted home r.0
  unfolding poll_page commit_page save_cursor
  poll_page-IsCounted reader page s es ignored h r faithful decoded hydrated o c same =
      let start : Tally = record { applied = 0; duplicates = 0; orphans = 0 } in
      elim (Option-cases (apply_page s es h start)) [
        | inl fails ↦
            let never : none ≡ some r = rw (decoded, hydrated, fails) at same in ground arith
        | inr ((s1, t1), done) ↦
            let counted =
              apply_page-IsCounted s es h start (s1, t1)
                (hydrate-IsTrusted reader es h faithful hydrated) o c done in
            let last = some-injective _ _ (rw (decoded, hydrated, done) at same) in
            subst (IsCounted home) (ap (λ (x : Index × PollResult). x.0) last)
              (IsCounted-same home s1 _ refl refl counted)
      ]
