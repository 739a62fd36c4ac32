-- ===== src/Indexer/Rebuild/Categories.antt =====
-- The categories that a rebuild writes.
use sterun.Common.{
  ℕ, ◌⊎◌, ◌+◌, ◌≤◌, ◌<◌, zero, suc, List, none, some, ◌≡◌, refl, sym, subst, ◌∙◌, arith, Bool-cases,
  inl, inr, nat-Eq, pair-Eq, get, get-put, get-put_self, ◌==◌, false, ◌&&◌,
}
use mathlib.Core.Option.{some-injective}
use sterun.Indexer.Chain.{ChainCategory}
use sterun.Indexer.Tables.{Provenance, Index, upsert_category}
use sterun.Indexer.Apply.{Reader}
use sterun.Indexer.Rebuild.{
  read_range, WalkedEvent, walk_event, upsert_categories, write_categories,
}
use sterun.Indexer.Rebuild.Ranges.{
  read_range-nil, read_range-cons, AnswersById, Walked, walk_event-Walked,
}
use sterun.Indexer.Doctor.Agreement.{CategoryAgrees}

pub CategoryAgrees-get :
    (reader : Reader) (s s' : Index) (i c : ℕ)
    → get s'.categories (i, c) ≡ get s.categories (i, c)
    → CategoryAgrees reader s i c
    → CategoryAgrees reader s' i c
CategoryAgrees-get reader s s' i c same a = record {
  on_chain = a.on_chain;
  row = a.row;
  answered = a.answered;
  indexed = same ∙ a.indexed;
  quota = a.quota;
  entered_count = a.entered_count;
  price = a.price;
}

-- `m` categories of the event `i` have been written from `c` on.
record ListWritten (reader : Reader) (i c m : ℕ) (s s' : Index) : Type 0 where
  events : s'.events ≡ s.events
  records : s'.records ≡ s.records
  kept :
      (a b : ℕ)
      → ((a < i) ⊎ (i < a)) ⊎ ((b < c) ⊎ (c + m ≤ b))
      → get s'.categories (a, b) ≡ get s.categories (a, b)
  agrees : (j : ℕ) → c ≤ j → j < c + m → CategoryAgrees reader s' i j

upsert_category-ListWritten :
    (reader : Reader) (at : Provenance) (a : ChainCategory) (s : Index)
    → reader.get_category (a.event_id, a.category_id) ≡ some a
    → get s.categories (a.event_id, a.category_id) ≡ none
    → ListWritten reader a.event_id a.category_id 1 s (upsert_category s a at)
unfolding upsert_category
upsert_category-ListWritten reader at a s read fresh = record {
  events = refl;
  records = refl;
  kept = λ e c out.
      let other : (a.event_id == e && a.category_id == c) ≡ false = ground arith in
      get-put s.categories (a.event_id, a.category_id) _ (e, c) ∙ rw other refl;
  agrees = λ j from below.
      let here : a.category_id ≡ j = omega arith in
      subst (CategoryAgrees reader (upsert_category s a at) a.event_id) here (record {
        on_chain = a;
        row = _;
        answered = read;
        indexed = get-put_self s.categories (a.event_id, a.category_id) _;
        quota = rw fresh refl;
        entered_count = rw fresh refl;
        price = refl;
      });
}

ListWritten-next :
    (reader : Reader) (i c m : ℕ) (s s1 s' : Index)
    → ListWritten reader i c 1 s s1
    → ListWritten reader i (suc c) m s1 s'
    → ListWritten reader i c (suc m) s s'
ListWritten-next reader i c m s s1 s' here later = record {
  events = later.events ∙ here.events;
  records = later.records ∙ here.records;
  kept = λ a b out. later.kept a b (ground arith) ∙ here.kept a b (ground arith);
  agrees = λ j from below. elim (Bool-cases (c == j)) [
    | inl same ↦
        CategoryAgrees-get reader s1 s' i j (later.kept i j (ground arith))
          (here.agrees j from (ground arith))
    | inr other ↦ later.agrees j (ground arith) (omega arith)
  ];
}

upsert_categories-ListWritten :
    (reader : Reader) (own : AnswersById reader) (at : Provenance) (i c m : ℕ)
    (cats : List ChainCategory) (s : Index)
    → read_range (λ b. reader.get_category (i, b)) c m ≡ some cats
    → ((b : ℕ) → c ≤ b → get s.categories (i, b) ≡ none)
    → ListWritten reader i c m s (upsert_categories s cats at)
unfolding upsert_categories
upsert_categories-ListWritten reader own at i c zero cats s read fresh =
    subst (λ xs. ListWritten reader i c 0 s (upsert_categories s xs at))
      (sym (read_range-nil _ c cats read))
      (record {
        events = refl;
        records = refl;
        kept = λ a b out. refl;
        agrees = λ j from below. ground arith;
      })
upsert_categories-ListWritten reader own at i c (suc m) cats s read fresh =
    let (a, rest, now, later, e) =
      read_range-cons (λ b. reader.get_category (i, b)) c m cats read in
    let (key0, key1) = own.category i c a now in
    let s1 = upsert_category s a at in
    let here : ListWritten reader i c 1 s s1 =
      rw (← key0, ← key1)
        (upsert_category-ListWritten reader at a s (rw (key0, key1) now)
          (rw (key0, key1) (fresh c (omega arith)))) in
    subst (λ xs. ListWritten reader i c (suc m) s (upsert_categories s xs at)) (sym e)
      (ListWritten-next reader i c m s s1 _ here (
        upsert_categories-ListWritten reader own at i (suc c) m rest s1 later
          (λ b from. here.kept i b (ground arith) ∙ fresh b (omega arith))))

-- The categories of `n` events have been written from the event `i` on.
pub record CategoriesWritten (reader : Reader) (i n : ℕ) (s s' : Index) : Type 0 where
  pub events : s'.events ≡ s.events
  pub records : s'.records ≡ s.records
  pub kept : (a b : ℕ) → (a < i) ⊎ (i + n ≤ a) → get s'.categories (a, b) ≡ get s.categories (a, b)
  pub agrees :
      (j c count : ℕ)
      → i ≤ j
      → j < i + n
      → reader.category_count j ≡ some count
      → c < count
      → CategoryAgrees reader s' j c

event-CategoriesWritten :
    (reader : Reader) (own : AnswersById reader) (at : Provenance) (i : ℕ) (w : WalkedEvent)
    (s : Index)
    → Walked reader i w
    → ((b : ℕ) → get s.categories (i, b) ≡ none)
    → CategoriesWritten reader i 1 s (upsert_categories s w.categories at)
event-CategoriesWritten reader own at i w s walked fresh =
    let list =
      upsert_categories-ListWritten reader own at i 0 walked.count w.categories s walked.listed
        (λ b from. fresh b) in
    record {
      events = list.events;
      records = list.records;
      kept = λ a b out. list.kept a b (ground arith);
      agrees = λ j c count from below counted under.
          let here : i ≡ j = omega arith in
          let same = some-injective _ _ (
            sym walked.counted
            ∙ subst (λ t. reader.category_count t ≡ some count) (sym here) counted) in
          subst (λ t. CategoryAgrees reader (upsert_categories s w.categories at) t c) here
            (list.agrees c (omega arith) (ground (arith, same, under)));
    }

CategoriesWritten-next :
    (reader : Reader) (i n : ℕ) (s s1 s' : Index)
    → CategoriesWritten reader i 1 s s1
    → CategoriesWritten reader (suc i) n s1 s'
    → CategoriesWritten reader i (suc n) s s'
CategoriesWritten-next reader i n s s1 s' here later = record {
  events = later.events ∙ here.events;
  records = later.records ∙ here.records;
  kept = λ a b out. later.kept a b (ground arith) ∙ here.kept a b (ground arith);
  agrees = λ j c count from below counted under. elim (Bool-cases (i == j)) [
    | inl same ↦
        CategoryAgrees-get reader s1 s' j c (later.kept j c (ground arith))
          (here.agrees j c count from (ground arith) counted under)
    | inr other ↦ later.agrees j c count (ground arith) (omega arith) counted under
  ];
}

pub write_categories-CategoriesWritten :
    (reader : Reader) (own : AnswersById reader) (at : Provenance) (i n : ℕ) (ws : List WalkedEvent)
    (s : Index)
    → read_range (walk_event reader) i n ≡ some ws
    → ((a b : ℕ) → i ≤ a → get s.categories (a, b) ≡ none)
    → CategoriesWritten reader i n s (write_categories s ws at)
unfolding write_categories
write_categories-CategoriesWritten reader own at i zero ws s read fresh =
    subst (λ xs. CategoriesWritten reader i 0 s (write_categories s xs at))
      (sym (read_range-nil _ i ws read))
      (record {
        events = refl;
        records = refl;
        kept = λ a b out. refl;
        agrees = λ j c count from below counted under. ground arith;
      })
write_categories-CategoriesWritten reader own at i (suc n) ws s read fresh =
    let (w, rest, now, later, e) = read_range-cons (walk_event reader) i n ws read in
    let s1 = upsert_categories s w.categories at in
    let here =
      event-CategoriesWritten reader own at i w s (walk_event-Walked reader i w now)
        (λ b. fresh i b (omega arith)) in
    subst (λ xs. CategoriesWritten reader i (suc n) s (write_categories s xs at)) (sym e)
      (CategoriesWritten-next reader i n s s1 _ here (
        write_categories-CategoriesWritten reader own at (suc i) n rest s1 later
          (λ a b from. here.kept a b (ground arith) ∙ fresh a b (omega arith))))
