-- ===== src/Indexer/Doctor/Sound.antt =====
-- When `doctor` finds nothing.
use sterun.Common.{
  ℕ, ◌+◌, ◌≤◌, ◌<◌, zero, suc, true, List, [], ◌∷◌, Option, none, some, ◌==◌, ==_iff, length,
  append-eq-nil, nat-Eq, pair-Eq, get, ◌≡◌, refl, sym, subst, ◌∙◌, ◌↔◌, ap, arith, Option-cases,
  Bool-cases, inl, inr,
}
use mathlib.Core.Option.{some-injective}
use sterun.Indexer.Chain.{ChainEvent}
use sterun.Indexer.Tables.{EventRow, Index}
use sterun.Indexer.Apply.{Reader}
use sterun.Indexer.Doctor.{
  DoctorFinding, DoctorReport, same_event, unless, check_range, check_category, check_event_row,
  check_event, check_record, report_of, doctor,
}
use sterun.Indexer.Doctor.Agreement.{
  CategoryAgrees, EventAgrees, RecordAgrees, Agrees, same_record_iff, same_event_iff,
  same_category_iff, unless_iff,
}

cannot {ℓ} : {A : Type ℓ} {a : A} → none ≡ some a → ⊥
cannot e = cc

check_range_iff :
    (f : ℕ → Option (List DoctorFinding)) (i n : ℕ)
    → (check_range f i n ≡ some []) ↔ ((j : ℕ) → i ≤ j → j < i + n → f j ≡ some [])
unfolding check_range
check_range_iff f i zero = (λ e j from below. ground arith, λ all. refl)
check_range_iff f i (suc n) =
    let later = check_range_iff f (suc i) n in
    (
      λ e. elim (Option-cases (f i)) [
        | inl fails ↦ absurd (cannot (rw fails at e))
        | inr (here, now) ↦ elim (Option-cases (check_range f (suc i) n)) [
          | inl fails ↦ absurd (cannot (rw (now, fails) at e))
          | inr (rest, after) ↦
              let (a, b) = append-eq-nil here rest (some-injective _ _ (rw (now, after) at e)) in
              λ j from below. elim (Bool-cases (i == j)) [
                | inl same ↦ rw (← (==_iff i j).0 same) (now ∙ ap some a)
                | inr other ↦
                    later.0 (after ∙ ap some b) j (ground (arith, ==_iff i j)) (omega arith)
              ]
        ]
      ],
      λ all.
          rw
            (
              all i (omega arith) (omega arith),
              later.1 (λ j from below. all j (omega arith) (omega arith)),
            )
            refl,
    )

cons_not_nil {ℓ} : {A : Type ℓ} {a : A} {as' : List A} → a ∷ as' ≡ [] → ⊥
cons_not_nil e = cc

check_record_iff :
    (reader : Reader) (s : Index) (t : ℕ)
    → (check_record reader s t ≡ some []) ↔ RecordAgrees reader s t
unfolding check_record
check_record_iff reader s t = (
  λ e. elim (Option-cases (reader.record_of t)) [
    | inl fails ↦ absurd (cannot (rw fails at e))
    | inr (r, read) ↦ elim (Option-cases (get s.records t)) [
      | inl missing ↦ absurd (cons_not_nil (some-injective _ _ (rw (read, missing) at e)))
      | inr (row, has) ↦
          let (state, bib, event, hash, time, addons) =
            (same_record_iff row r).0
              ((unless_iff _ _).0 (some-injective _ _ (rw (read, has) at e))) in
          record {
            on_chain = r;
            row = row;
            answered = read;
            indexed = has;
            state = state;
            bib_no = bib;
            event_id = event;
            participant_hash = hash;
            finish_time_s = time;
            addon_ids = addons;
          }
    ]
  ],
  λ a.
      rw (a.answered, a.indexed)
        (ap some (
          (unless_iff _ _).1 (
            (same_record_iff a.row a.on_chain).1
              (a.state, a.bib_no, a.event_id, a.participant_hash, a.finish_time_s, a.addon_ids)))),
)

check_category_iff :
    (reader : Reader) (s : Index) (e c : ℕ)
    → (check_category reader s e c ≡ some []) ↔ CategoryAgrees reader s e c
unfolding check_category
check_category_iff reader s e c = (
  λ found. elim (Option-cases (reader.get_category (e, c))) [
    | inl fails ↦ absurd (cannot (rw fails at found))
    | inr (cat, read) ↦ elim (Option-cases (get s.categories (e, c))) [
      | inl missing ↦ absurd (cons_not_nil (some-injective _ _ (rw (read, missing) at found)))
      | inr (row, has) ↦
          let (quota, count, price) =
            (same_category_iff row cat).0
              ((unless_iff _ _).0 (some-injective _ _ (rw (read, has) at found))) in
          record {
            on_chain = cat;
            row = row;
            answered = read;
            indexed = has;
            quota = quota;
            entered_count = count;
            price = price;
          }
    ]
  ],
  λ a.
      rw (a.answered, a.indexed)
        (ap some (
          (unless_iff _ _).1
            ((same_category_iff a.row a.on_chain).1 (a.quota, a.entered_count, a.price)))),
)

-- What is found of an event and its categories.
event_findings :
    (reader : Reader) (s : Index) (i : ℕ) (ev : ChainEvent) (row : EventRow)
    → reader.get_event i ≡ some ev
    → get s.events i ≡ some row
    → check_event_row reader s i ev (some row) ≡ some []
    → EventAgrees reader s i
unfolding check_event_row
event_findings reader s i ev row answered indexed found =
    elim (Option-cases (reader.registration_closes i)) [
      | inl fails ↦ absurd (cannot (rw fails at found))
      | inr (closes, closes_read) ↦ elim (Option-cases (reader.category_count i)) [
        | inl fails ↦ absurd (cannot (rw (closes_read, fails) at found))
        | inr (n, counted) ↦ elim (Option-cases (check_range (check_category reader s i) 0 n)) [
          | inl fails ↦ absurd (cannot (rw (closes_read, counted, fails) at found))
          | inr (cats, checked) ↦
              let (none_of_row, none_of_cats) =
                append-eq-nil (unless (same_event row ev closes) _) cats
                  (some-injective _ _ (rw (closes_read, counted, checked) at found)) in
              let (organiser, status, name, starts, closing) =
                (same_event_iff row ev closes).0 ((unless_iff _ _).0 none_of_row) in
              record {
                on_chain = ev;
                row = row;
                closes_at = closes;
                count = n;
                answered = answered;
                closes = closes_read;
                counted = counted;
                indexed = indexed;
                organiser = organiser;
                status = status;
                name = name;
                starts_at = starts;
                registration_closes_at = closing;
                categories = λ c below. (check_category_iff reader s i c).0 (
                    (check_range_iff (check_category reader s i) 0 n).0
                      (checked ∙ ap some none_of_cats) c (omega arith) (omega arith));
              }
        ]
      ]
    ]

check_event_iff :
    (reader : Reader) (s : Index) (i : ℕ)
    → (check_event reader s i ≡ some []) ↔ EventAgrees reader s i
unfolding check_event check_event_row
check_event_iff reader s i = (
  λ found. elim (Option-cases (reader.get_event i)) [
    | inl fails ↦ absurd (cannot (rw fails at found))
    | inr (ev, read) ↦ elim (Option-cases (get s.events i)) [
      | inl missing ↦ absurd (cons_not_nil (some-injective _ _ (rw (read, missing) at found)))
      | inr (row, has) ↦ event_findings reader s i ev row read has (rw (read, has) at found)
    ]
  ],
  λ a.
      let cats =
        (check_range_iff (check_category reader s i) 0 a.count).1
          (λ c from below. (check_category_iff reader s i c).1 (a.categories c (omega arith))) in
      let row = (unless_iff _ (DoctorFinding.event_differs i)).1 (
        (same_event_iff a.row a.on_chain a.closes_at).1
          (a.organiser, a.status, a.name, a.starts_at, a.registration_closes_at)) in
      rw (a.answered, a.indexed, a.closes, a.counted, cats, row) refl,
)

length-nil {ℓ} : {A : Type ℓ} (xs : List A) → (length xs == 0) ≡ true → xs ≡ []
length-nil [] e = refl
length-nil (x ∷ xs) e = ground arith

report_of-ok_iff :
    (s : Index) (n m : ℕ) (events records : List DoctorFinding)
    → ((report_of s n m events records).ok ≡ true)
      ↔ ((length s.events ≡ n) × (length s.records ≡ m) × (events ≡ []) × (records ≡ []))
unfolding report_of
report_of-ok_iff s n m events records = (
  λ ok.
      let (es, rest) = append-eq-nil (unless (length s.events == n) _) _ (length-nil _ ok) in
      let (rs, found) = append-eq-nil (unless (length s.records == m) _) _ rest in
      let (a, b) = append-eq-nil events records found in
      ((==_iff _ _).0 ((unless_iff _ _).0 es), (==_iff _ _).0 ((unless_iff _ _).0 rs), a, b),
  λ (es, rs, a, b).
      rw (a, b, (==_iff (length s.events) n).1 es, (==_iff (length s.records) m).1 rs) refl,
)

report-Agrees :
    (reader : Reader) (s : Index) (n m : ℕ) (events records : List DoctorFinding)
    → reader.event_count ≡ some n
    → reader.total_supply ≡ some m
    → check_range (check_event reader s) 0 n ≡ some events
    → check_range (check_record reader s) 0 m ≡ some records
    → (report_of s n m events records).ok ≡ true
    → Agrees reader s
report-Agrees reader s n m events records e1 e2 e3 e4 ok =
    let (n', m', a, b) = (report_of-ok_iff s n m events records).0 ok in
    record {
      event_count = e1 ∙ ap some (sym n');
      total_supply = e2 ∙ ap some (sym m');
      events = λ i below. (check_event_iff reader s i).0 (
          (check_range_iff (check_event reader s) 0 n).0 (e3 ∙ ap some a) i (omega arith)
            (omega arith));
      records = λ t below. (check_record_iff reader s t).0 (
          (check_range_iff (check_record reader s) 0 m).0 (e4 ∙ ap some b) t (omega arith)
            (omega arith));
    }

-- The report of `doctor` is ok exactly when the reads that it makes all succeed and the index agrees
-- with the contracts: as many events and records, and every event, category and record indexed with
-- the fields that the contracts answer.
pub doctor_iff :
    (reader : Reader) (s : Index)
    → ((report : DoctorReport) × (doctor reader s ≡ some report) × (report.ok ≡ true))
      ↔ Agrees reader s
unfolding doctor
doctor_iff reader s = (
  λ (report, made, ok). elim (Option-cases reader.event_count) [
    | inl fails ↦ absurd (cannot (rw fails at made))
    | inr (n, e1) ↦ elim (Option-cases reader.total_supply) [
      | inl fails ↦ absurd (cannot (rw (e1, fails) at made))
      | inr (m, e2) ↦ elim (Option-cases (check_range (check_event reader s) 0 n)) [
        | inl fails ↦ absurd (cannot (simp (e1, e2, fails) at made))
        | inr (fe, e3) ↦ elim (Option-cases (check_range (check_record reader s) 0 m)) [
          | inl fails ↦ absurd (cannot (simp (e1, e2, e3, fails) at made))
          | inr (fr, e4) ↦ report-Agrees reader s n m fe fr e1 e2 e3 e4 (
              subst (λ r. r.ok ≡ true) (sym (some-injective _ _ (simp (e1, e2, e3, e4) at made)))
                ok)
        ]
      ]
    ]
  ],
  λ a.
      let events =
        (check_range_iff (check_event reader s) 0 (length s.events)).1
          (λ i from below. (check_event_iff reader s i).1 (a.events i (omega arith))) in
      let records =
        (check_range_iff (check_record reader s) 0 (length s.records)).1
          (λ t from below. (check_record_iff reader s t).1 (a.records t (omega arith))) in
      (
        report_of s (length s.events) (length s.records) [] [],
        simp (a.event_count, a.total_supply, events, records) refl,
        (report_of-ok_iff s _ _ [] []).1 (refl, refl, refl, refl),
      ),
)
