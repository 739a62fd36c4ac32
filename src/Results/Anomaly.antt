-- ===== src/Results/Anomaly.antt =====
-- be/src/results/anomalies.ts: the checks that `reviewResults` makes of one row.
-- The reason of an anomaly is the case and the values that its sentence quotes. The speed is
-- compared as `25 * t < 2 * d` for `d / t > 12.5`: 12.5 is exact in a double and `t` is at most a
-- day there, so the rounded quotient is on the same side.
use sterun.Common.{
  ℕ, ◌*◌, String, not, ◌&&◌, ◌||◌, List, [], ◌∷◌, ◌++◌, map, Option, none, some, ltb, ◌==◌, str_eq,
  true, false, if◌then◌else◌, Dict, get, put, put_all, nat-Eq, pair-Eq,
}
use sterun.Results.Row.{ResultKind, timed, untimed, dnf, Problem, ParsedRow}

pub data AnomalyKind : Type 0 where
  malformed_row unknown_bib ambiguous_bib duplicate_bib : AnomalyKind
  not_claimed already_final impossible_time : AnomalyKind

pub data Severity : Type 0 where
  reverts wrong : Severity

pub data Reason : Type 0 where
  unreadable : Option Problem → Reason
  no_entry_in_category : (bib category : ℕ) → Reason
  no_entry : (bib : ℕ) → Reason
  in_categories : (bib : ℕ) → List ℕ → Reason
  appears_already appears_again : (bib line : ℕ) → Reason
  still_entered : (bib : ℕ) → ResultKind → Reason
  is_final : (bib : ℕ) → String → Reason
  no_seconds : Reason
  over_a_day : (seconds : ℕ) → Reason
  too_fast : (seconds metres : ℕ) → Reason

pub record Anomaly : Type 0 where
  pub kind : AnomalyKind
  pub reason : Reason
  pub severity : Severity

pub record ReviewedRow : Type 0 where
  pub line : ℕ
  pub bib_no : Option ℕ
  pub category_id : Option ℕ
  pub finish_time_s : Option ℕ
  pub kind : Option ResultKind
  pub token_id : Option ℕ
  pub state : Option String
  pub anomalies : List Anomaly

pub record IndexedRecord : Type 0 where
  pub token_id : ℕ
  pub category_id : ℕ
  pub bib_no : ℕ
  pub state : String

pub record CategoryDistance : Type 0 where
  pub category_id : ℕ
  pub distance_m : ℕ

abbrev pub max_plausible_finish_s : ℕ
max_plausible_finish_s = 86_400

unfoldable pub time_anomaly : ℕ → Option ℕ → List Anomaly
time_anomaly t distance =
    if t == 0
    then record { kind = impossible_time; reason = no_seconds; severity = wrong } ∷ []
    else if ltb max_plausible_finish_s t
    then record { kind = impossible_time; reason = over_a_day t; severity = wrong } ∷ []
    else elim distance [
      | none ↦ []
      | some d ↦
          if ltb (25 * t) (2 * d)
          then record { kind = impossible_time; reason = too_fast t d; severity = wrong } ∷ []
          else []
    ]

-- `byPair` and `byBib`.
unfoldable pub pair_map :
    Dict (ℕ × ℕ) IndexedRecord → List IndexedRecord → Dict (ℕ × ℕ) IndexedRecord
pair_map m [] = m
pair_map m (r ∷ rs) = pair_map (put m (r.category_id, r.bib_no) r) rs

abbrev pub or_empty {ℓ} : {A : Type ℓ} → Option (List A) → List A
or_empty none = []
or_empty (some xs) = xs

unfoldable pub bib_map :
    Dict ℕ (List IndexedRecord) → List IndexedRecord → Dict ℕ (List IndexedRecord)
bib_map m [] = m
bib_map m (r ∷ rs) = bib_map (put m r.bib_no (or_empty (get m r.bib_no) ++ r ∷ [])) rs

unfoldable pub distance_map : List CategoryDistance → Dict ℕ ℕ
distance_map cs = put_all [] (map (λ c. (c.category_id, c.distance_m)) cs)

-- `row.problem !== null || …`: none for a malformed row, else the bib and the kind.
unfoldable pub read_row : ParsedRow → Option (ℕ × ResultKind)
read_row row = elim row.problem [
  | some p ↦ none
  | none ↦ elim row.bib_no [
    | none ↦ none
    | some bib ↦ elim row.kind [
      | none ↦ none
      | some timed ↦ elim row.finish_time_s [ none ↦ none | some t ↦ some (bib, timed) ]
      | some untimed ↦ some (bib, untimed)
      | some dnf ↦ some (bib, dnf)
    ]
  ]
]

-- 1. From a bib, and a category if the file has it, to a record.
unfoldable pub resolve_bib : ℕ → List IndexedRecord → Option IndexedRecord × List Anomaly
resolve_bib bib [] =
    (none, record { kind = unknown_bib; reason = no_entry bib; severity = reverts } ∷ [])
resolve_bib bib (r ∷ []) = (some r, [])
resolve_bib bib (r ∷ s ∷ rs) = (
  none,
  record {
    kind = ambiguous_bib;
    reason = in_categories bib (map (λ c. c.category_id) (r ∷ s ∷ rs));
    severity = wrong;
  }
      ∷ [],
)

unfoldable pub resolve_pair : ℕ → ℕ → Option IndexedRecord → Option IndexedRecord × List Anomaly
resolve_pair category bib (some r) = (some r, [])
resolve_pair category bib none = (
  none,
  record { kind = unknown_bib; reason = no_entry_in_category bib category; severity = reverts }
      ∷ [],
)

unfoldable pub resolve : List IndexedRecord → Option ℕ → ℕ → Option IndexedRecord × List Anomaly
resolve records (some category) bib =
    resolve_pair category bib (get (pair_map [] records) (category, bib))
resolve records none bib = resolve_bib bib (or_empty (get (bib_map [] records) bib))

-- 3. What the contract will do with the record.
unfoldable pub lifecycle : Option IndexedRecord → ResultKind → ℕ → List Anomaly
lifecycle none kind bib = []
lifecycle (some r) kind bib =
    if str_eq r.state "Entered" && not (elim kind [ dnf ↦ true | _ ↦ false ])
    then record { kind = not_claimed; reason = still_entered bib kind; severity = reverts } ∷ []
    else if str_eq r.state "Finished" || str_eq r.state "Dnf"
    then record { kind = already_final; reason = is_final bib r.state; severity = reverts } ∷ []
    else []

-- 4. The time of a timed row.
unfoldable pub distance_of : Dict ℕ ℕ → Option IndexedRecord → Option ℕ
distance_of distances none = none
distance_of distances (some r) = get distances r.category_id

unfoldable pub time_check : Dict ℕ ℕ → Option IndexedRecord → ResultKind → Option ℕ → List Anomaly
time_check distances record' timed (some t) = time_anomaly t (distance_of distances record')
time_check distances record' kind finish = []
