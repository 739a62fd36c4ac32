-- ===== src/Results/Review/Counts.antt =====
-- The counts that `reviewResults` reports.
use sterun.Common.{ℕ, ◌+◌, Bool, true, false, List, [], ◌∷◌, if◌then◌else◌}
use sterun.Results.Anomaly.{AnomalyKind, Anomaly, ReviewedRow}
use sterun.Results.Review.{kind_eq}

-- How many anomalies of a kind a list holds.
abbrev pub occurrences : AnomalyKind → List Anomaly → ℕ
occurrences k [] = 0
occurrences k (a ∷ rest) = (if kind_eq a.kind k then 1 else 0) + occurrences k rest

abbrev pub row_occurrences : AnomalyKind → List ReviewedRow → ℕ
row_occurrences k [] = 0
row_occurrences k (r ∷ rs) = occurrences k r.anomalies + row_occurrences k rs

-- The row has no anomaly.
abbrev pub has_none : ReviewedRow → Bool
has_none r = elim r.anomalies [ [] ↦ true | a ∷ rest ↦ false ]
