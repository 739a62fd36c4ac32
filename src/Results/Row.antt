-- ===== src/Results/Row.antt =====
-- The rows that be/src/results/csv.ts hands to be/src/results/anomalies.ts.
-- A text is the list of its UTF-16 code units. A message for the organiser is the case that it
-- reports with the values that it quotes; its wording is left out.
use sterun.Common.{Text, ℕ, Option}

-- What a row asks the contract to do.
pub data ResultKind : Type 0 where
  timed untimed dnf : ResultKind

pub data Problem : Type 0 where
  bad_bib : Text → Problem
  unknown_status : Text → Problem
  time_not_empty : ResultKind → Text → Problem
  time_missing : Problem
  bad_time : Text → Problem
  bad_category : Text → Problem

pub record ParsedRow : Type 0 where
  pub line : ℕ
  pub raw : Text
  pub bib_no : Option ℕ
  pub category_id : Option ℕ
  pub finish_time_s : Option ℕ
  pub kind : Option ResultKind
  pub problem : Option Problem
