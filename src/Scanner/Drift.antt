-- ===== src/Scanner/Drift.antt =====
-- fe/src/modules/scanner/lib/roster-facts.ts and lib/totp.ts: how wrong a scanner's clock may be.
use sterun.Common.{ℕ, ◌+◌, ◌*◌, ◌/◌, true, ◌≡◌}
use sterun.Common.Int.{pos}
use sterun.Scanner.Verify.{step_is_current}

-- `timeStepOf` with the step's length as an argument: the desk divides by the roster's.
unfoldable pub time_step_of : ℕ → ℕ → ℕ
time_step_of step_seconds unix_seconds = unix_seconds / step_seconds

unfoldable pub drift_limit_seconds : ℕ → ℕ → ℕ
drift_limit_seconds tolerance_steps step_seconds = tolerance_steps * step_seconds

-- A code of second t is accepted by a scanner that is d seconds fast, and a code of second t + d by
-- one that is d seconds slow.
abbrev pub AcceptsDrift : ℕ → ℕ → ℕ → ℕ → Type 0
AcceptsDrift tolerance step_seconds d t =
    (step_is_current (pos (time_step_of step_seconds t)) (pos (time_step_of step_seconds (t + d)))
        tolerance
      ≡ true)
    × (step_is_current (pos (time_step_of step_seconds (t + d))) (pos (time_step_of step_seconds t))
          tolerance
        ≡ true)
