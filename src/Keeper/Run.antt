-- ===== src/Keeper/Run.antt =====
-- be/src/keeper/keeper.ts and runs.ts: a run of the keeper and its row in the run log.
pub mod Logged
use sterun.Common.{
  ◌>>=◌, ℕ, ◌+◌, String, Bool, true, false, List, [], ◌∷◌, ◌++◌, Option, none, some, str_eq,
  if◌then◌else◌, ltb, length, map, Dict, nat-Eq, get, put, not,
}
use sterun.Keeper.Ttl.{
  KeyTtl, TtlSelection, select_due_keys, batch, default_threshold_ledgers,
  default_extend_to_ledgers, default_keys_per_transaction,
}
use sterun.Keeper.Client.{
  SubmittedTransaction, Server, Reader, collect_keys, live_until, extend, restore,
}

pub data RunStatus : Type 0 where
  running ok failed dry_run : RunStatus

pub record RunRow : Type 0 where
  pub at_ledger : Option ℕ
  pub threshold_ledgers : ℕ
  pub extend_to_ledgers : ℕ
  pub scanned_keys : ℕ
  pub below_threshold : ℕ
  pub extended_keys : ℕ
  pub missing_keys : ℕ
  pub transactions : List SubmittedTransaction
  pub status : RunStatus

-- `ttl_keeper_runs` by its id.
abbrev pub RunLog : Type 0
RunLog = Dict ℕ RunRow

unfoldable pub start_run : RunLog → (run_id threshold extend_to : ℕ) → RunLog
start_run log run_id threshold extend_to = put log run_id (record {
  at_ledger = none;
  threshold_ledgers = threshold;
  extend_to_ledgers = extend_to;
  scanned_keys = 0;
  below_threshold = 0;
  extended_keys = 0;
  missing_keys = 0;
  transactions = [];
  status = running;
})

-- The columns that `finishRun` sets.
pub record Update : Type 0 where
  pub at_ledger : Option ℕ
  pub scanned_keys : ℕ
  pub below_threshold : ℕ
  pub extended_keys : ℕ
  pub missing_keys : ℕ
  pub transactions : List SubmittedTransaction
  pub status : RunStatus

unfoldable pub finish_run : RunLog → ℕ → Update → RunLog
finish_run log run_id u = elim (get log run_id) [
  | none ↦ log
  | some row ↦ put log run_id (record {
    at_ledger = u.at_ledger;
    threshold_ledgers = row.threshold_ledgers;
    extend_to_ledgers = row.extend_to_ledgers;
    scanned_keys = u.scanned_keys;
    below_threshold = u.below_threshold;
    extended_keys = u.extended_keys;
    missing_keys = u.missing_keys;
    transactions = u.transactions;
    status = u.status;
  })
]

-- The options as given, and a keeper.
pub record Options : Type 0 where
  pub threshold_ledgers : Option ℕ
  pub extend_to_ledgers : Option ℕ
  pub keys_per_transaction : Option ℕ
  pub dry_run : Option Bool

pub record Keeper : Type 0 where
  pub threshold_ledgers : ℕ
  pub extend_to_ledgers : ℕ
  pub keys_per_transaction : ℕ
  pub dry_run : Bool

abbrev pub or_default {ℓ} : {A : Type ℓ} → Option A → A → A
or_default none a = a
or_default (some b) a = b

-- None for the RangeError.
unfoldable pub new_keeper : Options → Option Keeper
new_keeper o =
    let threshold = or_default o.threshold_ledgers default_threshold_ledgers in
    let extend_to = or_default o.extend_to_ledgers default_extend_to_ledgers in
    if not (ltb threshold extend_to)
    then none
    else some (record {
      threshold_ledgers = threshold;
      extend_to_ledgers = extend_to;
      keys_per_transaction = or_default o.keys_per_transaction default_keys_per_transaction;
      dry_run = or_default o.dry_run false;
    })

pub record RunResult : Type 0 where
  pub run_id : ℕ
  pub update : Update
  pub missing : List KeyTtl

-- What the scan of a run finds.
pub record ScanResult : Type 0 where
  pub at_ledger : ℕ
  pub entries : List KeyTtl

unfoldable pub failed_update : Update
failed_update = record {
  at_ledger = none;
  scanned_keys = 0;
  below_threshold = 0;
  extended_keys = 0;
  missing_keys = 0;
  transactions = [];
  status = failed;
}

unfoldable pub paid_keys : SubmittedTransaction → ℕ
paid_keys t = if str_eq t.status "SUCCESS" then t.keys else 0

-- The variables of the loop over the chunks.
pub record Sent : Type 0 where
  pub transactions : List SubmittedTransaction
  pub extended_keys : ℕ

module _ {W : Type 0} (server : Server W) where
  unfoldable pub extend_chunks : W → ℕ → Sent → List (List String) → W × Option Sent
  extend_chunks w extend_to sent [] = (w, some sent)
  extend_chunks w extend_to sent (chunk ∷ chunks) =
      let (w', submitted) = extend server w chunk extend_to in
      elim submitted [
        | none ↦ (w', none)
        | some t ↦
            extend_chunks w' extend_to
              (record {
                transactions = sent.transactions ++ t ∷ [];
                extended_keys = sent.extended_keys + paid_keys t;
              })
              chunks
      ]

  unfoldable pub send_due : Keeper → W → List KeyTtl → W × Option Sent
  send_due keeper w due =
      if keeper.dry_run
      then (w, some (record { transactions = []; extended_keys = 0 }))
      else elim (batch (map (λ d. d.id) due) keeper.keys_per_transaction) [
        | none ↦ (w, none)
        | some chunks ↦
            extend_chunks w keeper.extend_to_ledgers
              (record { transactions = []; extended_keys = 0 }) chunks
      ]

  unfoldable pub scan : W → Reader → List ℕ → List String → Option ScanResult
  scan w reader token_ids runners = do
    keys ← collect_keys reader token_ids runners
    at_ledger ← server.latest_ledger w
    entries ← elim keys [ [] ↦ some [] | k ∷ ks ↦ live_until server w (k ∷ ks) ]
    some (record { at_ledger = at_ledger; entries = entries })

  unfoldable pub update_of : Keeper → ScanResult → TtlSelection → Sent → Update
  update_of keeper found s sent = record {
    at_ledger = some found.at_ledger;
    scanned_keys = length found.entries;
    below_threshold = length s.due;
    extended_keys = sent.extended_keys;
    missing_keys = length s.missing;
    transactions = sent.transactions;
    status = if keeper.dry_run then dry_run else ok;
  }

  unfoldable pub conclude :
      Keeper → ScanResult → TtlSelection → W × Option Sent → W × Option (Update × List KeyTtl)
  conclude keeper found s (w, none) = (w, none)
  conclude keeper found s (w, some sent) = (w, some (update_of keeper found s sent, s.missing))

  -- The body of the `try`: none where a call in it throws.
  unfoldable pub run_body : Keeper → W → Option ScanResult → W × Option (Update × List KeyTtl)
  run_body keeper w none = (w, none)
  run_body keeper w (some found) =
      let s = select_due_keys found.entries found.at_ledger keeper.threshold_ledgers in
      conclude keeper found s (send_due keeper w s.due)

  unfoldable pub close_run :
      RunLog → ℕ → W × Option (Update × List KeyTtl) → W × RunLog × Option RunResult
  close_run log run_id (w, none) = (w, finish_run log run_id failed_update, none)
  close_run log run_id (w, some (u, missing)) =
      (w, finish_run log run_id u, some (record { run_id = run_id; update = u; missing = missing }))

  -- None where the run throws.
  unfoldable pub run :
      Keeper
      → W
      → RunLog
      → (run_id : ℕ) → Reader
      → List ℕ
      → List String
      → W × RunLog × Option RunResult
  run keeper w log run_id reader token_ids runners =
      close_run (start_run log run_id keeper.threshold_ledgers keeper.extend_to_ledgers) run_id
        (run_body keeper w (scan w reader token_ids runners))

  unfoldable pub restore_chunks :
      W → List SubmittedTransaction → List (List String) → W × Option (List SubmittedTransaction)
  restore_chunks w submitted [] = (w, some submitted)
  restore_chunks w submitted (chunk ∷ chunks) =
      let (w', sent) = restore server w chunk in
      elim sent [ none ↦ (w', none) | some t ↦ restore_chunks w' (submitted ++ t ∷ []) chunks ]

  unfoldable pub restore_all : Keeper → W → List String → W × Option (List SubmittedTransaction)
  restore_all keeper w keys = elim (batch keys keeper.keys_per_transaction) [
    | none ↦ (w, none)
    | some chunks ↦ restore_chunks w [] chunks
  ]
