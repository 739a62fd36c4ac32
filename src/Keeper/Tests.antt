-- ===== src/Keeper/Tests.antt =====
-- The keeper's theorems at a network with three entries.
use sterun.Common.{
  ℕ, ◌+◌, true, false, List, [], ◌∷◌, none, some, filter, length, map, ◌≡◌, refl, arith, get, put,
  put_all, string-Eq, nat-Eq,
}
use sterun.Common.Int.{◌-ℤ◌}
use sterun.Keeper.Ttl.{
  KeyTtl, is_below, select_key, select_keys, select_due_keys, slice, batch_from, batch,
}
use sterun.Keeper.Ttl.Select.{is_due, is_alive, is_missing, select_due_keys_lem}
use sterun.Keeper.Ttl.Batch.{concat, IsChunking, batch-concat}
use sterun.Keeper.Client.{
  Server, Reader, dedupe_from, dedupe_keys, footprints, collect_keys, find_entries, live_until,
  submit, extend,
}
use sterun.Keeper.Run.{
  Keeper, start_run, finish_run, paid_keys, extend_chunks, send_due, scan, update_of, conclude,
  run_body, close_run, run,
}
use sterun.Keeper.Run.Logged.{Logged, run-Logged}

-- At ledger 1000: "a" is due, "b" is not, and "c" is not served. The state counts submissions.
abbrev sample_server : Server ℕ
sample_server = record {
  latest_ledger = λ w. some 1000;
  get_ledger_entries = λ w keys. some (("a", some 1005) ∷ ("b", some 2000) ∷ []);
  submit = λ w operation keys. (w + 1, some ("tx", "SUCCESS"));
}

abbrev sample_reader : Reader
sample_reader = record {
  record_footprint = λ token_id. some ("a" ∷ "b" ∷ []);
  runner_footprint = λ runner. some ("b" ∷ "c" ∷ []);
}

abbrev sample_keeper : Keeper
sample_keeper = record {
  threshold_ledgers = 100;
  extend_to_ledgers = 500;
  keys_per_transaction = 2;
  dry_run = false;
}

keeper_run :
    (let r = run sample_server sample_keeper 0 [] 1 sample_reader (7 ∷ []) ("G" ∷ []) in
      (r.0 ≡ 1)
      × (elim r.2 [ none ↦ [] | some res ↦ map (λ t. t.keys) res.update.transactions ] ≡ 1 ∷ []))
unfolding is_below select_key select_keys select_due_keys slice batch_from batch dedupe_from
    dedupe_keys footprints collect_keys find_entries live_until submit extend start_run finish_run
    paid_keys extend_chunks send_due scan update_of conclude run_body close_run run get put put_all
    ◌-ℤ◌
keeper_run = (refl, refl)

run-Logged_example :
    (let r = run sample_server sample_keeper 0 [] 1 sample_reader (7 ∷ []) ("G" ∷ []) in
      Logged sample_server sample_keeper [] 1
        (scan sample_server 0 sample_reader (7 ∷ []) ("G" ∷ []))
        (r.1, r.2)
      × (sample_keeper.dry_run ≡ true → r.0 ≡ 0))
run-Logged_example = run-Logged sample_server sample_keeper 0 [] 1 sample_reader (7 ∷ []) ("G" ∷ [])

batch-concat_example :
    (chunks : List (List ℕ)) × (batch (1 ∷ 2 ∷ 3 ∷ []) 2 ≡ some chunks)
    × (concat chunks ≡ 1 ∷ 2 ∷ 3 ∷ [])
    × IsChunking 2 chunks
batch-concat_example = batch-concat (1 ∷ 2 ∷ 3 ∷ []) 2 (omega arith)

select_due_keys_lem_example :
    (let entries : List KeyTtl = record { id = "a"; live_until_ledger_seq = some 5 } ∷ [] in
      (select_due_keys entries 1 10 ≡ record {
        due = filter (is_due 1 10) entries;
        alive = filter (is_alive 1 10) entries;
        missing = filter is_missing entries;
      })
      × (let s = select_due_keys entries 1 10 in
          length s.due + length s.alive + length s.missing ≡ length entries))
select_due_keys_lem_example =
    select_due_keys_lem (record { id = "a"; live_until_ledger_seq = some 5 } ∷ []) 1 10
