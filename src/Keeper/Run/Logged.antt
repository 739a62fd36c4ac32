-- ===== src/Keeper/Run/Logged.antt =====
-- A run of the keeper and what its row in the run log says.
use sterun.Common.{
  ℕ, ◌==◌, ◌+◌, ◌≤◌, String, true, false, List, [], ◌∷◌, ◌++◌, Option, none, some, if◌then◌else◌,
  length, map, filter, str_eq, nat-Eq, get, put, get-put, get-put_self, ==_iff, ◌≡◌, refl, arith,
  Option-cases, Bool-cases, inl, inr, length-map, length-append, sym, ◌∙◌, ap, subst, dec_lt,
}
use sterun.Keeper.Ttl.{KeyTtl, TtlSelection, select_due_keys, batch}
use sterun.Keeper.Ttl.Batch.{concat, batch-concat}
use sterun.Keeper.Client.{
  SubmittedTransaction, Server, Reader, submit, extend, extend_footprint_ttl,
}
use sterun.Keeper.Run.{
  running, ok, dry_run, RunRow, RunLog, start_run, Update, finish_run, Keeper, RunResult,
  ScanResult, failed_update, paid_keys, Sent, extend_chunks, send_due, scan, update_of, conclude,
  run_body, close_run, run,
}

abbrev pub sum {ℓ} : {A : Type ℓ} → (A → ℕ) → List A → ℕ
sum f [] = 0
sum f (a ∷ rest) = f a + sum f rest

sum-concat {ℓ} :
    {A : Type ℓ} (f : A → ℕ) (xs : List A) (a : A) → sum f (xs ++ a ∷ []) ≡ sum f xs + f a
sum-concat f [] a = omega arith
sum-concat f (x ∷ xs) a = omega (arith, sum-concat f xs a)

-- The transactions that landed.
abbrev pub landed : List SubmittedTransaction → List SubmittedTransaction
landed ts = filter (λ t. str_eq t.status "SUCCESS") ts

sum-paid_keys : (ts : List SubmittedTransaction) → sum paid_keys ts ≡ sum (λ t. t.keys) (landed ts)
unfolding paid_keys
sum-paid_keys [] = refl
sum-paid_keys (t ∷ ts) = ground (arith, sum-paid_keys ts)

paid_le : (ts : List SubmittedTransaction) → sum paid_keys ts ≤ sum (λ t. t.keys) ts
unfolding paid_keys
paid_le [] = omega arith
paid_le (t ∷ ts) = ground (arith, paid_le ts)

abbrev keys_of : Option SubmittedTransaction → ℕ
keys_of none = 0
keys_of (some t) = t.keys

abbrev sent_or : Sent → Option Sent → Sent
sent_or s none = s
sent_or s (some t) = t

abbrev done_or : Update × List KeyTtl → Option (Update × List KeyTtl) → Update × List KeyTtl
done_or d none = d
done_or d (some e) = e

-- The books of a loop over chunks of so many keys: what was sent, and the part that landed.
abbrev Accounts : Sent → ℕ → Type 0
Accounts s n =
    (s.extended_keys ≡ sum paid_keys s.transactions) × (sum (λ t. t.keys) s.transactions ≡ n)

abbrev chunks_of : List (List String) → Option (List (List String)) → List (List String)
chunks_of cs none = cs
chunks_of cs (some ds) = ds

batch_refuses : (ids : List String) (size : ℕ) → size ≡ 0 → batch ids size ≡ none
unfolding batch
batch_refuses ids size h = ground (arith, ==_iff size 0)

-- What is counted as extended landed, and is no more than what was due; a run that is not dry submits
-- as many keys as are due.
abbrev pub Paid : Keeper → ℕ → Sent → Type 0
Paid keeper due s =
    (s.extended_keys ≡ sum (λ t. t.keys) (landed s.transactions))
    × (s.extended_keys ≤ due)
    × (keeper.dry_run ≡ false → sum (λ t. t.keys) s.transactions ≡ due)
    × (keeper.dry_run ≡ true → s.transactions ≡ [])

module _ {W : Type 0} (server : Server W) where
  extend_keys :
      (w : W) (keys : List String) (to : ℕ) (t : SubmittedTransaction)
      → (extend server w keys to).1 ≡ some t
      → t.keys ≡ length keys
  unfolding extend submit
  extend_keys w keys to t h =
      elim (Option-cases (server.submit w (extend_footprint_ttl to) keys).1) [
        | inl e ↦ cc (rw e at h)
        | inr ((hash, status), e) ↦ sym (ap keys_of (rw e at h))
      ]

  Accounts-extend_chunks :
      (w : W) (to : ℕ) (s : Sent) (chunks : List (List String)) (n : ℕ) (s' : Sent)
      → Accounts s n
      → (extend_chunks server w to s chunks).1 ≡ some s'
      → Accounts s' (n + length (concat chunks))
  unfolding extend_chunks extend submit
  Accounts-extend_chunks w to s [] n s' a h =
      subst (λ x. Accounts x (n + 0)) (ap (sent_or s) h) (a.0, omega (arith, a.1))
  Accounts-extend_chunks w to s (c ∷ cs) n s' a h = elim (Option-cases (extend server w c to).1) [
    | inl e ↦ absurd (cc (rw e at h))
    | inr (t, e) ↦
        let next =
          Accounts-extend_chunks (extend server w c to).0 to
            (record {
              transactions = s.transactions ++ t ∷ [];
              extended_keys = s.extended_keys + paid_keys t;
            })
            cs (n + length c) s'
            (
              omega (arith, a.0, sum-concat paid_keys s.transactions t),
              omega (arith, a.1, sum-concat (λ u. u.keys) s.transactions t, extend_keys w c to t e),
            )
            (rw e at h) in
        (next.0, omega (arith, next.1, length-append c (concat cs)))
  ]

  batch-length :
      (ids : List String) (size : ℕ) (chunks : List (List String))
      → batch ids size ≡ some chunks
      → length (concat chunks) ≡ length ids
  batch-length ids size chunks h = elim (dec_lt 0 size) [
    | yes pos_s ↦
        let (chunks', found, all, _) = batch-concat ids size pos_s in
        ap length (ap concat (ap (chunks_of []) (sym h ∙ found)) ∙ all)
    | no zero_s ↦ absurd (cc (batch_refuses ids size (omega arith), h))
  ]

  Accounts-send_due :
      (keeper : Keeper) (w : W) (due : List KeyTtl) (s : Sent)
      → (send_due server keeper w due).1 ≡ some s
      → Paid keeper (length due) s
  unfolding send_due
  Accounts-send_due keeper w due s h = elim (Bool-cases keeper.dry_run) [
    | inl dry ↦
        subst (Paid keeper (length due)) (ap (sent_or s) (rw dry at h))
          (refl, omega arith, λ wet. cc, λ _. refl)
    | inr wet ↦ elim (Option-cases (batch (map (λ d. d.id) due) keeper.keys_per_transaction)) [
      | inl e ↦ absurd (cc (rw (wet, e) at h))
      | inr (chunks, e) ↦
          let (paid, all) =
            Accounts-extend_chunks w keeper.extend_to_ledgers
              (record { transactions = []; extended_keys = 0 }) chunks 0 s (refl, refl)
              (rw (wet, e) at h) in
          let sizes = batch-length _ _ chunks e in
          (
            paid ∙ sum-paid_keys s.transactions,
            omega (arith, paid, all, sizes, length-map (λ d. d.id) due, paid_le s.transactions),
            λ _. omega (arith, all, sizes, length-map (λ d. d.id) due),
            λ dry. cc,
          )
    ]
  ]

  send_due-dry :
      (keeper : Keeper) (w : W) (due : List KeyTtl)
      → keeper.dry_run ≡ true
      → (send_due server keeper w due).0 ≡ w
  unfolding send_due
  send_due-dry keeper w due dry = rw dry refl

  -- The numbers that a run reports, against the scan.
  abbrev pub Reported : Keeper → ScanResult → Update × List KeyTtl → Type 0
  Reported keeper found (u, missing) =
      let s = select_due_keys found.entries found.at_ledger keeper.threshold_ledgers in
      (u.at_ledger ≡ some found.at_ledger)
      × (u.scanned_keys ≡ length found.entries)
      × (u.below_threshold ≡ length s.due)
      × (missing ≡ s.missing)
      × (u.missing_keys ≡ length missing)
      × (u.status ≡ (if keeper.dry_run then dry_run else ok))
      × Paid keeper u.below_threshold
          (record { transactions = u.transactions; extended_keys = u.extended_keys })

  conclude-Reported :
      (keeper : Keeper) (found : ScanResult) (p : W × Option Sent) (done : Update × List KeyTtl)
      → (let s = select_due_keys found.entries found.at_ledger keeper.threshold_ledgers in
          ((sent : Sent) → p.1 ≡ some sent → Paid keeper (length s.due) sent)
          → (conclude server keeper found s p).1 ≡ some done
          → Reported keeper found done)
  unfolding conclude update_of
  conclude-Reported keeper found (w, none) done h e = cc
  conclude-Reported keeper found (w, some sent) done h e =
      subst (Reported keeper found) (ap (done_or done) e)
        (refl, refl, refl, refl, refl, refl, h sent refl)

  run_body-Reported :
      (keeper : Keeper) (w : W) (o : Option ScanResult) (done : Update × List KeyTtl)
      → (run_body server keeper w o).1 ≡ some done
      → (found : ScanResult) × (o ≡ some found) × Reported keeper found done
  unfolding run_body
  run_body-Reported keeper w none done h = cc
  run_body-Reported keeper w (some found) done h =
      let s = select_due_keys found.entries found.at_ledger keeper.threshold_ledgers in
      (
        found,
        refl,
        conclude-Reported keeper found (send_due server keeper w s.due) done
            (Accounts-send_due keeper w s.due) h,
      )

  conclude-fst :
      (keeper : Keeper) (found : ScanResult) (s : TtlSelection) (p : W × Option Sent)
      → (conclude server keeper found s p).0 ≡ p.0
  unfolding conclude
  conclude-fst keeper found s (w, none) = refl
  conclude-fst keeper found s (w, some sent) = refl

  run_body-dry :
      (keeper : Keeper) (w : W) (o : Option ScanResult)
      → keeper.dry_run ≡ true
      → (run_body server keeper w o).0 ≡ w
  unfolding run_body
  run_body-dry keeper w none dry = refl
  run_body-dry keeper w (some found) dry =
      conclude-fst keeper found _ _ ∙ send_due-dry keeper w _ dry

  -- The row of a run whose columns are these.
  abbrev pub row_of : Keeper → Update → RunRow
  row_of keeper u = record {
    at_ledger = u.at_ledger;
    threshold_ledgers = keeper.threshold_ledgers;
    extend_to_ledgers = keeper.extend_to_ledgers;
    scanned_keys = u.scanned_keys;
    below_threshold = u.below_threshold;
    extended_keys = u.extended_keys;
    missing_keys = u.missing_keys;
    transactions = u.transactions;
    status = u.status;
  }

  finish_run-present :
      (log : RunLog) (run_id : ℕ) (u : Update) (row : RunRow)
      → get log run_id ≡ some row
      → finish_run log run_id u
        ≡ put log run_id (
            row_of
              (record {
                threshold_ledgers = row.threshold_ledgers;
                extend_to_ledgers = row.extend_to_ledgers;
                keys_per_transaction = 0;
                dry_run = false;
              })
              u)
  unfolding finish_run
  finish_run-present log run_id u row h = ground arith

  abbrev opened : Keeper → RunRow
  opened keeper = record {
    at_ledger = none;
    threshold_ledgers = keeper.threshold_ledgers;
    extend_to_ledgers = keeper.extend_to_ledgers;
    scanned_keys = 0;
    below_threshold = 0;
    extended_keys = 0;
    missing_keys = 0;
    transactions = [];
    status = running;
  }

  get-log :
      (keeper : Keeper) (log : RunLog) (run_id j : ℕ) (u : Update)
      → get
          (finish_run
            (start_run log run_id keeper.threshold_ledgers keeper.extend_to_ledgers)
            run_id
            u)
          j
        ≡ (if run_id == j then some (row_of keeper u) else get log j)
  unfolding start_run
  get-log keeper log run_id j u =
      rw
        (
          finish_run-present _ run_id u (opened keeper) (get-put_self log run_id (opened keeper)),
          get-put,
          get-put,
        )
        (elim (Bool-cases (run_id == j)) [ inl e ↦ rw e refl | inr e ↦ rw e refl ])

  -- What a run leaves in the log, and what it returns.
  abbrev pub Logged : Keeper → RunLog → ℕ → Option ScanResult → RunLog × Option RunResult → Type 0
  Logged keeper log run_id scanned (log', none) =
      (j : ℕ) → get log' j ≡ (if run_id == j then some (row_of keeper failed_update) else get log j)
  Logged keeper log run_id scanned (log', some result) =
      ((j : ℕ)
        → get log' j ≡ (if run_id == j then some (row_of keeper result.update) else get log j))
      × ((found : ScanResult) × (scanned ≡ some found)
          × Reported keeper found (result.update, result.missing))

  close_run-Logged :
      (keeper : Keeper) (log : RunLog) (run_id : ℕ) (scanned : Option ScanResult)
      (p : W × Option (Update × List KeyTtl))
      → ((done : Update × List KeyTtl)
          → p.1 ≡ some done
          → (found : ScanResult) × (scanned ≡ some found) × Reported keeper found done)
      → (let r =
            close_run server
              (start_run log run_id keeper.threshold_ledgers keeper.extend_to_ledgers)
              run_id
              p in
          Logged keeper log run_id scanned (r.1, r.2) × (r.0 ≡ p.0))
  unfolding close_run
  close_run-Logged keeper log run_id scanned (w, none) h =
      (λ j. get-log keeper log run_id j failed_update, refl)
  close_run-Logged keeper log run_id scanned (w, some (u, missing)) h =
      ((λ j. get-log keeper log run_id j u, h (u, missing) refl), refl)

-- A run writes its own row of the log and no other. Where it throws, the row says failed with zero
-- counts; where it returns, the row has the numbers that it returns: they are those of the scan and of
-- its selection, the keys counted as extended are those of the transactions that landed and no more
-- than those below the threshold, and unless the run is dry the transactions hold as many keys as
-- are below the threshold. A dry run sends nothing and leaves the network as it was.
pub run-Logged :
    {W : Type 0} (server : Server W) (keeper : Keeper) (w : W) (log : RunLog) (run_id : ℕ)
    (reader : Reader) (token_ids : List ℕ) (runners : List String)
    → (let r = run server keeper w log run_id reader token_ids runners in
        Logged server keeper log run_id (scan server w reader token_ids runners) (r.1, r.2)
        × (keeper.dry_run ≡ true → r.0 ≡ w))
unfolding run
run-Logged server keeper w log run_id reader token_ids runners =
    let found = scan server w reader token_ids runners in
    let (logged, same) =
      close_run-Logged server keeper log run_id found (run_body server keeper w found)
        (run_body-Reported server keeper w found) in
    (logged, λ dry. same ∙ run_body-dry server keeper w found dry)
