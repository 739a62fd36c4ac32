-- ===== src/Scanner/Send/Run.antt =====
-- What a run of `sendClaims` leaves in the queue.
use sterun.Common.{
  ℕ, List, [], ◌∷◌, map, Option, none, some, ==_iff, In, In-map, Ordered, ◌↔◌, Distinct, nat-Eq,
  get, get-put, get-put_self, ◌≡◌, refl, sym, subst, ◌∙◌, ◌≢◌, ◌⊎◌, inl, inr, arith, Option-cases,
}
use sterun.Scanner.Store.{
  RecordState, entered, waiting, sent, refused, QueuedClaim, Outcome, ClaimStore, merge, mark_claim,
}
use sterun.Scanner.Verdict.{is_entered}
use sterun.Scanner.Send.{
  Revert, reverted_already_claimed, record_not_found, not_authorized, another_code, Failure, Answer,
  landed, failed, SendStop, Attempt, settle, stop, refused_as_claimed, ChainRecord, ask_chain,
  after_revert, handle, attempt, send_rows, waiting_rows, send_claims,
}
use sterun.Scanner.Send.Stops.{Halted, attempt-Halted, waiting_rows_lem}

-- What allows a row to leave the queue: the claim landed, or the chain refused it for good, or the
-- record on the chain is past Entered.
abbrev pub Justified : Option ChainRecord → Answer → Outcome → Type 0
Justified chain (landed tx_hash ledger) o = (o.status ≡ sent) × (o.tx_hash ≡ some tx_hash)
Justified chain (failed f) o =
    (o.status ≡ refused)
    × ((f.revert ≡ some reverted_already_claimed)
        ⊎ (f.revert ≡ some record_not_found)
        ⊎ ((s : RecordState) × (at : Option ℕ) × (chain ≡ some (s, at)) × (s ≢ entered)))

Attempt-cases :
    (a : Attempt) → ((o : Outcome) × (a ≡ settle o)) ⊎ ((why : SendStop) × (a ≡ stop why))
Attempt-cases (settle o) = inl (o, refl)
Attempt-cases (stop why) = inr (why, refl)

ask_chain_lem :
    (chain : Option ChainRecord) (f : Failure) (o : Outcome)
    → ask_chain chain f ≡ settle o
    → (o.status ≡ refused)
      × ((s : RecordState) × (at : Option ℕ) × (chain ≡ some (s, at)) × (s ≢ entered))
unfolding ask_chain refused_as_claimed is_entered
ask_chain_lem none f o h = cc
ask_chain_lem (some (entered, at)) f o h = cc
ask_chain_lem (some (s, at)) f o h = (ground arith, (s, at, refl, λ e. cc))

after_revert_lem :
    (chain : Option ChainRecord) (f : Failure) (o : Outcome)
    → after_revert chain f ≡ settle o
    → ask_chain chain f ≡ settle o
unfolding after_revert
after_revert_lem chain f o h = ground arith

handle_lem :
    (chain : Option ChainRecord) (f : Failure) (o : Outcome) (r : Option Revert)
    → f.revert ≡ r
    → handle chain f ≡ settle o
    → Justified chain (failed f) o
unfolding handle refused_as_claimed
handle_lem chain f o (some reverted_already_claimed) e h = (ground arith, inl e)
handle_lem chain f o (some record_not_found) e h = (ground arith, inr (inl e))
handle_lem chain f o (some not_authorized) e h = absurd (ground arith)
handle_lem chain f o (some another_code) e h =
    let (status, seen) =
      ask_chain_lem chain f o (after_revert_lem chain f o (rw (e, handle) at h)) in
    (status, inr (inr seen))
handle_lem chain f o none e h =
    let (status, seen) =
      ask_chain_lem chain f o (after_revert_lem chain f o (rw (e, handle) at h)) in
    (status, inr (inr seen))

attempt-Justified :
    (chain : Option ChainRecord) (answer : Answer) (o : Outcome)
    → attempt chain answer ≡ settle o
    → Justified chain answer o
unfolding attempt
attempt-Justified chain (landed tx_hash ledger) o h = (ground arith, ground arith)
attempt-Justified chain (failed f) o h = handle_lem chain f o f.revert refl h

get-mark_claim :
    (store : ClaimStore) (t : ℕ) (o : Outcome) (u : ℕ)
    → t ≢ u
    → get (mark_claim store t o) u ≡ get store u
unfolding mark_claim
get-mark_claim store t o u ne = elim (Option-cases (get store t)) [
  | inl none_there ↦ rw (none_there, mark_claim)
  | inr (c, there) ↦ ground (arith, get-put store t (merge c o) u, ==_iff t u)
]

get-mark_claim_self :
    (store : ClaimStore) (t : ℕ) (o : Outcome) (c : QueuedClaim)
    → get store t ≡ some c
    → get (mark_claim store t o) t ≡ some (merge c o)
unfolding mark_claim
get-mark_claim_self store t o c there = rw (there, mark_claim) (get-put_self store t (merge c o))

abbrev pub tokens : List QueuedClaim → List ℕ
tokens rows = map (λ c. c.token_id) rows

module _ (send : ℕ → Answer) (record_of : ℕ → Option ChainRecord) where
  -- A run touches no row but its own.
  send_rows-frame :
      (store : ClaimStore) (rows : List QueuedClaim) (u : ℕ)
      → ¬ In u (tokens rows)
      → get (send_rows send record_of store rows).0 u ≡ get store u
  unfolding send_rows
  send_rows-frame store [] u out = refl
  send_rows-frame store (c ∷ rows) u out =
      elim (Attempt-cases (attempt (record_of c.token_id) (send c.token_id))) [
        | inl (o, e) ↦
            rw (e, send_rows)
              (send_rows-frame (mark_claim store c.token_id o) rows u (λ i. out (inr i))
                ∙ get-mark_claim store c.token_id o u (λ same. out (inl (sym same))))
        | inr (why, e) ↦ rw (e, send_rows)
      ]

  -- A row that left the queue with a justified outcome.
  abbrev pub Settled : ClaimStore → ClaimStore → QueuedClaim → Type 0
  Settled store final c =
      (old : QueuedClaim) × (o : Outcome) × (get store c.token_id ≡ some old)
      × (get final c.token_id ≡ some (merge old o))
      × Justified (record_of c.token_id) (send c.token_id) o

  -- The rows up to the stop are settled, the row that stopped the run says why, and it and those behind
  -- it are as they were.
  abbrev pub Progress : ClaimStore → ClaimStore → List QueuedClaim → Option SendStop → Type 0
  Progress store final [] why = why ≡ none
  Progress store final (c ∷ rows) why =
      (Settled store final c × Progress store final rows why)
      ⊎ ((cause : SendStop) × (why ≡ some cause)
          × Halted (record_of c.token_id) (send c.token_id) cause
          × ((d : QueuedClaim) → In d (c ∷ rows) → get final d.token_id ≡ get store d.token_id))

  Progress-mono :
      (s s' final : ClaimStore) (rows : List QueuedClaim) (why : Option SendStop)
      → ((d : QueuedClaim) → In d rows → get s' d.token_id ≡ get s d.token_id)
      → Progress s' final rows why
      → Progress s final rows why
  Progress-mono s s' final [] why same h = h
  Progress-mono s s' final (c ∷ rows) why same (inl ((old, o, at, now, good), h)) = inl (
    (old, o, sym (same c (inl refl)) ∙ at, now, good),
    Progress-mono s s' final rows why (λ d i. same d (inr i)) h,
  )
  Progress-mono s s' final (c ∷ rows) why same (inr (cause, stopped, halted, kept)) =
      inr (cause, stopped, halted, λ d i. kept d i ∙ same d i)

  send_rows-Progress :
      (store : ClaimStore) (rows : List QueuedClaim)
      → Distinct (tokens rows)
      → ((d : QueuedClaim) → In d rows → (old : QueuedClaim) × (get store d.token_id ≡ some old))
      → Progress store
          (send_rows send record_of store rows).0
          rows
          (send_rows send record_of store rows).1
  unfolding send_rows
  send_rows-Progress store [] distinct there = refl
  send_rows-Progress store (c ∷ rows) (new, distinct) there =
      elim (Attempt-cases (attempt (record_of c.token_id) (send c.token_id))) [
        | inr (why, e) ↦
            rw (e, send_rows)
              (inr (
                why,
                refl,
                attempt-Halted (record_of c.token_id) (send c.token_id) why e,
                λ d i. refl,
              ))
        | inl (o, e) ↦
            let store' = mark_claim store c.token_id o in
            let same = λ (d : QueuedClaim) (i : In d rows).
              get-mark_claim store c.token_id o d.token_id
                (λ k. new (rw k (In-map (λ (x : QueuedClaim). x.token_id) d rows i))) in
            let (old, at) = there c (inl refl) in
            let final = (send_rows send record_of store' rows).0 in
            let why = (send_rows send record_of store' rows).1 in
            let step : send_rows send record_of store (c ∷ rows)
                ≡ send_rows send record_of store' rows =
              rw (e, send_rows) in
            subst (λ (p : ClaimStore × Option SendStop). Progress store p.0 (c ∷ rows) p.1)
              (sym step)
              (inl (
                (
                  old,
                  o,
                  at,
                  send_rows-frame store' rows c.token_id new
                      ∙ get-mark_claim_self store c.token_id o old at,
                  attempt-Justified (record_of c.token_id) (send c.token_id) o e,
                ),
                Progress-mono store store' final rows why same (
                    send_rows-Progress store' rows distinct
                      (λ d i. let (was, here) = there d (inr i) in (was, same d i ∙ here))),
              ))
      ]

-- A run takes the rows of the queue that are waiting, in the order of their handovers, and touches no
-- other. Up to the row that stops it, each row gets the outcome of its own attempt: sent only if its
-- claim landed, refused only if the chain refused it for good or holds a record past Entered. A run
-- stops only at a claim that failed and that the chain did not refuse for good: because the wallet
-- declined, or is no scanner, or gave no answer, or because the chain does not say that the record is
-- past Entered. It leaves that row and all behind it as they were, and a run that does not stop settles
-- every row. The waiting rows are in the store, one for each token.
pub send_claims-Progress :
    (send : ℕ → Answer) (record_of : ℕ → Option ChainRecord) (store : ClaimStore)
    (claims : List QueuedClaim)
    → Distinct (tokens (waiting_rows claims))
    → ((d : QueuedClaim)
        → In d (waiting_rows claims)
        → (old : QueuedClaim) × (get store d.token_id ≡ some old))
    → Progress send record_of store
        (send_claims send record_of store claims).0
        (waiting_rows claims)
        (send_claims send record_of store claims).1
      × Ordered (λ c. c.scanned_at) (waiting_rows claims)
      × ((c : QueuedClaim) → In c (waiting_rows claims) ↔ (In c claims × (c.status ≡ waiting)))
      × ((u : ℕ)
          → ¬ In u (tokens (waiting_rows claims))
          → get (send_claims send record_of store claims).0 u ≡ get store u)
unfolding send_claims
send_claims-Progress send record_of store claims distinct there = (
  send_rows-Progress send record_of store (waiting_rows claims) distinct there,
  (waiting_rows_lem claims).0,
  (waiting_rows_lem claims).1,
  send_rows-frame send record_of store (waiting_rows claims),
)
