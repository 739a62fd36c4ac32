-- ===== src/Keeper/Client.antt =====
-- be/src/keeper/rpc.ts, the footprints of be/src/chain/reader.ts and `collectKeys`. The Stellar RPC
-- is a parameter: what it reads and submits, `none` where a call throws. `W` is the network's state,
-- which only a submission changes.
use sterun.Common.{
  ◌>>=◌, ℕ, String, List, [], ◌∷◌, ◌++◌, Option, none, some, str_eq, if◌then◌else◌, any, length,
  map, Dict, string-Eq, get, put_all,
}
use sterun.Keeper.Ttl.{KeyTtl, batch, default_keys_per_query}

pub data Operation : Type 0 where
  extend_footprint_ttl : (extend_to : ℕ) → Operation
  restore_footprint : Operation

pub record SubmittedTransaction : Type 0 where
  pub hash : String
  pub status : String
  pub keys : ℕ

pub record Server (W : Type 0) : Type 0 where
  pub latest_ledger : W → Option ℕ
  -- The entries that are found, each with its last live ledger.
  pub get_ledger_entries : W → List String → Option (List (String × Option ℕ))
  -- The hash of the transaction over the keys, and its final status.
  pub submit : W → Operation → List String → W × Option (String × String)

-- The keys that the reads of a record and of a runner touch.
pub record Reader : Type 0 where
  pub record_footprint : ℕ → Option (List String)
  pub runner_footprint : String → Option (List String)

-- `seen` holds the keys of `out`.
unfoldable pub dedupe_from : List String → List String → List String
dedupe_from out [] = out
dedupe_from out (key ∷ keys) =
    if any (λ seen. str_eq seen key) out
    then dedupe_from out keys
    else dedupe_from (out ++ key ∷ []) keys

unfoldable pub dedupe_keys : List String → List String
dedupe_keys keys = dedupe_from [] keys

unfoldable pub footprints {ℓ} :
    {A : Type ℓ} → (A → Option (List String)) → List A → Option (List String)
footprints footprint [] = some []
footprints footprint (a ∷ rest) = do
  keys ← footprint a
  more ← footprints footprint rest
  some (keys ++ more)

unfoldable pub collect_keys : Reader → List ℕ → List String → Option (List String)
collect_keys reader token_ids runners = do
  of_records ← footprints reader.record_footprint token_ids
  of_runners ← footprints reader.runner_footprint runners
  some (dedupe_keys (of_records ++ of_runners))

-- `found.get(id) ?? null`.
abbrev pub flat {ℓ} : {A : Type ℓ} → Option (Option A) → Option A
flat none = none
flat (some o) = o

module _ {W : Type 0} (server : Server W) where
  unfoldable pub find_entries :
      W → Dict String (Option ℕ) → List (List String) → Option (Dict String (Option ℕ))
  find_entries w found [] = some found
  find_entries w found (chunk ∷ chunks) = do
    entries ← server.get_ledger_entries w chunk
    find_entries w (put_all found entries) chunks

  unfoldable pub live_until : W → List String → Option (List KeyTtl)
  live_until w keys = do
    chunks ← batch keys default_keys_per_query
    found ← find_entries w [] chunks
    some (map (λ id. record { id = id; live_until_ledger_seq = flat (get found id) }) keys)

  unfoldable pub submit : W → Operation → List String → W × Option SubmittedTransaction
  submit w operation keys =
      let (w', sent) = server.submit w operation keys in
      (
        w',
        elim sent [
          | none ↦ none
          | some (hash, status) ↦ some (record { hash = hash; status = status; keys = length keys })
        ],
      )

  unfoldable pub extend : W → List String → ℕ → W × Option SubmittedTransaction
  extend w keys extend_to = submit w (extend_footprint_ttl extend_to) keys

  unfoldable pub restore : W → List String → W × Option SubmittedTransaction
  restore w keys = submit w restore_footprint keys
