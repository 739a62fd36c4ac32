-- ===== src/Keeper/Ttl.antt =====
-- be/src/keeper/ttl.ts. A ledger key is its base64 XDR, by which the code compares keys. A ledger
-- sequence is a natural number; the ledgers that remain can be negative.
pub mod Select
pub mod Batch
use sterun.Common.{
  ℕ, zero, suc, ◌+◌, ◌-◌, ◌*◌, String, Bool, true, false, List, [], ◌∷◌, ◌++◌, Option, none, some,
  ◌==◌, ltb, length, if◌then◌else◌,
}
use sterun.Common.Int.{ℤ, pos, negsuc, ◌-ℤ◌}

abbrev pub day_in_ledgers : ℕ
day_in_ledgers = 17_280

abbrev pub default_threshold_ledgers : ℕ
default_threshold_ledgers = 120 * day_in_ledgers

abbrev pub max_entry_ttl_ledgers : ℕ
max_entry_ttl_ledgers = 180 * day_in_ledgers

abbrev pub default_extend_to_ledgers : ℕ
default_extend_to_ledgers = max_entry_ttl_ledgers - 1

abbrev pub default_keys_per_transaction : ℕ
default_keys_per_transaction = 25

abbrev pub default_keys_per_query : ℕ
default_keys_per_query = 100

pub record KeyTtl : Type 0 where
  pub id : String
  pub live_until_ledger_seq : Option ℕ

pub record TtlSelection : Type 0 where
  pub due : List KeyTtl
  pub alive : List KeyTtl
  pub missing : List KeyTtl

-- `remaining < thresholdLedgers`.
unfoldable pub is_below : ℤ → ℕ → Bool
is_below (pos n) threshold = ltb n threshold
is_below (negsuc n) threshold = true

unfoldable pub select_key : ℕ → ℕ → TtlSelection → KeyTtl → Option ℕ → TtlSelection
select_key at_ledger threshold s entry none = record s { missing = s.missing ++ entry ∷ [] }
select_key at_ledger threshold s entry (some live_until) =
    if is_below (pos live_until -ℤ pos at_ledger) threshold
    then record s { due = s.due ++ entry ∷ [] }
    else record s { alive = s.alive ++ entry ∷ [] }

unfoldable pub select_keys : ℕ → ℕ → TtlSelection → List KeyTtl → TtlSelection
select_keys at_ledger threshold s [] = s
select_keys at_ledger threshold s (entry ∷ entries) =
    select_keys at_ledger threshold
      (select_key at_ledger threshold s entry entry.live_until_ledger_seq) entries

unfoldable pub select_due_keys : List KeyTtl → (at_ledger threshold : ℕ) → TtlSelection
select_due_keys entries at_ledger threshold =
    select_keys at_ledger threshold (record { due = []; alive = []; missing = [] }) entries

module _ {ℓ} {A : Type ℓ} where
  -- `items.slice(from, from + count)`.
  unfoldable pub slice : List A → (from count : ℕ) → List A
  slice [] from count = []
  slice (x ∷ xs) (suc from) count = slice xs from count
  slice (x ∷ xs) zero zero = []
  slice (x ∷ xs) zero (suc count) = x ∷ slice xs zero count

  -- The loop over `i`; each round adds `size` to it.
  unfoldable pub batch_from : (fuel : ℕ) → List A → (size i : ℕ) → List (List A)
  batch_from zero items size i = []
  batch_from (suc fuel) items size i =
      let rest = batch_from fuel items size (i + size) in
      if ltb i (length items) then slice items i size ∷ rest else []

  -- None for the RangeError. Each round moves `i` by at least one, so the length is enough fuel.
  unfoldable pub batch : List A → ℕ → Option (List (List A))
  batch items size = if size == 0 then none else some (batch_from (length items) items size 0)
