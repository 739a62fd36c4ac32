-- ===== src/Keeper/Ttl/Select.antt =====
-- What `selectDueKeys` selects.
use sterun.Common.{
  ℕ, ◌+◌, true, false, Bool, not, List, [], ◌∷◌, ◌++◌, append-nil, append_assoc, Option, none, some,
  ltb, ltb_iff, filter, length, ◌≡◌, ◌⊎◌, refl, sym, arith, Bool-cases, inl, inr,
}
use sterun.Common.Int.{ℤ, pos, negsuc, ◌-ℤ◌, -ℤ_parts, pos_part, neg_part}
use sterun.Keeper.Ttl.{KeyTtl, TtlSelection, is_below, select_key, select_keys, select_due_keys}

-- The last live ledger comes before `threshold` more ledgers have closed.
abbrev pub is_due : ℕ → ℕ → KeyTtl → Bool
is_due at_ledger threshold k = elim k.live_until_ledger_seq [
  | none ↦ false
  | some live_until ↦ ltb live_until (at_ledger + threshold)
]

abbrev pub is_alive : ℕ → ℕ → KeyTtl → Bool
is_alive at_ledger threshold k = elim k.live_until_ledger_seq [
  | none ↦ false
  | some live_until ↦ not (ltb live_until (at_ledger + threshold))
]

abbrev pub is_missing : KeyTtl → Bool
is_missing k = elim k.live_until_ledger_seq [ none ↦ true | some live_until ↦ false ]

parts_length :
    (at_ledger threshold : ℕ) (entries : List KeyTtl)
    → length (filter (is_due at_ledger threshold) entries)
        + length (filter (is_alive at_ledger threshold) entries)
        + length (filter is_missing entries)
      ≡ length entries
parts_length a t [] = refl
parts_length a t (k ∷ ks) = ground (arith, parts_length a t ks)

ℤ-cases : (z : ℤ) → ((n : ℕ) × (z ≡ pos n)) ⊎ ((n : ℕ) × (z ≡ negsuc n))
ℤ-cases (pos n) = inl (n, refl)
ℤ-cases (negsuc n) = inr (n, refl)

eq_parts :
    (l a : ℕ) {z w : ℤ}
    → pos_part z + 0 + a ≡ neg_part z + l + 0
    → z ≡ w
    → pos_part w + a ≡ neg_part w + l
eq_parts l a h e = rw (← e) (omega (arith, h))

then_append :
    (s f g : List KeyTtl) {s' s'' all : List KeyTtl}
    → s' ≡ s ++ f
    → s'' ≡ s' ++ g
    → all ≡ f ++ g
    → s'' ≡ s ++ all
then_append s f g e e' e'' = rw (e', e, e'') (append_assoc s f g)

is_below_lem :
    (live_until at_ledger threshold : ℕ)
    → is_below (pos live_until -ℤ pos at_ledger) threshold ≡ ltb live_until (at_ledger + threshold)
unfolding is_below
is_below_lem l a t = elim (ℤ-cases (pos l -ℤ pos a)) [
  | inl (n, e) ↦
      rw e
        (ground (arith, eq_parts l a (-ℤ_parts (pos l) (pos a)) e, ltb_iff n t, ltb_iff l (a + t)))
  | inr (n, e) ↦ rw e (ground (arith, eq_parts l a (-ℤ_parts (pos l) (pos a)) e, ltb_iff l (a + t)))
]

filter-cons :
    (p : KeyTtl → Bool) (k : KeyTtl) (ks : List KeyTtl)
    → filter p (k ∷ ks) ≡ filter p (k ∷ []) ++ filter p ks
filter-cons p k ks = ground arith

-- `s'` is `s` with the selection of some more entries.
abbrev Splits : ℕ → ℕ → TtlSelection → TtlSelection → List KeyTtl → Type 0
Splits a t s s' ks =
    (s'.due ≡ s.due ++ filter (is_due a t) ks)
    × (s'.alive ≡ s.alive ++ filter (is_alive a t) ks)
    × (s'.missing ≡ s.missing ++ filter is_missing ks)

Splits-select_key :
    (a t : ℕ) (s : TtlSelection) (k : KeyTtl) (o : Option ℕ)
    → k.live_until_ledger_seq ≡ o
    → Splits a t s (select_key a t s k o) (k ∷ [])
unfolding select_key
Splits-select_key a t s k none e =
    (ground (arith, append-nil s.due), ground (arith, append-nil s.alive), ground arith)
Splits-select_key a t s k (some l) e = elim (Bool-cases (ltb l (a + t))) [
  | inl due ↦
      rw (is_below_lem l a t, due)
        (
          ground (arith, e),
          ground (arith, append-nil s.alive),
          ground (arith, append-nil s.missing),
        )
  | inr alive ↦
      rw (is_below_lem l a t, alive)
        (ground (arith, append-nil s.due), ground arith, ground (arith, append-nil s.missing))
]

Splits-select_keys :
    (a t : ℕ) (s : TtlSelection) (ks : List KeyTtl) → Splits a t s (select_keys a t s ks) ks
unfolding select_keys
Splits-select_keys a t s [] =
    (sym (append-nil s.due), sym (append-nil s.alive), sym (append-nil s.missing))
Splits-select_keys a t s (k ∷ ks) =
    let s' = select_key a t s k k.live_until_ledger_seq in
    let (due, alive, missing) = Splits-select_key a t s k k.live_until_ledger_seq refl in
    let (due', alive', missing') = Splits-select_keys a t s' ks in
    (
      then_append _ _ _ due due' (filter-cons (is_due a t) k ks),
      then_append _ _ _ alive alive' (filter-cons (is_alive a t) k ks),
      then_append _ _ _ missing missing' (filter-cons is_missing k ks),
    )

-- The scan is split into the entries whose last live ledger comes before `threshold` ledgers have
-- passed, lapsed ones included, the other entries that are served, and those that are not; each in
-- the order of the scan, and no entry is lost or counted twice.
pub select_due_keys_lem :
    (entries : List KeyTtl) (at_ledger threshold : ℕ)
    → (select_due_keys entries at_ledger threshold ≡ record {
      due = filter (is_due at_ledger threshold) entries;
      alive = filter (is_alive at_ledger threshold) entries;
      missing = filter is_missing entries;
    })
      × (let s = select_due_keys entries at_ledger threshold in
          length s.due + length s.alive + length s.missing ≡ length entries)
unfolding select_due_keys
select_due_keys_lem entries a t =
    let (due, alive, missing) =
      Splits-select_keys a t (record { due = []; alive = []; missing = [] }) entries in
    (
      λ i. record { due = due i; alive = alive i; missing = missing i },
      rw (due, alive, missing) (parts_length a t entries),
    )
