-- ===== src/Faucet/Fading.antt =====
-- The two limits of the faucet on a table, and what settling a payout does to them.
use sterun.Common.{
  ℕ, ◌+◌, ◌*◌, ◌≤◌, ◌<◌, String, Bool, true, ◌&&◌, List, [], ◌∷◌, Option, none, some, ◌==◌, ==_iff,
  str_eq, eq_iff, ltb, ltb_iff, leb, leb_iff, if◌then◌else◌, filter, All, ◌≡◌, refl, sym, ap, subst,
  ◌∙◌, get_elem?, suc, zero, arith, Bool-cases, inl, inr,
}
use sterun.Faucet.{
  pending, Payout, ClaimRequest, hour_ms, day_ms, counts, is_within, latest_request, total_stroops,
  Settlement, settled_paid, settled_failed, settle_row, settle_rows,
}

-- The faucet's configuration.
pub record Limits : Type 0 where
  pub amount_stroops : ℕ
  pub window_hours : ℕ
  pub daily_cap_stroops : ℕ

abbrev pub request_of : Limits → String → ClaimRequest
request_of l address = record {
  address = address;
  amount_stroops = l.amount_stroops;
  window_hours = l.window_hours;
  daily_cap_stroops = l.daily_cap_stroops;
}

-- The rows with this id are still pending.
abbrev pub IsPending : ℕ → List Payout → Type 0
IsPending payout_id rows = All (λ p. p.id ≡ payout_id → p.status ≡ pending) rows

-- An older payout of the same address is a whole window older.
abbrev pub Apart : Limits → Payout → Payout → Type 0
Apart l new old =
    counts new ≡ true
    → counts old ≡ true
    → old.address ≡ new.address
    → old.requested_at + l.window_hours * hour_ms ≤ new.requested_at

abbrev pub Spaced : Limits → List Payout → Type 0
Spaced l [] = Unit
Spaced l (p ∷ older) = All (Apart l p) older × Spaced l older

-- A payout and the counted ones in the day before it are within the cap.
abbrev pub Capped : Limits → List Payout → Type 0
Capped l [] = Unit
Capped l (p ∷ older) =
    (counts p ≡ true
      → p.amount_stroops + total_stroops (filter (is_within p.requested_at day_ms) older)
        ≤ l.daily_cap_stroops)
    × Capped l older

pub latest_request-none : (rows : List Payout) → latest_request rows ≡ none → rows ≡ []
unfolding latest_request
latest_request-none [] h = refl
latest_request-none (p ∷ rest) h = ground arith

pub claim-Apart :
    (l : Limits) (now : ℕ) (new : Payout) (rows : List Payout)
    → new.requested_at ≡ now
    → filter (λ p. str_eq p.address new.address && is_within now (l.window_hours * hour_ms) p) rows
      ≡ []
    → All (Apart l new) rows
unfolding is_within
claim-Apart l now new [] e h = tt
claim-Apart l now new (p ∷ rest) e h =
    elim (Bool-cases (
      str_eq p.address new.address
      && (counts p && ltb now (p.requested_at + l.window_hours * hour_ms)))) [
        | inl yes' ↦ absurd (ground arith)
        | inr no' ↦ (
          λ _ counted same. ground (
            arith,
            eq_iff p.address new.address,
            ltb_iff now (p.requested_at + l.window_hours * hour_ms),
          ),
          claim-Apart l now new rest e (ground arith),
        )
      ]

-- A row after a settlement: it may have ceased to count, and nothing else that the limits read.
abbrev pub Fades : Payout → Payout → Type 0
Fades p' p =
    (counts p' ≡ true → counts p ≡ true)
    × (p'.address ≡ p.address)
    × (p'.requested_at ≡ p.requested_at)
    × (p'.amount_stroops ≡ p.amount_stroops)

abbrev pub settle_one : ℕ → Settlement → Payout → Payout
settle_one payout_id outcome p = if p.id == payout_id then settle_row outcome p else p

Fades-settle_row : (o : Settlement) (p : Payout) → p.status ≡ pending → Fades (settle_row o p) p
unfolding settle_row counts
Fades-settle_row (settled_paid tx) p e = (λ _. ground arith, refl, refl, refl)
Fades-settle_row settled_failed p e = (λ h. absurd (cc h), refl, refl, refl)

Fades-settle_one :
    (payout_id : ℕ) (o : Settlement) (p : Payout)
    → (p.id ≡ payout_id → p.status ≡ pending)
    → Fades (settle_one payout_id o p) p
Fades-settle_one i o p h = elim (Bool-cases (p.id == i)) [
  | inl e ↦ rw e (Fades-settle_row o p (h ((==_iff p.id i).0 e)))
  | inr e ↦ rw e (λ c. c, refl, refl, refl)
]

Apart-settle_rows :
    (l : Limits) (i : ℕ) (o : Settlement) (p p' : Payout) (rows : List Payout)
    → Fades p' p
    → IsPending i rows
    → All (Apart l p) rows
    → All (Apart l p') (settle_rows i o rows)
unfolding settle_rows
Apart-settle_rows l i o p p' [] f pend h = tt
Apart-settle_rows l i o p p' (q ∷ rest) f (pend, pends) (h, hs) =
    let g = Fades-settle_one i o q pend in
    (
      λ c d same.
          let far = h (f.0 c) (g.0 d) (sym g.1 ∙ same ∙ f.1) in omega (arith, far, f.2, g.2),
      Apart-settle_rows l i o p p' rest f pends hs,
    )

pub Spaced-settle_rows :
    (l : Limits) (i : ℕ) (o : Settlement) (rows : List Payout)
    → IsPending i rows
    → Spaced l rows
    → Spaced l (settle_rows i o rows)
unfolding settle_rows
Spaced-settle_rows l i o [] pend h = tt
Spaced-settle_rows l i o (p ∷ rest) (pend, pends) (h, hs) = (
  Apart-settle_rows l i o p _ rest (Fades-settle_one i o p pend) pends h,
  Spaced-settle_rows l i o rest pends hs,
)

total-filter-cons :
    (q : Payout → Bool) (p : Payout) (rest : List Payout)
    → total_stroops (filter q (p ∷ rest))
      ≡ (if q p then p.amount_stroops else 0) + total_stroops (filter q rest)
unfolding total_stroops
total-filter-cons q p rest = ground arith

total-settle_rows-le :
    (now : ℕ) (i : ℕ) (o : Settlement) (rows : List Payout)
    → IsPending i rows
    → total_stroops (filter (is_within now day_ms) (settle_rows i o rows))
      ≤ total_stroops (filter (is_within now day_ms) rows)
unfolding settle_rows total_stroops is_within
total-settle_rows-le now i o [] pend = omega arith
total-settle_rows-le now i o (p ∷ rest) (pend, pends) =
    let (fade, _, at, amount) = Fades-settle_one i o p pend in
    let rest_le = total-settle_rows-le now i o rest pends in
    ground (
      arith,
      total-filter-cons (is_within now day_ms) (settle_one i o p) (settle_rows i o rest),
      total-filter-cons (is_within now day_ms) p rest,
      rest_le,
    )

pub Capped-settle_rows :
    (l : Limits) (i : ℕ) (o : Settlement) (rows : List Payout)
    → IsPending i rows
    → Capped l rows
    → Capped l (settle_rows i o rows)
unfolding settle_rows
Capped-settle_rows l i o [] pend h = tt
Capped-settle_rows l i o (p ∷ rest) (pend, pends) (h, hs) =
    let (fade, _, at, amount) = Fades-settle_one i o p pend in
    let less = total-settle_rows-le p.requested_at i o rest pends in
    (λ c. rw (at, amount) (omega (arith, h (fade c), less)), Capped-settle_rows l i o rest pends hs)

-- A counted payout requested in the day that ends at a time.
abbrev pub in_day : ℕ → Payout → Bool
in_day day_end p = counts p && (leb p.requested_at day_end && ltb day_end (p.requested_at + day_ms))

abbrev pub day_total : ℕ → List Payout → ℕ
day_total day_end rows = total_stroops (filter (in_day day_end) rows)

day_total-le :
    (day_end now : ℕ) (rows : List Payout)
    → now ≤ day_end
    → day_total day_end rows ≤ total_stroops (filter (is_within now day_ms) rows)
unfolding total_stroops is_within
day_total-le e now [] h = omega arith
day_total-le e now (p ∷ rest) h = ground (
  arith,
  total-filter-cons (in_day e) p rest,
  total-filter-cons (is_within now day_ms) p rest,
  day_total-le e now rest h,
  leb_iff p.requested_at e,
  ltb_iff e (p.requested_at + day_ms),
  ltb_iff now (p.requested_at + day_ms),
)

pub day_total_le :
    (l : Limits) (day_end : ℕ) (rows : List Payout)
    → Capped l rows
    → total_stroops (filter (in_day day_end) rows) ≤ l.daily_cap_stroops
unfolding total_stroops
day_total_le l e [] h = omega arith
day_total_le l e (p ∷ rest) (h, hs) = elim (Bool-cases (in_day e p)) [
  | inl inside ↦
      rw inside (ground (arith, day_total-le e p.requested_at rest, h, leb_iff p.requested_at e))
  | inr outside ↦ rw outside (day_total_le l e rest hs)
]

abbrev pub payout_or : Payout → Option Payout → Payout
payout_or p none = p
payout_or p (some q) = q

All-get :
    (P : Payout → Type 0) (rows : List Payout) (i : ℕ) (p : Payout)
    → All P rows
    → get_elem? rows i ≡ some p
    → P p
All-get P [] i p h e = absurd (cc e)
All-get P (q ∷ rest) zero p (h, hs) e = subst P (ap (payout_or q) e) h
All-get P (q ∷ rest) (suc i) p (h, hs) e = All-get P rest i p hs e

pub Spaced-get :
    (l : Limits) (rows : List Payout) (i j : ℕ) (new old : Payout)
    → Spaced l rows
    → i < j
    → get_elem? rows i ≡ some new
    → get_elem? rows j ≡ some old
    → Apart l new old
Spaced-get l [] i j new old h lt at at' = cc
Spaced-get l (p ∷ rest) zero zero new old h lt at at' = absurd (omega arith)
Spaced-get l (p ∷ rest) zero (suc j) new old (h, hs) lt at at' =
    subst (λ q. Apart l q old) (ap (payout_or p) at) (All-get (Apart l p) rest j old h at')
Spaced-get l (p ∷ rest) (suc i) zero new old h lt at at' = absurd (omega arith)
Spaced-get l (p ∷ rest) (suc i) (suc j) new old (h, hs) lt at at' =
    Spaced-get l rest i j new old hs (omega arith) at at'
