-- ===== src/Keeper/Ttl/Batch.antt =====
-- What `batch` cuts.
use sterun.Common.{
  ℕ, suc, zero, ◌+◌, ◌-◌, ◌≤◌, ◌<◌, List, [], ◌∷◌, ◌++◌, some, ltb_iff, dec_lt, ==_iff, length, ◌⊎◌,
  ◌≡◌, refl, ap, sym, arith, inl, inr,
}
use sterun.Keeper.Ttl.{slice, batch_from, batch}

module _ {ℓ} {A : Type ℓ} where
  abbrev pub concat : List (List A) → List A
  concat [] = []
  concat (c ∷ cs) = c ++ concat cs

  -- Every chunk is full but the last, which is not empty.
  abbrev pub IsChunking : ℕ → List (List A) → Type 0
  IsChunking size [] = Unit
  IsChunking size (c ∷ []) = (0 < length c) × (length c ≤ size)
  IsChunking size (c ∷ d ∷ cs) = (length c ≡ size) × IsChunking size (d ∷ cs)

  abbrev drop : ℕ → List A → List A
  drop zero xs = xs
  drop (suc n) [] = []
  drop (suc n) (x ∷ xs) = drop n xs

  drop-nil : (n : ℕ) → drop n [] ≡ []
  drop-nil zero = refl
  drop-nil (suc n) = refl

  slice-drop : (xs : List A) (i n k : ℕ) → k ≡ i + n → slice xs i n ++ drop k xs ≡ drop i xs
  unfolding slice
  slice-drop [] i n k h = rw (drop-nil k, drop-nil i) refl
  slice-drop (x ∷ xs) zero zero zero h = refl
  slice-drop (x ∷ xs) zero zero (suc k) h = absurd (omega arith)
  slice-drop (x ∷ xs) zero (suc n) zero h = absurd (omega arith)
  slice-drop (x ∷ xs) zero (suc n) (suc k) h =
      ap (λ ys. x ∷ ys) (slice-drop xs zero n k (omega arith))
  slice-drop (x ∷ xs) (suc i) n zero h = absurd (omega arith)
  slice-drop (x ∷ xs) (suc i) n (suc k) h = slice-drop xs i n k (omega arith)

  length-slice :
      (xs : List A) (i n : ℕ)
      → (i + n ≤ length xs → length (slice xs i n) ≡ n)
        × (length xs ≤ i + n → length (slice xs i n) ≡ length xs - i)
  unfolding slice
  length-slice [] i n = omega arith
  length-slice (x ∷ xs) zero zero = omega arith
  length-slice (x ∷ xs) zero (suc n) =
      omega (arith, (length-slice xs zero n).0, (length-slice xs zero n).1)
  length-slice (x ∷ xs) (suc i) n = omega (arith, (length-slice xs i n).0, (length-slice xs i n).1)

  drop-all : (xs : List A) (i : ℕ) → length xs ≤ i → drop i xs ≡ []
  drop-all [] zero h = refl
  drop-all [] (suc i) h = refl
  drop-all (x ∷ xs) zero h = absurd (omega arith)
  drop-all (x ∷ xs) (suc i) h = drop-all xs i (omega arith)

  batch_from-stops :
      (fuel : ℕ) (xs : List A) (size i : ℕ) → length xs ≤ i → batch_from fuel xs size i ≡ []
  unfolding batch_from
  batch_from-stops zero xs size i h = refl
  batch_from-stops (suc fuel) xs size i h = ground (arith, ltb_iff i (length xs))

  batch_from-zero : (xs : List A) (size i : ℕ) → batch_from zero xs size i ≡ []
  unfolding batch_from
  batch_from-zero xs size i = refl

  batch_from-more :
      (fuel : ℕ) (xs : List A) (size i : ℕ)
      → i < length xs
      → batch_from (suc fuel) xs size i ≡ slice xs i size ∷ batch_from fuel xs size (i + size)
  unfolding batch_from
  batch_from-more fuel xs size i h = ground (arith, ltb_iff i (length xs))

  batch_from-concat :
      (fuel : ℕ) (xs : List A) (size i : ℕ)
      → 0 < size
      → length xs ≤ i + fuel
      → concat (batch_from fuel xs size i) ≡ drop i xs
  batch_from-concat zero xs size i pos_s h =
      rw (batch_from-stops zero xs size i (omega arith)) (sym (drop-all xs i (omega arith)))
  batch_from-concat (suc fuel) xs size i pos_s h = elim (dec_lt i (length xs)) [
    | yes more ↦
        rw
          (
            batch_from-more fuel xs size i more,
            batch_from-concat fuel xs size (i + size) pos_s (omega arith),
          )
          (slice-drop xs i size (i + size) refl)
    | no stop ↦
        rw (batch_from-stops (suc fuel) xs size i (omega arith)) (sym (drop-all xs i (omega arith)))
  ]

  IsChunking-cons :
      (size : ℕ) (c : List A) (cs : List (List A))
      → 0 < length c
      → length c ≤ size
      → (cs ≡ []) ⊎ (length c ≡ size)
      → IsChunking size cs
      → IsChunking size (c ∷ cs)
  IsChunking-cons size c [] p h full k = (p, h)
  IsChunking-cons size c (d ∷ cs) p h (inl e) k = cc
  IsChunking-cons size c (d ∷ cs) p h (inr e) k = (e, k)

  batch_from-IsChunking :
      (fuel : ℕ) (xs : List A) (size i : ℕ) → 0 < size → IsChunking size (batch_from fuel xs size i)
  batch_from-IsChunking zero xs size i pos_s = rw (batch_from-zero xs size i) tt
  batch_from-IsChunking (suc fuel) xs size i pos_s = elim (dec_lt i (length xs)) [
    | yes more ↦
        let (full, short) = length-slice xs i size in
        let chunk = batch_from-more fuel xs size i more in
        rw chunk (
          IsChunking-cons size (slice xs i size) _
            (elim (dec_lt (i + size) (length xs)) [
              | yes far ↦ omega (arith, full)
              | no near ↦ omega (arith, short)
            ])
            (elim (dec_lt (i + size) (length xs)) [
              | yes far ↦ omega (arith, full)
              | no near ↦ omega (arith, short)
            ])
            (elim (dec_lt (i + size) (length xs)) [
              | yes far ↦ inr (full (omega arith))
              | no near ↦ inl (batch_from-stops fuel xs size (i + size) (omega arith))
            ])
            (batch_from-IsChunking fuel xs size (i + size) pos_s))
    | no stop ↦ rw (batch_from-stops (suc fuel) xs size i (omega arith)) tt
  ]

-- Over a size of at least one the chunks are found: one after the other they are the items in their
-- order, each chunk but the last is full, and the last is not empty.
pub batch-concat {ℓ} :
    {A : Type ℓ} (items : List A) (size : ℕ)
    → 0 < size
    → (chunks : List (List A)) × (batch items size ≡ some chunks)
      × (concat chunks ≡ items)
      × IsChunking size chunks
unfolding batch
batch-concat items size pos_s = (
  batch_from (length items) items size 0,
  ground (arith, ==_iff size 0),
  batch_from-concat (length items) items size 0 pos_s (omega arith),
  batch_from-IsChunking (length items) items size 0 pos_s,
)
