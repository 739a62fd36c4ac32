-- ===== src/Common/Sort.antt =====
-- JavaScript's stable `sort` by a numeric key.
use Prim.Native.Nat.{ℕ, ◌≤◌}
use mathlib.Core.Path.{◌≡◌, refl}
use mathlib.Core.Logic.{inl, inr}
use mathlib.Core.Bool.{Bool, true, false}
use mathlib.Core.List.{List, [], ◌∷◌}
use mathlib.Core.Option.{none, some}
use native.Mathlib.Omega.{arith}
use sterun.Common.Tests.{leb, if◌then◌else◌, Bool-cases}
use sterun.Common.Lists.{In, find?, filter}

module _ {A : Type 0} (key : A → ℕ) where
  unfoldable pub insert_by : A → List A → List A
  insert_by x [] = x ∷ []
  insert_by x (y ∷ ys) = if leb (key x) (key y) then x ∷ y ∷ ys else y ∷ insert_by x ys

  unfoldable pub sort_by : List A → List A
  unfolding insert_by
  sort_by [] = []
  sort_by (x ∷ xs) = insert_by x (sort_by xs)

  In-insert_by : (z x : A) (ys : List A) → In z (x ∷ ys) → In z (insert_by x ys)
  unfolding insert_by
  In-insert_by z x [] h = h
  In-insert_by z x (y ∷ ys) h = elim (Bool-cases (leb (key x) (key y))) [
    | inl e ↦ rw e h
    | inr e ↦ rw e (elim h [
      | inl here ↦ inr (In-insert_by z x ys (inl here))
      | inr (inl next) ↦ inl next
      | inr (inr later) ↦ inr (In-insert_by z x ys (inr later))
    ])
  ]

  pub In-sort_by : (z : A) (xs : List A) → In z xs → In z (sort_by xs)
  unfolding sort_by
  In-sort_by z [] h = h
  In-sort_by z (x ∷ xs) (inl here) = In-insert_by z x (sort_by xs) (inl here)
  In-sort_by z (x ∷ xs) (inr later) = In-insert_by z x (sort_by xs) (inr (In-sort_by z xs later))

module _ {A : Type 0} (key : A → ℕ) where
  abbrev pub Ordered : List A → Type 0
  Ordered [] = Unit
  Ordered (x ∷ xs) = ((y : A) → In y xs → key x ≤ key y) × Ordered xs

  In-insert_by_back : (z x : A) (ys : List A) → In z (insert_by key x ys) → In z (x ∷ ys)
  unfolding insert_by
  In-insert_by_back z x [] h = h
  In-insert_by_back z x (y ∷ ys) h = elim (Bool-cases (leb (key x) (key y))) [
    | inl e ↦ rw e at h
    | inr e ↦ elim (rw e at h) [
      | inl here ↦ inr (inl here)
      | inr later ↦ elim (In-insert_by_back z x ys later) [
        | inl new ↦ inl new
        | inr old ↦ inr (inr old)
      ]
    ]
  ]

  pub In-sort_by_back : (z : A) (xs : List A) → In z (sort_by key xs) → In z xs
  unfolding sort_by
  In-sort_by_back z [] h = h
  In-sort_by_back z (x ∷ xs) h = elim (In-insert_by_back z x (sort_by key xs) h) [
    | inl here ↦ inl here
    | inr later ↦ inr (In-sort_by_back z xs later)
  ]

  Ordered-insert_by : (x : A) (ys : List A) → Ordered ys → Ordered (insert_by key x ys)
  unfolding insert_by
  Ordered-insert_by x [] h = (λ y i. absurd i, tt)
  Ordered-insert_by x (y ∷ ys) (least, h) = elim (Bool-cases (leb (key x) (key y))) [
    | inl e ↦ rw e (
      λ z i. elim i [
        | inl here ↦ rw here (ground arith)
        | inr later ↦ ground (arith, least z later)
      ],
      (least, h),
    )
    | inr e ↦ rw e (
      λ z i. elim (In-insert_by_back z x ys i) [
        | inl new ↦ rw new (ground arith)
        | inr old ↦ least z old
      ],
      Ordered-insert_by x ys h,
    )
  ]

  pub Ordered-sort_by : (xs : List A) → Ordered (sort_by key xs)
  unfolding sort_by
  Ordered-sort_by [] = tt
  Ordered-sort_by (x ∷ xs) = Ordered-insert_by x (sort_by key xs) (Ordered-sort_by xs)

module _ {A : Type 0} (p : A → Bool) where
  pub In-filter_of : (x : A) (xs : List A) → In x xs → p x ≡ true → In x (filter p xs)
  In-filter_of x [] h e = h
  In-filter_of x (y ∷ ys) (inl here) e = rw (← here, e) (inl refl)
  In-filter_of x (y ∷ ys) (inr later) e = elim (Bool-cases (p y)) [
    | inl k ↦ rw k (inr (In-filter_of x ys later e))
    | inr k ↦ rw k (In-filter_of x ys later e)
  ]

  -- What `find` returns is in the array and passes the test; none, and nothing passes it.
  pub find?-some : (xs : List A) (x : A) → find? p xs ≡ some x → In x xs × (p x ≡ true)
  find?-some [] x h = cc
  find?-some (y ∷ ys) x h = elim (Bool-cases (p y)) [
    | inl k ↦ ground arith
    | inr k ↦ let (later, e) = find?-some ys x (ground arith) in (inr later, e)
  ]

  pub find?-none : (xs : List A) (x : A) → find? p xs ≡ none → In x xs → p x ≡ false
  find?-none [] x h i = absurd i
  find?-none (y ∷ ys) x h (inl here) = ground arith
  find?-none (y ∷ ys) x h (inr later) = find?-none ys x (ground arith) later
