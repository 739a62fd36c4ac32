-- ===== src/Common/Lists.antt =====
-- Lists measured and indexed by native numbers, and the array methods that the code calls with
-- Boolean callbacks (`filter`, `find`, `some`, `every`).
use Prim.Native.Nat.{ℕ, zero, suc, ◌+◌, ◌≤◌}
use mathlib.Core.Path.{◌≡◌, refl, ap}
use mathlib.Core.Logic.{◌≢◌, ◌⊎◌, inl, inr}
use mathlib.Core.Bool.{Bool, true, false, ◌&&◌, ◌||◌}
use mathlib.Core.List.{List, [], ◌∷◌, ◌++◌, map}
use mathlib.Core.Option.{Option, none, some}
use native.Mathlib.Omega.{arith}
use sterun.Common.Tests.{if◌then◌else◌, Bool-cases}

module _ {ℓ} {A : Type ℓ} where
  abbrev pub length : List A → ℕ
  length [] = 0
  length (x ∷ xs) = suc (length xs)

  abbrev pub get_elem? : List A → ℕ → Option A
  get_elem? [] i = none
  get_elem? (x ∷ xs) zero = some x
  get_elem? (x ∷ xs) (suc i) = get_elem? xs i

  -- A change of the element at an index; out of range nothing changes.
  abbrev pub modify : List A → ℕ → (A → A) → List A
  modify [] i f = []
  modify (x ∷ xs) zero f = f x ∷ xs
  modify (x ∷ xs) (suc i) f = x ∷ modify xs i f

  abbrev pub filter : (A → Bool) → List A → List A
  filter p [] = []
  filter p (x ∷ xs) = if p x then x ∷ filter p xs else filter p xs

  abbrev pub find? : (A → Bool) → List A → Option A
  find? p [] = none
  find? p (x ∷ xs) = if p x then some x else find? p xs

  abbrev pub any : (A → Bool) → List A → Bool
  any p [] = false
  any p (x ∷ xs) = p x || any p xs

  abbrev pub all : (A → Bool) → List A → Bool
  all p [] = true
  all p (x ∷ xs) = p x && all p xs

module _ {ℓ κ} {A : Type ℓ} (P : A → Type κ) where
  abbrev pub All : List A → Type κ
  All [] = Unit
  All (x ∷ xs) = P x × All xs

  pub All-append : (xs ys : List A) → All xs → All ys → All (xs ++ ys)
  All-append [] ys h k = k
  All-append (x ∷ xs) ys (p, h) k = (p, All-append xs ys h k)

  pub All-modify :
      (xs : List A) (i : ℕ) (f : A → A) → ((x : A) → P x → P (f x)) → All xs → All (modify xs i f)
  All-modify [] i f k h = h
  All-modify (x ∷ xs) zero f k (p, h) = (k x p, h)
  All-modify (x ∷ xs) (suc i) f k (p, h) = (p, All-modify xs i f k h)

module _ {ℓ} {A : Type ℓ} where
  pub length-append : (xs ys : List A) → length (xs ++ ys) ≡ length xs + length ys
  length-append [] ys = omega arith
  length-append (x ∷ xs) ys = omega (arith, length-append xs ys)

  pub length-modify : (xs : List A) (i : ℕ) (f : A → A) → length (modify xs i f) ≡ length xs
  length-modify [] i f = refl
  length-modify (x ∷ xs) zero f = refl
  length-modify (x ∷ xs) (suc i) f = ap suc (length-modify xs i f)

  pub length-filter-le : (p : A → Bool) (xs : List A) → length (filter p xs) ≤ length xs
  length-filter-le p [] = omega arith
  length-filter-le p (x ∷ xs) = ground (arith, length-filter-le p xs)

module _ {ℓ κ} {A : Type ℓ} {B : Type κ} where
  pub length-map : (f : A → B) (xs : List A) → length (map f xs) ≡ length xs
  length-map f [] = refl
  length-map f (x ∷ xs) = ap suc (length-map f xs)

  -- A change that leaves what `g` reads alone.
  pub map-modify :
      (g : A → B) (xs : List A) (i : ℕ) (f : A → A)
      → ((x : A) → g (f x) ≡ g x)
      → map g (modify xs i f) ≡ map g xs
  map-modify g [] i f h = refl
  map-modify g (x ∷ xs) zero f h = ap (λ y. y ∷ map g xs) (h x)
  map-modify g (x ∷ xs) (suc i) f h = ap (λ ys. g x ∷ ys) (map-modify g xs i f h)

module _ {ℓ} {A : Type ℓ} where
  pub get_elem?-concat :
      (xs : List A) (x y : A) (i : ℕ)
      → get_elem? (xs ++ x ∷ []) i ≡ some y
      → (get_elem? xs i ≡ some y) ⊎ ((i ≡ length xs) × (x ≡ y))
  get_elem?-concat [] x y zero h = inr (refl, ground arith)
  get_elem?-concat [] x y (suc i) h = cc
  get_elem?-concat (z ∷ xs) x y zero h = inl h
  get_elem?-concat (z ∷ xs) x y (suc i) h = elim (get_elem?-concat xs x y i h) [
    | inl e ↦ inl e
    | inr (e, e') ↦ inr (ap suc e, e')
  ]

  pub any-concat : (p : A → Bool) (xs : List A) (x : A) → p x ≡ true → any p (xs ++ x ∷ []) ≡ true
  any-concat p [] x h = ground arith
  any-concat p (y ∷ xs) x h = ground (arith, any-concat p xs x h)

  pub get_elem?-modify :
      (xs : List A) (j i : ℕ) (f : A → A) (y : A)
      → get_elem? (modify xs j f) i ≡ some y
      → ((x : A) × (i ≡ j) × (get_elem? xs i ≡ some x) × (f x ≡ y))
        ⊎ ((i ≢ j) × (get_elem? xs i ≡ some y))
  get_elem?-modify [] j i f y h = cc
  get_elem?-modify (x ∷ xs) zero zero f y h = inl (x, refl, refl, ground arith)
  get_elem?-modify (x ∷ xs) zero (suc i) f y h = inr (ground arith, h)
  get_elem?-modify (x ∷ xs) (suc j) zero f y h = inr (ground arith, h)
  get_elem?-modify (x ∷ xs) (suc j) (suc i) f y h = elim (get_elem?-modify xs j i f y h) [
    | inl (x', e, at, same) ↦ inl (x', ap suc e, at, same)
    | inr (ne, e) ↦ inr (ground arith, e)
  ]

  pub any-append : (p : A → Bool) (xs ys : List A) → any p (xs ++ ys) ≡ (any p xs || any p ys)
  any-append p [] ys = refl
  any-append p (x ∷ xs) ys = ground (arith, any-append p xs ys)

module _ {ℓ} {A : Type ℓ} where
  pub append-eq-nil : (xs ys : List A) → xs ++ ys ≡ [] → (xs ≡ []) × (ys ≡ [])
  append-eq-nil [] ys h = (refl, h)
  append-eq-nil (x ∷ xs) ys h = cc

  pub All-filter {κ} :
      (P : A → Type κ) (p : A → Bool) (xs : List A)
      → All (λ x. p x ≡ true → P x) xs
      → All P (filter p xs)
  All-filter P p [] h = tt
  All-filter P p (x ∷ xs) (k, h) = elim (Bool-cases (p x)) [
    | inl e ↦ rw e (k e, All-filter P p xs h)
    | inr e ↦ rw e (All-filter P p xs h)
  ]

module _ {A : Type 0} where
  -- Membership, as a place in the list.
  abbrev pub In : A → List A → Type 0
  In x [] = ⊥
  In x (y ∷ ys) = (x ≡ y) ⊎ In x ys

  pub In-filter : (p : A → Bool) (x : A) (xs : List A) → In x (filter p xs) → In x xs × (p x ≡ true)
  In-filter p x [] h = absurd h
  In-filter p x (y ∷ ys) h = elim (Bool-cases (p y)) [
    | inl e ↦ elim (rw e at h) [
      | inl here ↦ (inl here, rw here e)
      | inr later ↦ (inr (In-filter p x ys later).0, (In-filter p x ys later).1)
    ]
    | inr e ↦ let later = In-filter p x ys (rw e at h) in (inr later.0, later.1)
  ]

module _ {A B : Type 0} where
  pub In-map : (f : A → B) (x : A) (xs : List A) → In x xs → In (f x) (map f xs)
  In-map f x [] h = h
  In-map f x (y ∷ ys) (inl here) = inl (ap f here)
  In-map f x (y ∷ ys) (inr later) = inr (In-map f x ys later)

module _ {A : Type 0} where
  -- No element stands at two places.
  abbrev pub Distinct : List A → Type 0
  Distinct [] = Unit
  Distinct (x ∷ xs) = (¬ In x xs) × Distinct xs
