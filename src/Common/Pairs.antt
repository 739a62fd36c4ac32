-- ===== src/Common/Pairs.antt =====
-- Two lists whose elements are related place by place.
use Prim.Native.Nat.{ℕ, zero, suc}
use mathlib.Core.Path.{◌≡◌, refl, ap, subst}
use mathlib.Core.List.{List, [], ◌∷◌, ◌++◌}
use mathlib.Core.Option.{some, some-injective}
use sterun.Common.Lists.{length, get_elem?, modify}

module _ {A B : Type 0} (R : A → B → Type 0) where
  abbrev pub Aligned : List A → List B → Type 0
  Aligned [] [] = Unit
  Aligned (x ∷ xs) (y ∷ ys) = R x y × Aligned xs ys
  Aligned _ _ = ⊥

  pub Aligned-concat :
      (xs : List A) (ys : List B) (x : A) (y : B)
      → Aligned xs ys
      → R x y
      → Aligned (xs ++ x ∷ []) (ys ++ y ∷ [])
  Aligned-concat [] [] x y h r = (r, tt)
  Aligned-concat [] (z ∷ ys) x y h r = absurd h
  Aligned-concat (z ∷ xs) [] x y h r = absurd h
  Aligned-concat (z ∷ xs) (w ∷ ys) x y (q, h) r = (q, Aligned-concat xs ys x y h r)

  pub Aligned-modify :
      (xs : List A) (ys : List B) (i : ℕ) (f : B → B)
      → ((x : A) (y : B) → R x y → R x (f y))
      → Aligned xs ys
      → Aligned xs (modify ys i f)
  Aligned-modify [] [] i f k h = h
  Aligned-modify [] (z ∷ ys) i f k h = absurd h
  Aligned-modify (z ∷ xs) [] i f k h = absurd h
  Aligned-modify (z ∷ xs) (w ∷ ys) zero f k (q, h) = (k z w q, h)
  Aligned-modify (z ∷ xs) (w ∷ ys) (suc i) f k (q, h) = (q, Aligned-modify xs ys i f k h)

  pub Aligned-length : (xs : List A) (ys : List B) → Aligned xs ys → length ys ≡ length xs
  Aligned-length [] [] h = refl
  Aligned-length [] (z ∷ ys) h = absurd h
  Aligned-length (z ∷ xs) [] h = absurd h
  Aligned-length (z ∷ xs) (w ∷ ys) (q, h) = ap suc (Aligned-length xs ys h)

  pub Aligned-get_elem? :
      (xs : List A) (ys : List B) (i : ℕ) (y : B)
      → Aligned xs ys
      → get_elem? ys i ≡ some y
      → (x : A) × (get_elem? xs i ≡ some x) × R x y
  Aligned-get_elem? [] [] i y h e = cc
  Aligned-get_elem? [] (z ∷ ys) i y h e = absurd h
  Aligned-get_elem? (z ∷ xs) [] i y h e = absurd h
  Aligned-get_elem? (z ∷ xs) (w ∷ ys) zero y (q, h) e =
      (z, refl, subst (R z) (some-injective w y e) q)
  Aligned-get_elem? (z ∷ xs) (w ∷ ys) (suc i) y (q, h) e = Aligned-get_elem? xs ys i y h e
