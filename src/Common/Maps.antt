-- ===== src/Common/Maps.antt =====
-- JavaScript's `Map`: insertion order is kept, and `set` on a present key replaces in place.
use Prim.Native.Nat.{ℕ, suc}
use Prim.Native.String.{String}
use mathlib.Core.Path.{◌≡◌, refl, subst, ap}
use mathlib.Core.Logic.{◌↔◌, inl, inr}
use mathlib.Core.Bool.{Bool, true, ◌&&◌}
use mathlib.Core.List.{List, [], ◌∷◌}
use mathlib.Core.Option.{Option, none, some}
use native.Mathlib.Omega.{arith}
use text.Mathlib.Text.{◌==◌ as str_eq}
use text.Mathlib.TextEquality.{eq_iff}
use sterun.Common.Tests.{◌==◌ as nat_eq, ==_iff, if◌then◌else◌, Bool-cases}
use sterun.Common.Lists.{In, filter, length}

pub record Eq {ℓ} (A : Type ℓ) : Type ℓ where
  pub beq : A → A → Bool
  pub beq_iff : (a b : A) → (beq a b ≡ true) ↔ (a ≡ b)

instance abbrev pub nat-Eq : Eq ℕ
nat-Eq = record { beq = nat_eq; beq_iff = ==_iff }

instance abbrev pub string-Eq : Eq String
string-Eq = record { beq = str_eq; beq_iff = eq_iff }

module _ {ℓ κ} {A : Type ℓ} {B : Type κ} where
  pub pair_beq_iff :
      (e : Eq A) (d : Eq B) (p q : A × B) → ((e.beq p.0 q.0 && d.beq p.1 q.1) ≡ true) ↔ (p ≡ q)
  pair_beq_iff e d (a, b) (a', b') = ground (arith, e.beq_iff a a', d.beq_iff b b')

instance abbrev pub pair-Eq {ℓ κ} : {A : Type ℓ} {B : Type κ} ⦃e : Eq A⦄ ⦃d : Eq B⦄ → Eq (A × B)
pair-Eq ⦃e⦄ ⦃d⦄ = record { beq = λ p q. e.beq p.0 q.0 && d.beq p.1 q.1; beq_iff = pair_beq_iff e d }

abbrev pub Dict {ℓ κ} : Type ℓ → Type κ → Type (ℓ ⊔ κ)
Dict K V = List (K × V)

module _ {ℓ κ} {K : Type ℓ} {V : Type κ} ⦃e : Eq K⦄ where
  unfoldable pub get : Dict K V → K → Option V
  get [] k = none
  get ((j, v) ∷ m) k = if e.beq j k then some v else get m k

  unfoldable pub put : Dict K V → K → V → Dict K V
  put [] k v = (k, v) ∷ []
  put ((j, w) ∷ m) k v = if e.beq j k then (k, v) ∷ m else (j, w) ∷ put m k v

  -- `Map.delete`.
  unfoldable pub remove : Dict K V → K → Dict K V
  remove [] k = []
  remove ((j, w) ∷ m) k = if e.beq j k then remove m k else (j, w) ∷ remove m k

  -- `new Map(entries)`: a later entry of a key wins.
  unfoldable pub put_all : Dict K V → List (K × V) → Dict K V
  put_all m [] = m
  put_all m ((k, v) ∷ kvs) = put_all (put m k v) kvs

  pub get-put :
      (m : Dict K V) (k : K) (v : V) (j : K)
      → get (put m k v) j ≡ (if e.beq k j then some v else get m j)
  unfolding get put
  get-put [] k v j = refl
  get-put ((i, w) ∷ m) k v j =
      ground (arith, get-put m k v j, e.beq_iff i k, e.beq_iff k j, e.beq_iff i j)

  pub get-remove :
      (m : Dict K V) (k j : K) → get (remove m k) j ≡ (if e.beq k j then none else get m j)
  unfolding get remove
  get-remove [] k j = ground arith
  get-remove ((i, w) ∷ m) k j =
      ground (arith, get-remove m k j, e.beq_iff i k, e.beq_iff k j, e.beq_iff i j)

  pub get-put_self : (m : Dict K V) (k : K) (v : V) → get (put m k v) k ≡ some v
  get-put_self m k v = rw (get-put, (e.beq_iff k k).1 refl)

  pub length-put_new :
      (m : Dict K V) (k : K) (v : V) → get m k ≡ none → length (put m k v) ≡ suc (length m)
  unfolding get put
  length-put_new [] k v new = refl
  length-put_new ((j, w) ∷ m) k v new = elim (Bool-cases (e.beq j k)) [
    | inl same ↦ ground arith
    | inr other ↦ rw other (ap suc (length-put_new m k v (rw other at new)))
  ]

  pub length-put_old :
      (m : Dict K V) (k : K) (v w : V) → get m k ≡ some w → length (put m k v) ≡ length m
  unfolding get put
  length-put_old [] k v w old = ground arith
  length-put_old ((j, u) ∷ m) k v w old = elim (Bool-cases (e.beq j k)) [
    | inl same ↦ rw same refl
    | inr other ↦ rw other (ap suc (length-put_old m k v w (rw other at old)))
  ]

  -- No key stands twice.
  abbrev pub IsMap : Dict K V → Type κ
  IsMap [] = Unit
  IsMap ((k, v) ∷ m) = (get m k ≡ none) × IsMap m

  pub put-IsMap : (m : Dict K V) (k : K) (v : V) → IsMap m → IsMap (put m k v)
  unfolding get put
  put-IsMap [] k v h = (refl, tt)
  put-IsMap ((j, w) ∷ m) k v (new, h) = elim (Bool-cases (e.beq j k)) [
    | inl same ↦ rw same (subst (λ i. get m i ≡ none) ((e.beq_iff j k).0 same) new, h)
    | inr other ↦
        rw other (ground (arith, get-put m k v j, e.beq_iff j k, e.beq_iff k j), put-IsMap m k v h)
  ]

  pub remove-IsMap : (m : Dict K V) (k : K) → IsMap m → IsMap (remove m k)
  unfolding get remove
  remove-IsMap [] k h = tt
  remove-IsMap ((j, w) ∷ m) k (new, h) = elim (Bool-cases (e.beq j k)) [
    | inl same ↦ rw same (remove-IsMap m k h)
    | inr other ↦ rw other (ground (arith, get-remove m k j), remove-IsMap m k h)
  ]

  pub get-filter-none :
      (p : K × V → Bool) (m : Dict K V) (k : K) → get m k ≡ none → get (filter p m) k ≡ none
  unfolding get
  get-filter-none p [] k h = refl
  get-filter-none p ((j, w) ∷ m) k h = ground (arith, get-filter-none p m k)

  pub filter-IsMap : (p : K × V → Bool) (m : Dict K V) → IsMap m → IsMap (filter p m)
  unfolding get
  filter-IsMap p [] h = tt
  filter-IsMap p ((j, w) ∷ m) (new, h) = elim (Bool-cases (p (j, w))) [
    | inl keeps ↦ rw keeps (get-filter-none p m j new, filter-IsMap p m h)
    | inr drops ↦ rw drops (filter-IsMap p m h)
  ]

  -- A filter that reads the value only.
  pub get-filter :
      (p : V → Bool) (m : Dict K V) (k : K)
      → IsMap m
      → get (filter (λ kv. p kv.1) m) k
        ≡ elim (get m k) [ none ↦ none | some v ↦ if p v then some v else none ]
  unfolding get
  get-filter p [] k h = refl
  get-filter p ((j, w) ∷ m) k (new, h) =
      ground (arith, get-filter p m k h, get-filter-none (λ kv. p kv.1) m j new, e.beq_iff j k)

  -- `Map.values`.
  abbrev pub values : Dict K V → List V
  values [] = []
  values ((k, v) ∷ m) = v ∷ values m

module _ {ℓ} {K : Type ℓ} {V : Type 0} ⦃e : Eq K⦄ where
  pub In-values : (m : Dict K V) (k : K) (v : V) → get m k ≡ some v → In v (values m)
  unfolding get
  In-values [] k v h = cc
  In-values ((j, w) ∷ m) k v h = elim (Bool-cases (e.beq j k)) [
    | inl same ↦ inl (ground arith)
    | inr other ↦ inr (In-values m k v (ground arith))
  ]
