-- ===== src/Base/Map.antt =====
-- A hash map as an association list with one entry for a key.
use zsync.Base.Tests.{if◌then◌else◌, Bool-cases}
pub use zsync.Base.Class.{eq_refl}
use zsync.Base.Class.{Eq, ◌==◌}
use mathlib.Core.Path.{◌≡◌, refl, subst, ◌∙◌}
use mathlib.Core.Logic.{inl, inr}
use mathlib.Core.Bool.{Bool}
use mathlib.Core.List.{List, [], ◌∷◌}
use mathlib.Core.Option.{Option, none, some}
use native.Mathlib.Omega.{arith}

abbrev pub Map {ℓ κ} : Type ℓ → Type κ → Type (ℓ ⊔ κ)
Map K V = List (K × V)

module _ {ℓ κ} {K : Type ℓ} {V : Type κ} ⦃e : Eq K⦄ where
  unfoldable pub lookup : K → Map K V → Option V
  lookup k [] = none
  lookup k ((j, v) ∷ m) = if j == k then some v else lookup k m

  unfoldable pub insert : K → V → Map K V → Map K V
  insert k v [] = (k, v) ∷ []
  insert k v ((j, w) ∷ m) = if j == k then (k, v) ∷ m else (j, w) ∷ insert k v m

  unfoldable pub remove : K → Map K V → Map K V
  remove k [] = []
  remove k ((j, v) ∷ m) = if j == k then remove k m else (j, v) ∷ remove k m

  -- `HashMap::retain`, for a test of the key and the value.
  unfoldable pub retain : (K → V → Bool) → Map K V → Map K V
  retain p [] = []
  retain p ((j, v) ∷ m) = if p j v then (j, v) ∷ retain p m else retain p m

  pub lookup-insert :
      (k j : K) (v : V) (m : Map K V)
      → lookup j (insert k v m) ≡ (if k == j then some v else lookup j m)
  unfolding insert lookup
  lookup-insert k j v [] = refl
  lookup-insert k j v ((a, w) ∷ m) =
      ground (arith, lookup-insert k j v m, e.beq_iff a k, e.beq_iff a j, e.beq_iff k j)

  pub lookup-remove :
      (k j : K) (m : Map K V) → lookup j (remove k m) ≡ (if k == j then none else lookup j m)
  unfolding lookup remove
  lookup-remove k j [] = ground arith
  lookup-remove k j ((i, w) ∷ m) =
      ground (arith, e.beq_iff k j, e.beq_iff i k, e.beq_iff i j, lookup-remove k j m)

  -- No key has two entries, as in a hash map.
  abbrev pub Distinct : Map K V → Type κ
  Distinct [] = Unit
  Distinct ((j, v) ∷ m) = (lookup j m ≡ none) × Distinct m

  pub lookup-retain :
      (p : K → V → Bool) (j : K) (m : Map K V)
      → Distinct m
      → lookup j (retain p m)
        ≡ elim (lookup j m) [ none ↦ none | some v ↦ if p j v then some v else none ]
  unfolding lookup retain
  lookup-retain p j [] d = refl
  lookup-retain p j ((i, w) ∷ m) (fresh, d) = elim (Bool-cases (i == j)) [
    | inl same ↦
        let e' : i ≡ j = (e.beq_iff i j).0 same in
        let none_there : lookup j m ≡ none = subst (λ k. lookup k m ≡ none) e' fresh in
        ground (arith, lookup-retain p j m d, e', none_there)
    | inr other ↦ ground (arith, lookup-retain p j m d)
  ]

  lookup-retain-none :
      (p : K → V → Bool) (j : K) (m : Map K V)
      → Distinct m
      → lookup j m ≡ none
      → lookup j (retain p m) ≡ none
  lookup-retain-none p j m d h = lookup-retain p j m d ∙ (rw h)

  pub retain-Distinct : (p : K → V → Bool) (m : Map K V) → Distinct m → Distinct (retain p m)
  unfolding retain
  retain-Distinct p [] d = tt
  retain-Distinct p ((i, w) ∷ m) (fresh, d) =
      ground (arith, retain-Distinct p m d, lookup-retain-none p i m d fresh)

  pub remove-Distinct : (k : K) (m : Map K V) → Distinct m → Distinct (remove k m)
  unfolding remove
  remove-Distinct k [] d = tt
  remove-Distinct k ((i, w) ∷ m) (fresh, d) =
      ground (arith, remove-Distinct k m d, lookup-remove k i m)

  pub insert-Distinct : (k : K) (v : V) (m : Map K V) → Distinct m → Distinct (insert k v m)
  unfolding insert lookup
  insert-Distinct k v [] d = (refl, tt)
  insert-Distinct k v ((i, w) ∷ m) (fresh, d) = elim (Bool-cases (i == k)) [
    | inl same ↦ rw same (subst (λ j. lookup j m ≡ none) ((e.beq_iff i k).0 same) fresh, d)
    | inr other ↦ rw other (
      ground (arith, lookup-insert k i v m, e.beq_iff i k, e.beq_iff k i),
      insert-Distinct k v m d,
    )
  ]
