-- ===== src/Prelude/Maps.antt =====
-- `HashMap` and `DashMap`: association lists, whose order stands for the map's order of iteration.
use mathlib.Core.Path.{◌≡◌, refl}
use mathlib.Core.Bool.{Bool, true, false}
use mathlib.Core.Logic.{inl, inr}
use mathlib.Core.List.{List, [], ◌∷◌, Memᴰ}
use mathlib.Core.Option.{Option, none, some}
use native.Mathlib.Omega.{arith}
use mini_bpm_engine.Prelude.Tests.{if◌then◌else◌, ◌==◌, Eq, Bool-cases}

abbrev pub Map {ℓ κ} : Type ℓ → Type κ → Type (ℓ ⊔ κ)
Map K V = List (K × V)

abbrev pub values {ℓ κ} : {K : Type ℓ} {V : Type κ} → Map K V → List V
values [] = []
values ((k, v) ∷ m) = v ∷ values m

-- A write through `values_mut` or `iter_mut`.
abbrev pub map_values {ℓ κ} : {K : Type ℓ} {V : Type κ} → (V → V) → Map K V → Map K V
map_values f [] = []
map_values f ((k, v) ∷ m) = (k, f v) ∷ map_values f m

module _ {ℓ κ} {K : Type ℓ} {V : Type κ} ⦃e : Eq K⦄ where
  unfoldable pub get : Map K V → K → Option V
  get [] k = none
  get ((j, v) ∷ m) k = let rest = get m k in if j == k then some v else rest

  -- The pair that `insert` replaces keeps its place; a new one goes to the end.
  unfoldable pub insert : Map K V → K → V → Map K V
  insert [] k v = (k, v) ∷ []
  insert ((j, w) ∷ m) k v = let rest = insert m k v in if j == k then (k, v) ∷ m else (j, w) ∷ rest

  unfoldable pub remove : Map K V → K → Map K V
  remove [] k = []
  remove ((j, w) ∷ m) k = let rest = remove m k in if j == k then rest else (j, w) ∷ rest

  abbrev pub contains_key : Map K V → K → Bool
  contains_key m k = elim (get m k) [ none ↦ false | some v ↦ true ]

  -- `a.extend(b)`.
  abbrev pub extend : Map K V → Map K V → Map K V
  extend a [] = a
  extend a ((k, v) ∷ b) = extend (insert a k v) b

  pub get-insert :
      (m : Map K V) (k j : K) (v : V) → get (insert m k v) j ≡ (if k == j then some v else get m j)
  unfolding get insert
  get-insert [] k j v = refl
  get-insert ((i, w) ∷ m) k j v =
      ground (arith, e.equal_iff k j, e.equal_iff i k, e.equal_iff i j, get-insert m k j v)

  pub get-remove : (m : Map K V) (k j : K) → get (remove m k) j ≡ (if k == j then none else get m j)
  unfolding get remove
  get-remove [] k j = ground arith
  get-remove ((i, w) ∷ m) k j =
      ground (arith, e.equal_iff k j, e.equal_iff i k, e.equal_iff i j, get-remove m k j)

  pub get-insert_self : (m : Map K V) (k : K) (v : V) → get (insert m k v) k ≡ some v
  get-insert_self m k v = ground (arith, get-insert m k k v, e.equal_iff k k)

  pub get-remove_self : (m : Map K V) (k : K) → get (remove m k) k ≡ none
  get-remove_self m k = ground (arith, get-remove m k k, e.equal_iff k k)

module _ {ℓ κ} {K : Type ℓ} {V : Type κ} ⦃e : Eq K⦄ where
  pub mem_of_get : (m : Map K V) (k : K) (v : V) → get m k ≡ some v → Memᴰ (k, v) m
  unfolding get
  mem_of_get [] k v h = cc
  mem_of_get ((j, w) ∷ m) k v h = elim (Bool-cases (j == k)) [
    | inl hit ↦ Memᴰ.head (ground (arith, e.equal_iff j k))
    | inr miss ↦ Memᴰ.tail (mem_of_get m k v (ground arith))
  ]

  pub mem-values_of_get : (m : Map K V) (k : K) (v : V) → get m k ≡ some v → Memᴰ v (values m)
  unfolding get
  mem-values_of_get [] k v h = cc
  mem-values_of_get ((j, w) ∷ m) k v h = elim (Bool-cases (j == k)) [
    | inl hit ↦ Memᴰ.head (ground arith)
    | inr miss ↦ Memᴰ.tail (mem-values_of_get m k v (ground arith))
  ]
