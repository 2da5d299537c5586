-- ===== src/Prelude/Keyed.antt =====
-- Maps that store each value under its own identifier, and under no other.
use Prim.Native.Nat.{ℕ}
use mathlib.Core.Path.{◌≡◌, subst, ◌∙◌}
use mathlib.Core.Bool.{Bool}
use mathlib.Core.Logic.{◌≢◌, inl, inr}
use mathlib.Core.List.{[], ◌∷◌}
use mathlib.Core.Option.{some}
use native.Mathlib.Omega.{arith}
use mini_bpm_engine.Prelude.Tests.{◌==◌, Bool-cases, nat_eq}
use mini_bpm_engine.Prelude.Lists.{All, filter}
use mini_bpm_engine.Prelude.Maps.{Map, get, insert, remove, map_values}

module _ {ℓ} {A : Type ℓ} (id_of : A → ℕ) where
  abbrev pub IsKeyed : Map ℕ A → Type 0
  IsKeyed [] = Unit {0}
  IsKeyed ((id, a) ∷ rest) = (id_of a ≡ id) × All (λ p. p.0 ≢ id) rest × IsKeyed rest

module _ {ℓ κ} {A : Type ℓ} (P : ℕ × A → Type κ) where
  All-insert : (m : Map ℕ A) (k : ℕ) (a : A) → P (k, a) → All P m → All P (insert m k a)
  unfolding insert
  All-insert [] k a p h = (p, tt)
  All-insert ((j, b) ∷ m) k a p h = elim (Bool-cases (j == k)) [
    | inl hit ↦ rw (hit) (p, h.1)
    | inr miss ↦ rw (miss) (h.0, All-insert m k a p h.1)
  ]

  All-remove : (m : Map ℕ A) (k : ℕ) → All P m → All P (remove m k)
  unfolding remove
  All-remove [] k h = tt
  All-remove ((j, b) ∷ m) k h = elim (Bool-cases (j == k)) [
    | inl hit ↦ rw (hit) (All-remove m k h.1)
    | inr miss ↦ rw (miss) (h.0, All-remove m k h.1)
  ]

  All-filter : (p : ℕ × A → Bool) (m : Map ℕ A) → All P m → All P (filter p m)
  All-filter p [] h = tt
  All-filter p (x ∷ m) h = elim (Bool-cases (p x)) [
    | inl hit ↦ rw (hit) (h.0, All-filter p m h.1)
    | inr miss ↦ rw (miss) (All-filter p m h.1)
  ]

module _ {ℓ} {A : Type ℓ} (id_of : A → ℕ) where
  pub insert-IsKeyed :
      (m : Map ℕ A) (k : ℕ) (a : A) → id_of a ≡ k → IsKeyed id_of m → IsKeyed id_of (insert m k a)
  unfolding insert
  insert-IsKeyed [] k a own h = (own, tt, tt)
  insert-IsKeyed ((j, b) ∷ m) k a own h = elim (Bool-cases (j == k)) [
    | inl hit ↦
        rw (hit) (own, subst (λ i. All (λ p. p.0 ≢ i) m) ((nat_eq.equal_iff j k).0 hit) h.1, h.2)
    | inr miss ↦
        rw (miss)
          (h.0, All-insert (λ p. p.0 ≢ j) m k a (ground arith) h.1, insert-IsKeyed m k a own h.2)
  ]

  pub remove-IsKeyed : (m : Map ℕ A) (k : ℕ) → IsKeyed id_of m → IsKeyed id_of (remove m k)
  unfolding remove
  remove-IsKeyed [] k h = tt
  remove-IsKeyed ((j, b) ∷ m) k h = elim (Bool-cases (j == k)) [
    | inl hit ↦ rw (hit) (remove-IsKeyed m k h.2)
    | inr miss ↦ rw (miss) (h.0, All-remove (λ p. p.0 ≢ j) m k h.1, remove-IsKeyed m k h.2)
  ]

  pub filter-IsKeyed :
      (p : ℕ × A → Bool) (m : Map ℕ A) → IsKeyed id_of m → IsKeyed id_of (filter p m)
  filter-IsKeyed p [] h = tt
  filter-IsKeyed p (x ∷ m) h = elim (Bool-cases (p x)) [
    | inl hit ↦ rw (hit) (h.0, All-filter (λ q. q.0 ≢ x.0) p m h.1, filter-IsKeyed p m h.2)
    | inr miss ↦ rw (miss) (filter-IsKeyed p m h.2)
  ]

  pub get-own : (m : Map ℕ A) (k : ℕ) (a : A) → IsKeyed id_of m → get m k ≡ some a → id_of a ≡ k
  unfolding get
  get-own [] k a h found = cc
  get-own ((j, b) ∷ m) k a h found = elim (Bool-cases (j == k)) [
    | inl hit ↦ grind (arith, nat_eq.equal_iff j k)
    | inr miss ↦ get-own m k a h.2 (ground arith)
  ]

module _ {ℓ} {A : Type ℓ} (id_of : A → ℕ) (f : A → A) (same : (a : A) → id_of (f a) ≡ id_of a) where
  pub map_values-IsKeyed : (m : Map ℕ A) → IsKeyed id_of m → IsKeyed id_of (map_values f m)
  map_values-IsKeyed [] h = tt
  map_values-IsKeyed ((j, a) ∷ m) h = (same a ∙ h.0, keys_kept m h.1, map_values-IsKeyed m h.2)
    where
      keys_kept : (n : Map ℕ A) → All (λ p. p.0 ≢ j) n → All (λ p. p.0 ≢ j) (map_values f n)
      keys_kept [] k = tt
      keys_kept (x ∷ n) k = (k.0, keys_kept n k.1)
