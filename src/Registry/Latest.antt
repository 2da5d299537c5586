-- ===== src/Registry/Latest.antt =====
-- Which definition is the latest.
use mathlib.Core.List.{Memᴰ}
use mathlib.Core.List.Memᴰ.{not-nil}
use mathlib.Core.Bool.{false≢true}
use mini_bpm_engine.Prelude.{
  ℕ, String, ◌≡◌, ◌≢◌, ◌⊎◌, sym, subst, ◌∙◌, mem_of_All, inl, inr, refl, true, false, Option, none,
  some, [], ◌∷◌, All, All-map, ◌==◌, string_eq, Bool-cases, arith, if◌then◌else◌,
}
use mini_bpm_engine.Prelude.Int.{ℤ, pos, negsuc, leb_int, max_int}
use mini_bpm_engine.Domain.Definition.{ProcessDefinition, id, version}
use mini_bpm_engine.Registry.{
  Definitions, with_bpmn_id, latest_of, find_latest_by_bpmn_id, max_version, highest_version,
}

leb_int_refl : (x : ℤ) → leb_int x x ≡ true
leb_int_refl (pos n) = ground arith
leb_int_refl (negsuc n) = ground arith

pub leb_int_trans : (x y z : ℤ) → leb_int x y ≡ true → leb_int y z ≡ true → leb_int x z ≡ true
leb_int_trans (pos l) (pos m) (pos n) h k = ground arith
leb_int_trans (pos l) (pos m) (negsuc n) h k = ground arith
leb_int_trans (pos l) (negsuc m) z h k = ground arith
leb_int_trans (negsuc l) y (pos n) h k = refl
leb_int_trans (negsuc l) (pos m) (negsuc n) h k = ground arith
leb_int_trans (negsuc l) (negsuc m) (negsuc n) h k = ground arith

leb_int-total : (x y : ℤ) → leb_int x y ≡ false → leb_int y x ≡ true
leb_int-total (pos m) (pos n) h = ground arith
leb_int-total (pos m) (negsuc n) h = refl
leb_int-total (negsuc m) (pos n) h = ground arith
leb_int-total (negsuc m) (negsuc n) h = ground arith

-- A definition with the greatest version, and that version; or there is none.
abbrev pub IsLatestOf : Definitions → Option (ℕ × ProcessDefinition) → Option ℤ → Type 0
IsLatestOf [] latest highest = (latest ≡ none) × (highest ≡ none)
IsLatestOf (p ∷ definitions) latest highest =
    (r : ℕ × ProcessDefinition) × Memᴰ r (p ∷ definitions)
    × (latest ≡ some r)
    × (highest ≡ some (version r.1))
    × All (λ q. leb_int (version q.1) (version r.1) ≡ true) (p ∷ definitions)

-- One round of `max_by_key` and of `max`.
abbrev later :
    ℕ × ProcessDefinition → Option (ℕ × ProcessDefinition) → Option (ℕ × ProcessDefinition)
later p latest = elim latest [
  | none ↦ some (p.0, p.1)
  | some (k, d) ↦ if leb_int (version p.1) (version d) then some (k, d) else some (p.0, p.1)
]

abbrev higher : ℤ → Option ℤ → Option ℤ
higher v highest = elim highest [ none ↦ some v | some u ↦ some (max_int v u) ]

later-IsLatestOf :
    (p q : ℕ × ProcessDefinition) (ds : Definitions) (latest : Option (ℕ × ProcessDefinition))
    (highest : Option ℤ)
    → IsLatestOf (q ∷ ds) latest highest
    → IsLatestOf (p ∷ q ∷ ds) (later p latest) (higher (version p.1) highest)
later-IsLatestOf p q ds latest highest (r, stored, is_latest, is_highest, below) =
    elim (Bool-cases (leb_int (version p.1) (version r.1))) [
      | inl hit ↦ (
        r,
        Memᴰ.tail stored,
        rw (is_latest) (rw (hit) refl),
        rw (is_highest) (rw (hit) refl),
        (hit, below),
      )
      | inr miss ↦ (
        p,
        Memᴰ.head refl,
        rw (is_latest) (rw (miss) refl),
        rw (is_highest) (rw (miss) refl),
        (
          leb_int_refl (version p.1),
          All-map (λ x. leb_int (version x.1) (version r.1) ≡ true)
              (λ x. leb_int (version x.1) (version p.1) ≡ true) (q ∷ ds)
              (λ x h.
                leb_int_trans (version x.1) (version r.1) (version p.1) h
                  (leb_int-total (version p.1) (version r.1) miss))
              below,
        ),
      )
    ]

latest_of_lem : (ds : Definitions) → IsLatestOf ds (latest_of ds) (max_version ds)
unfolding latest_of max_version
latest_of_lem [] = (refl, refl)
latest_of_lem (p ∷ []) = (p, Memᴰ.head refl, refl, refl, (leb_int_refl (version p.1), tt))
latest_of_lem (p ∷ q ∷ ds) =
    later-IsLatestOf p q ds (latest_of (q ∷ ds)) (max_version (q ∷ ds)) (latest_of_lem (q ∷ ds))

module _ (bpmn_id : String) where
  -- The filter keeps entries of the registry that have the identifier,
  with_bpmn_id-All :
      (ds : Definitions) → All (λ p. Memᴰ p ds × (id p.1 ≡ bpmn_id)) (with_bpmn_id bpmn_id ds)
  unfolding with_bpmn_id
  with_bpmn_id-All [] = tt
  with_bpmn_id-All ((k, d) ∷ ds) =
      let behind =
        All-map _ (λ p. Memᴰ p ((k, d) ∷ ds) × (id p.1 ≡ bpmn_id)) (with_bpmn_id bpmn_id ds)
          (λ p h. (Memᴰ.tail h.0, h.1)) (with_bpmn_id-All ds) in
      elim (Bool-cases (id d == bpmn_id)) [
        | inl hit ↦ rw (hit) ((Memᴰ.head refl, (string_eq.equal_iff (id d) bpmn_id).0 hit), behind)
        | inr miss ↦ rw (miss) behind
      ]

  -- and it keeps all of them.
  abbrev AllKept : Definitions → Definitions → Type 0
  AllKept ds same = All (λ p. (id p.1 ≢ bpmn_id) ⊎ Memᴰ p same) ds

  with_first :
      (k : ℕ) (d : ProcessDefinition) (ds : Definitions)
      → id d == bpmn_id ≡ true
      → with_bpmn_id bpmn_id ((k, d) ∷ ds) ≡ (k, d) ∷ with_bpmn_id bpmn_id ds
  unfolding with_bpmn_id
  with_first k d ds hit = rw (hit) refl

  without_first :
      (k : ℕ) (d : ProcessDefinition) (ds : Definitions)
      → id d == bpmn_id ≡ false
      → with_bpmn_id bpmn_id ((k, d) ∷ ds) ≡ with_bpmn_id bpmn_id ds
  unfolding with_bpmn_id
  without_first k d ds miss = rw (miss) refl

  with_bpmn_id-AllKept : (ds : Definitions) → AllKept ds (with_bpmn_id bpmn_id ds)
  with_bpmn_id-AllKept [] = tt
  with_bpmn_id-AllKept ((k, d) ∷ ds) = elim (Bool-cases (id d == bpmn_id)) [
    | inl hit ↦ subst (AllKept ((k, d) ∷ ds)) (sym (with_first k d ds hit)) (
      inr (Memᴰ.head refl),
      All-map _ (λ p. (id p.1 ≢ bpmn_id) ⊎ Memᴰ p ((k, d) ∷ with_bpmn_id bpmn_id ds)) ds
          (λ p h. elim h [ inl other ↦ inl other | inr m ↦ inr (Memᴰ.tail m) ])
          (with_bpmn_id-AllKept ds),
    )
    | inr miss ↦ subst (AllKept ((k, d) ∷ ds)) (sym (without_first k d ds miss)) (
      inl (λ q. false≢true (sym miss ∙ (string_eq.equal_iff (id d) bpmn_id).1 q)),
      with_bpmn_id-AllKept ds,
    )
  ]

-- The latest definition of a process in the registry and its version; or the registry has no definition of
-- the process, and both are absent.
abbrev pub IsLatestFor :
    Definitions
    → (bpmn_id : String) (latest : Option (ℕ × ProcessDefinition)) (highest : Option ℤ) → Type 0
IsLatestFor definitions bpmn_id latest highest =
    ((latest ≡ none) × (highest ≡ none) × All (λ q. id q.1 ≢ bpmn_id) definitions)
    ⊎ ((r : ℕ × ProcessDefinition) × (latest ≡ some r)
        × (highest ≡ some (version r.1))
        × Memᴰ r definitions
        × (id r.1 ≡ bpmn_id)
        × All (λ q. (id q.1 ≢ bpmn_id) ⊎ (leb_int (version q.1) (version r.1) ≡ true)) definitions)

found_in_registry :
    (definitions same : Definitions) (bpmn_id : String) (latest : Option (ℕ × ProcessDefinition))
    (highest : Option ℤ)
    → All (λ p. Memᴰ p definitions × (id p.1 ≡ bpmn_id)) same
    → AllKept bpmn_id definitions same
    → IsLatestOf same latest highest
    → IsLatestFor definitions bpmn_id latest highest
found_in_registry definitions [] bpmn_id latest highest sound all_kept (no_latest, no_highest) =
    inl (
      no_latest,
      no_highest,
      All-map _ (λ q. id q.1 ≢ bpmn_id) definitions
          (λ q h. elim h [ inl other ↦ other | inr m ↦ absurd (not-nil m) ]) all_kept,
    )
found_in_registry definitions (p ∷ same) bpmn_id latest highest sound all_kept
      (r, stored, is_latest, is_highest, below) =
    let (here, has_id) =
      mem_of_All (λ p. Memᴰ p definitions × (id p.1 ≡ bpmn_id)) (p ∷ same) r sound stored in
    inr (
      r,
      is_latest,
      is_highest,
      here,
      has_id,
      All-map _ (λ q. (id q.1 ≢ bpmn_id) ⊎ (leb_int (version q.1) (version r.1) ≡ true)) definitions
          (λ q h. elim h [
            | inl other ↦ inl other
            | inr m ↦
                inr (
                  mem_of_All (λ x. leb_int (version x.1) (version r.1) ≡ true) (p ∷ same) q below m)
          ])
          all_kept,
    )

-- If the registry has a definition of the process, the lookup finds one of the registry's with the
-- identifier of the process, no definition of the registry with this identifier has a greater version,
-- and `highest_version` is its version. If the registry has none, neither finds any.
pub find_latest_lem :
    (definitions : Definitions) (bpmn_id : String)
    → IsLatestFor definitions bpmn_id
        (find_latest_by_bpmn_id definitions bpmn_id)
        (highest_version definitions bpmn_id)
unfolding find_latest_by_bpmn_id highest_version
find_latest_lem definitions bpmn_id =
    found_in_registry definitions (with_bpmn_id bpmn_id definitions) bpmn_id _ _
      (with_bpmn_id-All bpmn_id definitions) (with_bpmn_id-AllKept bpmn_id definitions)
      (latest_of_lem (with_bpmn_id bpmn_id definitions))
