-- ===== src/DefinitionOps/Versions.antt =====
-- Which version of a process is the latest after a deployment.
use mathlib.Core.List.{Memᴰ}
use mathlib.Core.Bool.{false≢true}
use mini_bpm_engine.Prelude.{
  ℕ, String, ◌≡◌, ◌≢◌, ◌⊎◌, inl, inr, refl, sym, ap, ◌∙◌, subst, true, false, Option, none, some,
  List, [], ◌∷◌, Map, All, mem_of_All, insert, ◌==◌, ◌^◌, ◌-◌, All-of_mem, All-map, Bool-cases,
  nat_eq, arith,
}
use mini_bpm_engine.Prelude.Int.{ℤ, pos, negsuc, leb_int, succ_i32}
use mini_bpm_engine.Domain.Element.{
  BpmnElement, SequenceFlow, ExecutionListener, ScopeEventListener,
}
use mini_bpm_engine.Domain.Definition.{ProcessDefinition, definition, nil, id, version}
use mini_bpm_engine.Engine.{Engine}
use mini_bpm_engine.Registry.{Definitions, find_latest_by_bpmn_id, highest_version}
use mini_bpm_engine.Registry.Latest.{leb_int_trans, IsLatestFor, find_latest_lem}
use mini_bpm_engine.DefinitionOps.{normalized_version, deploy_as, deploy_definition}

-- The version is not the greatest of `i32`.
abbrev pub HasSuccessor : Option ℤ → Type 0
HasSuccessor none = Unit {0}
HasSuccessor (some h) = leb_int h (pos (2 ^ 31 - 2)) ≡ true

succ_i32_greater : (h : ℤ) → HasSuccessor (some h) → leb_int (succ_i32 h) h ≡ false
succ_i32_greater (pos n) room = ground arith
succ_i32_greater (negsuc n) room = ground arith

mem-insert : (m : Definitions) (k : ℕ) (d : ProcessDefinition) → Memᴰ (k, d) (insert m k d)
unfolding insert
mem-insert [] k d = Memᴰ.head refl
mem-insert ((j, w) ∷ m) k d = elim (Bool-cases (j == k)) [
  | inl hit ↦ rw (hit) (Memᴰ.head refl)
  | inr miss ↦ rw (miss) (Memᴰ.tail (mem-insert m k d))
]

insert_cases :
    (m : Definitions) (k : ℕ) (d : ProcessDefinition)
    → All (λ p. (p ≡ (k, d)) ⊎ Memᴰ p m) (insert m k d)
unfolding insert
insert_cases [] k d = (inl refl, tt)
insert_cases ((j, w) ∷ m) k d = elim (Bool-cases (j == k)) [
  | inl hit ↦ rw (hit) (inl refl, All-of_mem m (λ q here. inr (Memᴰ.tail here)))
  | inr miss ↦ rw (miss) (
    inr (Memᴰ.head refl),
    All-map _ (λ p. (p ≡ (k, d)) ⊎ Memᴰ p ((j, w) ∷ m)) (insert m k d)
        (λ p h. elim h [ inl new ↦ inl new | inr old ↦ inr (Memᴰ.tail old) ]) (insert_cases m k d),
  )
]

not_above : (u v w : ℤ) → leb_int u v ≡ false → leb_int w v ≡ true → leb_int u w ≡ false
not_above u v w above le = elim (Bool-cases (leb_int u w)) [
  | inl under ↦ absurd (false≢true (sym above ∙ leb_int_trans u w v under le))
  | inr over ↦ over
]

-- No definition of the process in the registry has this version or a greater one.
abbrev pub IsAbove : Definitions → String → ℤ → Type 0
IsAbove ds i v = All (λ q. (id q.1 ≢ i) ⊎ (leb_int v (version q.1) ≡ false)) ds

-- What deploys has a version above those of the process.
normalized-IsAbove :
    (ds : Definitions) (i : String) (own : ℤ) (latest : Option (ℕ × ProcessDefinition))
    (highest : Option ℤ)
    → HasSuccessor highest
    → IsLatestFor ds i latest highest
    → IsAbove ds i (normalized_version highest own)
normalized-IsAbove ds i own latest highest room (inl (no_latest, no_highest, others)) =
    All-map (λ q. id q.1 ≢ i) _ ds (λ q other. inl other) others
normalized-IsAbove ds i own latest highest room (inr (r, l, h, stored, same, below)) =
    subst (λ v. IsAbove ds i (normalized_version v own)) (sym h)
      (All-map (λ q. (id q.1 ≢ i) ⊎ (leb_int (version q.1) (version r.1) ≡ true)) _ ds
        (λ q k. elim k [
          | inl other ↦ inl other
          | inr le ↦ inr (
              not_above (succ_i32 (version r.1)) (version r.1) (version q.1)
                (succ_i32_greater (version r.1) (subst HasSuccessor h room)) le)
        ])
        below)

latest_is_new :
    (ds : Definitions) (k : ℕ) (d : ProcessDefinition) (latest : Option (ℕ × ProcessDefinition))
    (highest : Option ℤ)
    → IsAbove ds (id d) (version d)
    → IsLatestFor (insert ds k d) (id d) latest highest
    → (latest ≡ some (k, d)) × (highest ≡ some (version d))
latest_is_new ds k d latest highest above (inl (no_latest, no_highest, others)) =
    absurd (mem_of_All (λ q. id q.1 ≢ id d) (insert ds k d) (k, d) others (mem-insert ds k d) refl)
latest_is_new ds k d latest highest above (inr (r, l, h, stored, same, below)) =
    let new_below =
      mem_of_All (λ q. (id q.1 ≢ id d) ⊎ (leb_int (version q.1) (version r.1) ≡ true))
        (insert ds k d) (k, d) below (mem-insert ds k d) in
    elim (mem_of_All (λ p. (p ≡ (k, d)) ⊎ Memᴰ p ds) (insert ds k d) r (insert_cases ds k d)
      stored) [
        | inl new ↦ (l ∙ ap some new, h ∙ ap (λ p. some (version p.1)) new)
        | inr old ↦ absurd (elim new_below [
          | inl other ↦ other refl
          | inr le ↦
              elim (mem_of_All (λ q. (id q.1 ≢ id d) ⊎ (leb_int (version d) (version q.1) ≡ false))
                ds r above old) [
                  | inl other ↦ other same
                  | inr beyond ↦ false≢true (sym beyond ∙ le)
                ]
        ])
      ]

-- After the deployment of a definition without sub-processes, the latest definition of its process is the
-- deployed one, under its key and with the version that the deployment answers, whatever was deployed
-- before, and this version is greater than all that the process had. (The highest version so far is not
-- the greatest of `i32`.)
pub deploy_latest :
    (k : ℕ) (i : String) (v : ℤ) (n : Map String BpmnElement) (f : Map String (List SequenceFlow))
    (l : Map String (List ExecutionListener)) (events : List ScopeEventListener) (e : Engine)
    → HasSuccessor (highest_version e.definitions i)
    → let ((key, v'), e') = deploy_definition (definition k i v n f l events nil) e in
      (key ≡ k)
      × (find_latest_by_bpmn_id e'.definitions i ≡ some (k, definition k i v' n f l events nil))
      × (highest_version e'.definitions i ≡ some v')
      × IsAbove e.definitions i v'
unfolding deploy_definition deploy_as
deploy_latest k i v n f l events e room =
    let v' = normalized_version (highest_version e.definitions i) v in
    let above = normalized-IsAbove e.definitions i v _ _ room (find_latest_lem e.definitions i) in
    let (latest, highest) =
      latest_is_new e.definitions k (definition k i v' n f l events nil) _ _ above
        (find_latest_lem (insert e.definitions k (definition k i v' n f l events nil)) i) in
    (refl, latest, highest, above)
