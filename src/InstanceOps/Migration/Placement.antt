-- ===== src/InstanceOps/Migration/Placement.antt =====
-- Where a migrated instance stands.
use mini_bpm_engine.Prelude.{
  map_values, ℕ, String, ◌≡◌, ◌↔◌, inl, inr, refl, sym, subst, ap, true, false, some, List, [], ◌∷◌,
  ◌++◌, Map, map, values, get, get-insert_self, contains_key, All, arith, nat_eq, string_eq,
}
use mini_bpm_engine.Domain.Error.{ok}
use mini_bpm_engine.Domain.Definition.{ProcessDefinition, nodes}
use mini_bpm_engine.Runtime.Instance.{InstanceState, is_suspended, ProcessInstance}
use mini_bpm_engine.Runtime.AuditLog.{push_audit_log}
use mini_bpm_engine.Engine.{Engine}
use mini_bpm_engine.InstanceOps.{check_suspendable}
use mini_bpm_engine.InstanceOps.Suspension.{has_ended, check-cases}
use mini_bpm_engine.InstanceOps.Migration.{
  resolve, occupied, check_nodes, moved_token, moved_active, migrated_instance, after_migration,
  migrate_instance,
}
use mini_bpm_engine.InstanceOps.Migration.Keys.{HoldsNoOther, rekey-HoldsNoOther}

-- Every node has a counterpart in the target definition.
abbrev pub AllResolve : ProcessDefinition → Map String String → List String → Type 0
AllResolve def node_mapping = All λ n. contains_key (nodes def) (resolve node_mapping n) ≡ true

check_nodes_iff :
    (def : ProcessDefinition) (m : Map String String) (xs : List String)
    → (check_nodes (nodes def) m xs ≡ ok tt) ↔ AllResolve def m xs
unfolding check_nodes
check_nodes_iff def m [] = ((λ h. tt), (λ h. refl))
check_nodes_iff def m (x ∷ xs) =
    let ih = check_nodes_iff def m xs in ((λ h. ground (arith, ih)), (λ h. ground (arith, ih)))

-- What is asked of an instance and of its tokens in `tokens` and `active_tokens`, of each one the node it
-- stands on. The tokens that wait in a join barrier or belong to a multi-instance progress are not among
-- them.
abbrev pub StandsOn : (String → Type 0) → ProcessInstance → Type 0
StandsOn P inst =
    P inst.current_node
    × All (λ t. P t.current_node) (values inst.tokens)
    × All (λ at. P at.token.current_node) inst.active_tokens

module _ {A : Type 0} (P : String → Type 0) (node : A → String) where
  mapped_iff : (xs : List A) → All P (map node xs) ↔ All (λ a. P (node a)) xs
  mapped_iff [] = ((λ h. tt), (λ h. tt))
  mapped_iff (x ∷ xs) = let ih = mapped_iff xs in ((λ h. (h.0, ih.0 h.1)), (λ h. (h.0, ih.1 h.1)))

append_iff : (P : String → Type 0) (xs ys : List String) → All P (xs ++ ys) ↔ (All P xs × All P ys)
append_iff P [] ys = ((λ h. (tt, h)), (λ h. h.1))
append_iff P (x ∷ xs) ys =
    let ih = append_iff P xs ys in
    ((λ h. let (a, b) = ih.0 h.1 in ((h.0, a), b)), (λ h. (h.0.0, ih.1 (h.0.1, h.1))))

occupied_iff :
    (P : String → Type 0) (inst : ProcessInstance) → All P (occupied inst) ↔ StandsOn P inst
occupied_iff P inst =
    let tokens = mapped_iff P (λ t. t.current_node) (values inst.tokens) in
    let active = mapped_iff P (λ at. at.token.current_node) inst.active_tokens in
    let both =
      append_iff P (map (λ t. t.current_node) (values inst.tokens))
        (map (λ at. at.token.current_node) inst.active_tokens) in
    (
      (λ h. let (a, b) = both.0 h.1 in (h.0, tokens.0 a, active.0 b)),
      (λ h. (h.0, both.1 (tokens.1 h.1, active.1 h.2))),
    )

-- The node has, by the mapping or under its own name, a node in the definition.
abbrev pub HasCounterpart : ProcessDefinition → Map String String → String → Type 0
HasCounterpart def m n = contains_key (nodes def) (resolve m n) ≡ true

-- Migrating a stored instance to a deployed definition succeeds exactly if the instance has not ended and
-- is not suspended, and if the node of the instance, of each of its `tokens` and of each of its
-- `active_tokens` has, by the mapping or under its own name, a node in the target definition. (The tokens
-- that wait in join barriers or belong to a multi-instance progress are not asked about.)
pub migrate_instance_iff :
    (instance_id target : ℕ) (m : Map String String) (e : Engine) (def : ProcessDefinition)
    (inst : ProcessInstance)
    → get e.definitions target ≡ some def
    → get e.instances instance_id ≡ some inst
    → ((e' : Engine) × (migrate_instance instance_id target m e ≡ ok e')) ↔ (
        (has_ended inst.state ≡ false)
        × (is_suspended inst.state ≡ false)
        × StandsOn (HasCounterpart def m) inst)
unfolding migrate_instance
migrate_instance_iff instance_id target m e def inst d s =
    let nodes_ok = check_nodes_iff def m (occupied inst) in
    let explicit = occupied_iff (HasCounterpart def m) inst in
    elim (check-cases instance_id inst.state) [
      | inl (a, c) ↦ ((λ h. let q = h.1 in absurd (ground arith)), (λ h. absurd (ground arith)))
      | inr (inl (a, c)) ↦
          ((λ h. let q = h.1 in absurd (ground arith)), (λ h. absurd (ground arith)))
      | inr (inr (a, b, c)) ↦ (
        (λ h. let q = h.1 in (a, b, explicit.0 (nodes_ok.0 (ground arith)))),
        (λ h.
            let p = nodes_ok.1 (explicit.1 h.2) in
            (after_migration instance_id target m e def inst, ground arith)),
      )
    ]

module _ {A : Type 0} (node : A → String) (move : A → A) (m : Map String String)
    (moves : (a : A) → node (move a) ≡ resolve m (node a)) (def : ProcessDefinition) where
  moved_last :
      (xs : List A)
      → AllResolve def m (map node xs)
      → All (λ n. contains_key (nodes def) n ≡ true) (map node (map move xs))
  moved_last [] h = tt
  moved_last (x ∷ xs) h = (rw (moves x) h.0, moved_last xs h.1)

  -- What was checked before the move holds of the moved ones.
  moved_resolve :
      (xs : List A) (rest rest' : List String)
      → (AllResolve def m rest → All (λ n. contains_key (nodes def) n ≡ true) rest')
      → AllResolve def m (map node xs ++ rest)
      → All (λ n. contains_key (nodes def) n ≡ true) (map node (map move xs) ++ rest')
  moved_resolve [] rest rest' next h = next h
  moved_resolve (x ∷ xs) rest rest' next h =
      (rw (moves x) h.0, moved_resolve xs rest rest' next h.1)

passes :
    (instance_id : ℕ) (s : InstanceState)
    → has_ended s ≡ false
    → is_suspended s ≡ false
    → check_suspendable instance_id s ≡ ok tt
passes instance_id s a b = ground (arith, check-cases instance_id s)

values-map_values :
    {V : Type 0} (f : V → V) (m : Map ℕ V) → values (map_values f m) ≡ map f (values m)
values-map_values f [] = refl
values-map_values f ((k, v) ∷ m) = ap (λ r. f v ∷ r) (values-map_values f m)

placed :
    (target : ℕ) (def : ProcessDefinition) (m : Map String String) (inst : ProcessInstance)
    → AllResolve def m (occupied inst)
    → All (λ n. contains_key (nodes def) n ≡ true) (occupied (migrated_instance target def m inst))
unfolding migrated_instance push_audit_log
placed target def m inst h = (
  h.0,
  subst
      (λ ts.
        All (λ n. contains_key (nodes def) n ≡ true)
          (map (λ t. t.current_node) ts
            ++ map (λ at. at.token.current_node) (map (moved_active m) inst.active_tokens)))
      (sym (values-map_values (moved_token m) inst.tokens))
      (moved_resolve (λ t. t.current_node) (moved_token m) m (λ t. refl) def (values inst.tokens)
        (map (λ at. at.token.current_node) inst.active_tokens) _
        (moved_last (λ at. at.token.current_node) (moved_active m) m (λ at. refl) def
          inst.active_tokens)
        h.1),
)

-- After a successful migration the stored instance belongs to the target definition, and the instance, each
-- of its `tokens` and each of its `active_tokens` stands on a node of that definition. Each join barrier and
-- each multi-instance progress that it then has is one that it had, unchanged: the tokens in these stand
-- where they stood, whether the target definition has the node or not.
pub migrate_instance_placed :
    (instance_id target : ℕ) (m : Map String String) (e e' : Engine) (def : ProcessDefinition)
    (inst : ProcessInstance)
    → get e.definitions target ≡ some def
    → get e.instances instance_id ≡ some inst
    → migrate_instance instance_id target m e ≡ ok e'
    → (inst' : ProcessInstance) × (get e'.instances instance_id ≡ some inst')
      × (inst'.definition_key ≡ target)
      × StandsOn (λ n. contains_key (nodes def) n ≡ true) inst'
      × HoldsNoOther inst.join_barriers inst'.join_barriers
      × HoldsNoOther inst.multi_instance_state inst'.multi_instance_state
unfolding migrate_instance after_migration migrated_instance push_audit_log
migrate_instance_placed instance_id target m e e' def inst d s h =
    let (a, b, counterparts) =
      (migrate_instance_iff instance_id target m e def inst d s).0 (e', h) in
    let all_resolve = (occupied_iff (HasCounterpart def m) inst).1 counterparts in
    let p = (check_nodes_iff def m (occupied inst)).1 all_resolve in
    let c = passes instance_id inst.state a b in
    let q : e' ≡ after_migration instance_id target m e def inst = ground arith in
    (
      migrated_instance target def m inst,
      subst (λ x. get x.instances instance_id ≡ some (migrated_instance target def m inst)) (sym q)
          (get-insert_self e.instances instance_id (migrated_instance target def m inst)),
      refl,
      (occupied_iff (λ n. contains_key (nodes def) n ≡ true)
            (migrated_instance target def m inst)).0
          (placed target def m inst all_resolve),
      rekey-HoldsNoOther m inst.join_barriers,
      rekey-HoldsNoOther m inst.multi_instance_state,
    )
