-- ===== src/Domain/Definition/Validation/Structure.antt =====
-- What a definition that passes `ProcessDefinition::new` looks like.
use mini_bpm_engine.Prelude.{
  ◌≤◌, String, ◌≡◌, ◌↔◌, ◌⊎◌, refl, true, false, Option, none, some, List, [], ◌∷◌, length, count,
  get, contains_key, values, All, Bool-cases, inl, inr, arith, string_eq,
}
use mini_bpm_engine.Domain.Element.{
  BpmnElement, SequenceFlow, is_start, is_end, may_be_terminal, is_gateway, is_event_based_gateway,
  is_message_or_timer_catch, attached_to,
}
use mini_bpm_engine.Domain.Error.{ok}
use mini_bpm_engine.Domain.Definition.{incoming}
use mini_bpm_engine.Domain.Definition.Validation.{
  Nodes, Flows, outgoing, check_targets, check_flows, check_attached, check_boundary_events,
  check_outgoing, is_catch_or_absent, check_event_targets, check_gateways, validate,
}

abbrev pub HasNode : Nodes → String → Type 0
HasNode nodes i = contains_key nodes i ≡ true

-- A boundary event is attached to a node that there is.
abbrev pub IsAttached : Nodes → Option String → Type 0
IsAttached nodes none = Unit {0}
IsAttached nodes (some a) = HasNode nodes a

-- A node, if there is one, that an event-based gateway may lead to.
abbrev pub IsCatch : Option BpmnElement → Type 0
IsCatch none = Unit {0}
IsCatch (some e) = is_message_or_timer_catch e ≡ true

pub record IsWellFormed (nodes : Nodes) (flows : Flows) : Type 0 where
  pub one_start : count is_start (values nodes) ≡ 1
  pub some_end : 1 ≤ count is_end (values nodes)
  pub flows_joined : All (λ p. HasNode nodes p.0 × All (λ sf. HasNode nodes sf.target) p.1) flows
  pub boundary_attached : All (λ p. IsAttached nodes (attached_to p.1)) nodes
  pub continues : All (λ p. (may_be_terminal p.1 ≡ true) ⊎ (1 ≤ length (outgoing flows p.0))) nodes
  pub gateways_branch :
      All
        (λ p.
          ((is_gateway p.1 ≡ false) ⊎ (2 ≤ length (outgoing flows p.0)) ⊎ (2 ≤ incoming flows p.0))
          × ((is_event_based_gateway p.1 ≡ false)
              ⊎ All (λ sf. IsCatch (get nodes sf.target)) (outgoing flows p.0)))
        nodes

check_targets_iff :
    (nodes : Nodes) (targets : List SequenceFlow)
    → (check_targets nodes targets ≡ ok tt) ↔ All (λ sf. HasNode nodes sf.target) targets
unfolding check_targets
check_targets_iff nodes [] = ((λ _. tt), (λ _. refl))
check_targets_iff nodes (sf ∷ rest) =
    let ih = check_targets_iff nodes rest in ((λ h. ground (arith, ih)), (λ h. ground (arith, ih)))

check_flows_iff :
    (nodes : Nodes) (flows : Flows)
    → (check_flows nodes flows ≡ ok tt)
      ↔ All (λ p. HasNode nodes p.0 × All (λ sf. HasNode nodes sf.target) p.1) flows
unfolding check_flows
check_flows_iff nodes [] = ((λ _. tt), (λ _. refl))
check_flows_iff nodes ((from, targets) ∷ rest) =
    let ih = check_flows_iff nodes rest in
    let here = check_targets_iff nodes targets in
    ((λ h. ground (arith, ih, here)), (λ h. ground (arith, ih, here)))

check_attached_iff :
    (nodes : Nodes) (i : String) (o : Option String)
    → (check_attached nodes i o ≡ ok tt) ↔ IsAttached nodes o
unfolding check_attached
check_attached_iff nodes i none = ((λ _. tt), (λ _. refl))
check_attached_iff nodes i (some b) = ((λ h. ground arith), (λ h. ground arith))

check_boundary_events_iff :
    (nodes rest : Nodes)
    → (check_boundary_events nodes rest ≡ ok tt)
      ↔ All (λ p. IsAttached nodes (attached_to p.1)) rest
unfolding check_boundary_events
check_boundary_events_iff nodes [] = ((λ _. tt), (λ _. refl))
check_boundary_events_iff nodes ((i, e) ∷ rest) =
    let ih = check_boundary_events_iff nodes rest in
    let here = check_attached_iff nodes i (attached_to e) in
    (
      (λ h. (here.0 (ground arith), ih.0 (ground (arith, here)))),
      (λ h. let now = here.1 h.0 in let later = ih.1 h.1 in ground arith),
    )

check_outgoing_iff :
    (flows : Flows) (nodes : Nodes)
    → (check_outgoing flows nodes ≡ ok tt)
      ↔ All (λ p. (may_be_terminal p.1 ≡ true) ⊎ (1 ≤ length (outgoing flows p.0))) nodes
unfolding check_outgoing
check_outgoing_iff flows [] = ((λ _. tt), (λ _. refl))
check_outgoing_iff flows ((i, e) ∷ rest) =
    let ih = check_outgoing_iff flows rest in
    elim (Bool-cases (may_be_terminal e)) [
      | inl t ↦ ((λ h. (inl t, ih.0 (ground arith))), (λ h. let later = ih.1 h.1 in ground arith))
      | inr t ↦ (
        (λ h. (inr (ground arith), ih.0 (ground arith))),
        (λ h. let later = ih.1 h.1 in ground arith),
      )
    ]

is_catch_or_absent_iff : (o : Option BpmnElement) → (is_catch_or_absent o ≡ true) ↔ IsCatch o
unfolding is_catch_or_absent
is_catch_or_absent_iff none = ((λ _. tt), (λ _. refl))
is_catch_or_absent_iff (some e) = ((λ h. h), (λ h. h))

check_event_targets_iff :
    (nodes : Nodes) (i : String) (targets : List SequenceFlow)
    → (check_event_targets nodes i targets ≡ ok tt)
      ↔ All (λ sf. IsCatch (get nodes sf.target)) targets
unfolding check_event_targets
check_event_targets_iff nodes i [] = ((λ _. tt), (λ _. refl))
check_event_targets_iff nodes i (sf ∷ rest) =
    let ih = check_event_targets_iff nodes i rest in
    let here = is_catch_or_absent_iff (get nodes sf.target) in
    (
      (λ h. (here.0 (ground arith), ih.0 (ground arith))),
      (λ h. let now = here.1 h.0 in let later = ih.1 h.1 in ground arith),
    )

check_gateways_iff :
    (nodes : Nodes) (flows : Flows) (rest : Nodes)
    → (check_gateways nodes flows rest ≡ ok tt)
      ↔ All
          (λ p.
            ((is_gateway p.1 ≡ false)
              ⊎ (2 ≤ length (outgoing flows p.0))
              ⊎ (2 ≤ incoming flows p.0))
            × ((is_event_based_gateway p.1 ≡ false)
                ⊎ All (λ sf. IsCatch (get nodes sf.target)) (outgoing flows p.0)))
          rest
unfolding check_gateways
check_gateways_iff nodes flows [] = ((λ _. tt), (λ _. refl))
check_gateways_iff nodes flows ((i, e) ∷ rest) =
    let ih = check_gateways_iff nodes flows rest in
    let here = check_event_targets_iff nodes i (outgoing flows i) in
    elim (Bool-cases (is_event_based_gateway e)) [
      | inl g ↦ (
        (λ h. ((ground arith, inr (here.0 (ground arith))), ih.0 (ground arith))),
        (λ h.
            let later = ih.1 h.1 in
            let branches = h.0.0 in
            elim h.0.1 [
              | inl n ↦ absurd (ground arith)
              | inr c ↦ let catches = here.1 c in ground arith
            ]),
      )
      | inr g ↦ (
        (λ h. ((ground arith, inl g), ih.0 (ground arith))),
        (λ h. let later = ih.1 h.1 in let branches = h.0.0 in ground arith),
      )
    ]

-- `validate` accepts exactly the well-formed pairs of nodes and flows.
pub validate_iff :
    (nodes : Nodes) (flows : Flows) → (validate nodes flows ≡ ok tt) ↔ IsWellFormed nodes flows
unfolding validate
validate_iff nodes flows =
    let joined = check_flows_iff nodes flows in
    let attached = check_boundary_events_iff nodes nodes in
    let continuing = check_outgoing_iff flows nodes in
    let branching = check_gateways_iff nodes flows nodes in
    (
      (λ h. record {
        one_start = ground arith;
        some_end = ground arith;
        flows_joined = joined.0 (ground arith);
        boundary_attached = attached.0 (ground arith);
        continues = continuing.0 (ground arith);
        gateways_branch = branching.0 (ground arith);
      }),
      (λ w.
          let a = joined.1 w.flows_joined in
          let b = attached.1 w.boundary_attached in
          let c = continuing.1 w.continues in
          let d = branching.1 w.gateways_branch in
          let e = w.one_start in let f = w.some_end in ground arith),
    )
