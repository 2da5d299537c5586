-- ===== src/Executor/JoinSearch/Walk.antt =====
-- Walks along the flows of a valid definition, and where its gateways send tokens.
use mathlib.Core.List.{Memᴰ}
use mini_bpm_engine.Prelude.{
  ℕ, String, ◌≡◌, ◌⊎◌, inl, inr, sym, subst, Bool, true, false, some, List, [], ◌∷◌, get, All, ◌==◌,
  Bool-cases, string_eq,
}
use mini_bpm_engine.Domain.Element.{BpmnElement, SequenceFlow, may_be_terminal}
use mini_bpm_engine.Domain.Definition.{ProcessDefinition, nodes, flows, next_nodes, or_nil}
use mini_bpm_engine.Domain.Definition.Validation.{Nodes, Flows}
use mini_bpm_engine.Domain.Definition.Validation.Structure.{HasNode, IsWellFormed}
use mini_bpm_engine.Domain.Error.{ok, err, no_matching_condition}
use mini_bpm_engine.Domain.Json.{Json}
use mini_bpm_engine.Domain.Token.{Token}
use mini_bpm_engine.Runtime.Action.{NextAction}
use mini_bpm_engine.Gateway.{
  targets, must_join, Outcome, execute_parallel_gateway, execute_inclusive_gateway,
}
use mini_bpm_engine.Gateway.Routing.{
  places, tokens_of, IsSelection, take, pass, done, execute_parallel_gateway-Sends,
  execute_inclusive_gateway-Sends,
}

-- The targets of the flows that a map holds for a node.
targets_joined :
    (ns : Nodes) (fs : Flows) (k : String)
    → All (λ p. HasNode ns p.0 × All (λ sf. HasNode ns sf.target) p.1) fs
    → All (λ sf. HasNode ns sf.target) (or_nil (get fs k))
unfolding get
targets_joined ns [] k h = tt
targets_joined ns ((from, targets) ∷ fs) k h = elim (Bool-cases (from == k)) [
  | inl e ↦ rw e h.0.1
  | inr e ↦ rw e (targets_joined ns fs k h.1)
]

-- At a node there is an element, and either a token may end there or a flow leads on to a node.
abbrev pub GoesOn : ProcessDefinition → String → Type 0
GoesOn def node =
    (element : BpmnElement) × (get (nodes def) node ≡ some element)
    × ((may_be_terminal element ≡ true)
        ⊎ ((sf : SequenceFlow) × Memᴰ sf (next_nodes def node) × HasNode (nodes def) sf.target))

-- The tokens that a gateway sends stand on nodes of the definition.
abbrev pub StaysIn : ProcessDefinition → Outcome → Type 0
StaysIn def r =
    (a : NextAction) × (t : Token) × (r ≡ ok (a, t))
    × All (HasNode (nodes def)) (places (tokens_of a))

All-targets :
    (ns : Nodes) (out : List SequenceFlow)
    → All (λ sf. HasNode ns sf.target) out
    → All (HasNode ns) (targets out)
All-targets ns [] h = tt
All-targets ns (sf ∷ out) h = (h.0, All-targets ns out h.1)

selected_targets :
    (ns : Nodes) (p : SequenceFlow → Bool) (out : List SequenceFlow) (ts : List String)
    → IsSelection p out ts
    → All (λ sf. HasNode ns sf.target) out
    → All (HasNode ns) ts
selected_targets ns p _ _ done h = tt
selected_targets ns p _ _ (take {out = out} {ts = ts} e s) h =
    (h.0, selected_targets ns p out ts s h.1)
selected_targets ns p _ _ (pass {out = out} {ts = ts} e s) h = selected_targets ns p out ts s h.1

out_joined :
    (def : ProcessDefinition) (node : String)
    → IsWellFormed (nodes def) (flows def)
    → All (λ sf. HasNode (nodes def) sf.target) (next_nodes def node)
unfolding next_nodes
out_joined def node w = targets_joined (nodes def) (flows def) node w.flows_joined

-- In a definition that passes validation, a parallel gateway that does not join sends all its tokens to
-- nodes of the definition, and so does an inclusive one unless it fails.
pub gateways-StaysIn :
    (J : Json) (uuids : ℕ → ℕ) (def : ProcessDefinition) (current_id : String) (token : Token)
    → IsWellFormed (nodes def) (flows def)
    → must_join def current_id token ≡ false
    → StaysIn def (execute_parallel_gateway uuids def current_id token)
      × ((execute_inclusive_gateway J uuids def current_id token
            ≡ err (no_matching_condition current_id))
          ⊎ StaysIn def (execute_inclusive_gateway J uuids def current_id token))
gateways-StaysIn J uuids def current_id token w h =
    let joined = out_joined def current_id w in
    let (a, t, r, at, copies) = execute_parallel_gateway-Sends uuids def current_id token h in
    (
      (
        a,
        t,
        r,
        subst (All (HasNode (nodes def))) (sym at)
            (All-targets (nodes def) (next_nodes def current_id) joined),
      ),
      elim (execute_inclusive_gateway-Sends J uuids def current_id token h) [
        | inl (e, none_open) ↦ inl e
        | inr (ts, (b, u, q, here, copied), s) ↦ inr (
          b,
          u,
          q,
          subst (All (HasNode (nodes def))) (sym here)
              (selected_targets (nodes def) _ (next_nodes def current_id) ts s joined),
        )
      ],
    )
