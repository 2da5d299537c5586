-- ===== src/Executor/JoinSearch/Nesting.antt =====
-- A node that the search visits where no second split nests.
use mathlib.Core.Bool.{false≢true}
use mathlib.Core.Option.{some-injective}
use mini_bpm_engine.Prelude.{
  ℕ, String, ◌≡◌, inl, inr, sym, ap, ◌∙◌, true, some, get, Bool-cases, Option-cases, arith,
  string_eq,
}
use mini_bpm_engine.Domain.Element.{BpmnElement}
use mini_bpm_engine.Domain.Definition.{ProcessDefinition, nodes, is_join_gateway, is_split_gateway}
use mini_bpm_engine.Executor.Helpers.{same_gateway_type}
use mini_bpm_engine.Executor.JoinSearch.{push, visit}
use mini_bpm_engine.Executor.JoinSearch.Soundness.{IsJoinFor}

-- A gateway of the split's type that splits again.
pub record IsSplitLike (def : ProcessDefinition) (split : BpmnElement) (node : String)
    : Type 0 where
  pub element : BpmnElement
  pub stands : get (nodes def) node ≡ some element
  pub splits : is_split_gateway def node ≡ true
  pub same_type : same_gateway_type split element ≡ true

-- With no second split on the way, the search goes on at depth 1, and only past nodes that are no join.
pub visit-flat :
    (def : ProcessDefinition) (split : BpmnElement) (node : String) (d : ℕ)
    → (IsSplitLike def split node → ⊥)
    → visit def split node 1 ≡ push d
    → (d ≡ 1) × (IsJoinFor def split node → ⊥)
unfolding visit
visit-flat def split node d flat e = elim (Option-cases (get (nodes def) node)) [
  | inl absent ↦ (ground arith, (λ j. let h = sym absent ∙ j.stands in cc))
  | inr (element, stands) ↦ elim (Bool-cases (same_gateway_type split element)) [
    | inl same ↦ elim (Bool-cases (is_split_gateway def node)) [
      | inl splits ↦
          absurd (
            flat (record { element = element; stands = stands; splits = splits; same_type = same }))
      | inr single ↦ elim (Bool-cases (is_join_gateway def node)) [
        | inl joins ↦ absurd (ground arith)
        | inr apart ↦ (ground arith, (λ j. false≢true (sym apart ∙ j.joins)))
      ]
    ]
    | inr other ↦ (
      ground arith,
      (λ j.
          let q = some-injective _ _ (sym stands ∙ j.stands) in
          false≢true (sym other ∙ ap (same_gateway_type split) q ∙ j.same_type)),
    )
  ]
]
