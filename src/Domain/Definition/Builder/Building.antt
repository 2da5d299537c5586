-- ===== src/Domain/Definition/Builder/Building.antt =====
-- What a builder builds.
use mini_bpm_engine.Prelude.{
  ℕ, String, ◌≡◌, ◌⊎◌, inl, inr, refl, ap, Option, none, some, [], ◌∷◌, ◌++◌, get, get-insert,
  if◌then◌else◌, ◌==◌, arith, string_eq,
}
use mini_bpm_engine.Domain.Element.{SequenceFlow, simple, conditional}
use mini_bpm_engine.Domain.Error.{EngineError, Result, ok, err}
use mini_bpm_engine.Domain.Definition.{definition}
use mini_bpm_engine.Domain.Definition.Validation.{validate, new as new_definition}
use mini_bpm_engine.Domain.Definition.Validation.Structure.{IsWellFormed, validate_iff}
use mini_bpm_engine.Domain.Definition.Builder.{
  ProcessDefinitionBuilder, or_empty, flow, conditional_flow, set_key, build,
}

result-cases : (r : Result (Unit {0})) → ((e : EngineError) × (r ≡ err e)) ⊎ (r ≡ ok tt)
result-cases (err e) = inl (e, refl)
result-cases (ok u) = inr refl

-- The key of the definition: the one that was set, or the fresh one.
abbrev pub key_or : ℕ → Option ℕ → ℕ
key_or uuid none = uuid
key_or uuid (some key) = key

set_key-definition :
    (b : ProcessDefinitionBuilder) (uuid : ℕ) (o : Option ℕ)
    → set_key o (
        definition uuid b.id b.version b.nodes b.flows b.listeners b.event_listeners
          b.sub_processes)
      ≡ definition
          (key_or uuid o)
          b.id
          b.version
          b.nodes
          b.flows
          b.listeners
          b.event_listeners
          b.sub_processes
set_key-definition b uuid none = refl
set_key-definition b uuid (some key) = refl

-- Building succeeds exactly when the collected nodes and flows are well-formed, and gives a definition
-- with exactly what was collected, under the key that was set or else a fresh one.
pub build_lem :
    (uuid : ℕ) (b : ProcessDefinitionBuilder)
    → ((IsWellFormed b.nodes b.flows → ⊥) × ((e : EngineError) × (build uuid b ≡ err e)))
      ⊎ (IsWellFormed b.nodes b.flows
          × (build uuid b
              ≡ ok (
                  definition
                    (key_or uuid b.key)
                    b.id
                    b.version
                    b.nodes
                    b.flows
                    b.listeners
                    b.event_listeners
                    b.sub_processes)))
unfolding build new_definition
build_lem uuid b = elim (result-cases (validate b.nodes b.flows)) [
  | inl (e, h) ↦ inl ((λ w. let k = (validate_iff b.nodes b.flows).1 w in cc), (e, rw h refl))
  | inr h ↦ inr ((validate_iff b.nodes b.flows).0 h, rw h (ap ok (set_key-definition b uuid b.key)))
]

-- The flows that leave `from` afterwards: one more at the end; those of every other node stay.
abbrev pub Appends :
    ProcessDefinitionBuilder → String → SequenceFlow → ProcessDefinitionBuilder → Type 0
Appends b from sf b' =
    (j : String)
    → or_empty (get b'.flows j)
      ≡ (if from == j then or_empty (get b.flows j) ++ sf ∷ [] else or_empty (get b.flows j))

-- Adding a flow, conditional or not, appends it to the flows of its source, behind those that were added
-- before, and changes the flows of no other node.
pub flow-Appends :
    (b : ProcessDefinitionBuilder) (from to condition : String)
    → Appends b from (simple to) (flow b from to)
      × Appends b from (conditional to condition) (conditional_flow b from to condition)
unfolding flow conditional_flow
flow-Appends b from to condition = (
  (λ j. ground (
    arith,
    get-insert b.flows from j (or_empty (get b.flows from) ++ simple to ∷ []),
    string_eq.equal_iff from j,
  )),
  (λ j. ground (
    arith,
    get-insert b.flows from j (or_empty (get b.flows from) ++ conditional to condition ∷ []),
    string_eq.equal_iff from j,
  )),
)
