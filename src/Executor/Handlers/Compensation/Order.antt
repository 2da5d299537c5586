-- ===== src/Executor/Handlers/Compensation/Order.antt =====
-- Which compensation handlers run, and in which order.
use mini_bpm_engine.Prelude.{
  ℕ, get, nat_eq, String, ◌≡◌, Bool, true, Option, none, some, List, [], ◌∷◌, ◌++◌, ◌==◌,
  if◌then◌else◌, string_eq,
}
use mini_bpm_engine.Domain.Token.{Token}
use mini_bpm_engine.Domain.Definition.{ProcessDefinition, get_node}
use mini_bpm_engine.Runtime.Instance.{CompensationRecord}
use mini_bpm_engine.Engine.{Engine}
use mini_bpm_engine.Run.{Env, World, Exit, returns, Run, ◌>>=◌, reads}
use mini_bpm_engine.Executor.Handlers.Compensation.{variables_or, run_handlers}

module _ (def : ProcessDefinition) where
  -- The handler nodes, as far as the definition has them, of the records that pass the test.
  abbrev pub handlers : (test : CompensationRecord → Bool) → List CompensationRecord → List String
  handlers test [] = []
  handlers test (r ∷ log) =
      let rest = handlers test log in
      if test r
      then (elim (get_node def r.handler_node_id) [
        | none ↦ rest
        | some node ↦ r.handler_node_id ∷ rest
      ])
      else rest

abbrev pub backwards {ℓ} : {A : Type ℓ} → List A → List A
backwards [] = []
backwards (x ∷ xs) = backwards xs ++ x ∷ []

-- The order of execution: all handlers, the last one that was registered first; or those of one activity,
-- in the order in which they were registered.
abbrev pub in_order : ProcessDefinition → Option String → List CompensationRecord → List String
in_order def none log = backwards (handlers def (λ r. true) log)
in_order def (some a) log = handlers def (λ r. r.activity_id == a) log

-- The run ends with a token, and with the nested batches that it started, at the given nodes, in the trace.
abbrev pub Visits :
    (trace : Engine → List String) → List String → World → Exit Token × World → Type 0
Visits trace ns w (exit, w') =
    ((t : Token) × (exit ≡ returns t)) × (trace w'.engine ≡ trace w.engine ++ ns)

module _ (env : Env) (nested : ℕ → Token → Run (Unit {0})) (instance_id : ℕ)
    (def : ProcessDefinition) (trace : Engine → List String)
    (traced : (t : Token) (w : World)
      → (w' : World) × (nested instance_id t w ≡ (returns tt, w'))
        × (trace w'.engine ≡ trace w.engine ++ t.current_node ∷ [])) where
  abbrev onward : List CompensationRecord → Token → Unit {0} → Run Token
  onward rs token _ =
      reads (λ e. variables_or token.variables (get e.instances instance_id)) >>= λ variables.
      run_handlers env nested instance_id def rs (record token { variables = variables })
