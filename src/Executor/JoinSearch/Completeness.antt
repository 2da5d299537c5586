-- ===== src/Executor/JoinSearch/Completeness.antt =====
-- When `find_downstream_join` finds a join.
use mathlib.Core.List.{Memᴰ}
use mathlib.Core.List.Memᴰ.{not-nil, map as mem_map}
use mathlib.Core.Option.{some-injective}
use mini_bpm_engine.Prelude.{
  String, ◌≡◌, ◌≢◌, inl, inr, refl, sym, ◌∙◌, subst, true, some, List, [], contains, get, arith,
  string_eq,
}
use mini_bpm_engine.Domain.Element.{BpmnElement, SequenceFlow}
use mini_bpm_engine.Domain.Definition.{ProcessDefinition, nodes, next_nodes}
use mini_bpm_engine.Executor.JoinSearch.{
  at_depth, Search, found, exhausted, out_of_fuel, answer, join_search, join_fuel,
  find_downstream_join,
}
use mini_bpm_engine.Executor.JoinSearch.Termination.{join_search_ends}
use mini_bpm_engine.Executor.JoinSearch.Soundness.{
  Reaches, first, later, IsJoinFor, find_downstream_join_sound,
}
use mini_bpm_engine.Executor.JoinSearch.Nesting.{IsSplitLike}
use mini_bpm_engine.Executor.JoinSearch.Closure.{IsSearched, at_depth-IsFlat, join_loop-Closes}

module _ (def : ProcessDefinition) (start : String) (split : BpmnElement)
    (flat : (n : String) → Reaches def start n → IsSplitLike def split n → ⊥) where
  -- All that is reached is in the set that an exhausted search leaves behind.
  reached_seen :
      (seen : List String)
      → ((sf : SequenceFlow) → Memᴰ sf (next_nodes def start) → contains seen sf.target ≡ true)
      → ((n : String) → contains seen n ≡ true → IsSearched def start split flat [] seen n)
      → (node : String) → Reaches def start node
      → contains seen node ≡ true
  reached_seen seen starts closed _ (first {sf = sf} m) = starts sf m
  reached_seen seen starts closed _ (later {node = node} {sf = sf} reach m) =
      elim ((closed node (reached_seen seen starts closed node reach)).1 sf m) [
        | inl known ↦ known
        | inr waits ↦ absurd (not-nil waits)
      ]

  exhausted-no_join :
      join_search def start split ≡ exhausted
      → (node : String) → Reaches def start node
      → IsJoinFor def split node
      → ⊥
  exhausted-no_join ends node reach joins =
      let (seen, covers, closed) =
        join_loop-Closes def start split flat (join_fuel def start)
          (at_depth 1 (next_nodes def start)) []
          (at_depth-IsFlat def start split flat (next_nodes def start) (λ sf m. Reaches.first m))
          (λ n s. absurd (ground arith)) ends in
      (closed node (
          reached_seen seen (λ sf m. covers sf.target (inr (mem_map (λ g. (g.target, 1)) m))) closed
            node reach)).0
        joins

search_finds : (s : Search) → s ≢ out_of_fuel → s ≢ exhausted → (k : String) × (answer s ≡ some k)
search_finds (found k) ends finds = (k, refl)
search_finds exhausted ends finds = absurd (finds refl)
search_finds out_of_fuel ends finds = absurd (ends refl)

answer-join_search :
    (def : ProcessDefinition) (start_node : String) (split : BpmnElement)
    → get (nodes def) start_node ≡ some split
    → find_downstream_join def start_node ≡ answer (join_search def start_node split)
unfolding find_downstream_join
answer-join_search def start_node split stands = rw (stands, find_downstream_join) refl

-- If the flows from a split reach a join gateway of its type, and no second gateway of its type that splits,
-- then the search ends with a result: a join gateway of the split's type that the flows reach.
pub find_downstream_join_finds :
    (def : ProcessDefinition) (start_node j : String) (split : BpmnElement)
    → get (nodes def) start_node ≡ some split
    → ((n : String) → Reaches def start_node n → IsSplitLike def split n → ⊥)
    → Reaches def start_node j
    → IsJoinFor def split j
    → (k : String) × (find_downstream_join def start_node ≡ some k)
      × Reaches def start_node k
      × IsJoinFor def split k
find_downstream_join_finds def start_node j split stands flat reach joins =
    let (k, answers) =
      search_finds (join_search def start_node split) (join_search_ends def start_node split)
        (λ ends. exhausted-no_join def start_node split flat ends j reach joins) in
    let finds = answer-join_search def start_node split stands ∙ answers in
    let (split', stands', reach_k, joins_k) = find_downstream_join_sound def start_node k finds in
    (
      k,
      finds,
      reach_k,
      subst (λ s. IsJoinFor def s k) (some-injective _ _ (sym stands' ∙ stands)) joins_k,
    )
