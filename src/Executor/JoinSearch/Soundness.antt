-- ===== src/Executor/JoinSearch/Soundness.antt =====
-- What `find_downstream_join` finds.
use mathlib.Core.List.{Memᴰ}
use mathlib.Core.Option.{some-injective}
use mini_bpm_engine.Prelude.{
  ℕ, zero, suc, ◌≤◌, String, ◌≡◌, refl, subst, true, some, List, [], ◌∷◌, ◌++◌, contains, get,
  Bool-cases, Option-cases, inl, inr, arith, string_eq,
}
use mini_bpm_engine.Domain.Element.{BpmnElement, SequenceFlow}
use mini_bpm_engine.Domain.Definition.{ProcessDefinition, nodes, next_nodes, is_join_gateway}
use mini_bpm_engine.Executor.Helpers.{same_gateway_type}
use mini_bpm_engine.Executor.JoinSearch.{
  Queue, at_depth, Visit, stop, push, visit, Search, found, exhausted, out_of_fuel, join_loop,
  answer, join_search, join_fuel, find_downstream_join,
}

-- A node that flows lead to from the start, by one flow or more.
pub data Reaches (def : ProcessDefinition) (start : String) : String → Type 0 where
  first : {sf : SequenceFlow} → Memᴰ sf (next_nodes def start) → Reaches def start sf.target
  later :
      {node : String} {sf : SequenceFlow}
      → Reaches def start node
      → Memᴰ sf (next_nodes def node)
      → Reaches def start sf.target

-- A join gateway of the split's type.
pub record IsJoinFor (def : ProcessDefinition) (split : BpmnElement) (node : String) : Type 0 where
  pub element : BpmnElement
  pub stands : get (nodes def) node ≡ some element
  pub joins : is_join_gateway def node ≡ true
  pub same_type : same_gateway_type split element ≡ true

visit-stop :
    (def : ProcessDefinition) (split : BpmnElement) (node : String) (depth : ℕ)
    → visit def split node depth ≡ stop
    → IsJoinFor def split node
unfolding visit
visit-stop def split node depth h = elim (Option-cases (get (nodes def) node)) [
  | inl e ↦ absurd (ground arith)
  | inr (element, e) ↦ record {
    element = element;
    stands = e;
    joins = ground arith;
    same_type = ground arith;
  }
]

-- A depth of the queue is never 0, so `depth - 1` does not underflow.
visit-push :
    (def : ProcessDefinition) (split : BpmnElement) (node : String) (depth d : ℕ)
    → 1 ≤ depth
    → visit def split node depth ≡ push d
    → 1 ≤ d
unfolding visit
visit-push def split node depth d h e = ground arith

module _ (def : ProcessDefinition) (start : String) where
  abbrev IsOpen : Queue → Type 0
  IsOpen [] = Unit {0}
  IsOpen ((node, depth) ∷ queue) = Reaches def start node × (1 ≤ depth) × IsOpen queue

  append-IsOpen : (q r : Queue) → IsOpen q → IsOpen r → IsOpen (q ++ r)
  append-IsOpen [] r h k = k
  append-IsOpen ((node, depth) ∷ q) r (reach, pos, h) k = (reach, pos, append-IsOpen q r h k)

  at_depth-IsOpen :
      (d : ℕ) (out : List SequenceFlow)
      → 1 ≤ d
      → ((sf : SequenceFlow) → Memᴰ sf out → Reaches def start sf.target)
      → IsOpen (at_depth d out)
  at_depth-IsOpen d [] pos reach = tt
  at_depth-IsOpen d (sf ∷ out) pos reach =
      (reach sf (Memᴰ.head refl), pos, at_depth-IsOpen d out pos (λ g m. reach g (Memᴰ.tail m)))

module _ (def : ProcessDefinition) (start : String) (split : BpmnElement) where
  abbrev IsAnswer : Search → Type 0
  IsAnswer (found j) = Reaches def start j × IsJoinFor def split j
  IsAnswer _ = Unit {0}

  enter-IsAnswer :
      (fuel depth : ℕ) (queue : Queue) (visited : List String) (node : String) (v : Visit)
      → ((q : Queue) (vs : List String)
          → IsOpen def start q
          → IsAnswer (join_loop fuel def split q vs))
      → Reaches def start node
      → 1 ≤ depth
      → IsOpen def start queue
      → visit def split node depth ≡ v
      → IsAnswer (elim v [
        | stop ↦ found node
        | push d ↦
            join_loop fuel def split (queue ++ at_depth d (next_nodes def node)) (node ∷ visited)
      ])
  enter-IsAnswer fuel depth queue visited node stop next reach pos open_queue e =
      (reach, visit-stop def split node depth e)
  enter-IsAnswer fuel depth queue visited node (push d) next reach pos open_queue e =
      next (queue ++ at_depth d (next_nodes def node)) (node ∷ visited) (
        append-IsOpen def start queue _ open_queue (
          at_depth-IsOpen def start d (next_nodes def node)
            (visit-push def split node depth d pos e) (λ sf m. Reaches.later reach m)))

  join_loop-IsAnswer :
      (fuel : ℕ) (queue : Queue) (visited : List String)
      → IsOpen def start queue
      → IsAnswer (join_loop fuel def split queue visited)
  unfolding join_loop
  join_loop-IsAnswer zero queue visited h = tt
  join_loop-IsAnswer (suc fuel) [] visited h = tt
  join_loop-IsAnswer (suc fuel) ((node, depth) ∷ queue) visited (reach, pos, h) =
      elim (Bool-cases (contains visited node)) [
        | inl old ↦ rw (old, join_loop) (join_loop-IsAnswer fuel queue visited h)
        | inr new ↦
            rw (new, join_loop)
              (enter-IsAnswer fuel depth queue visited node (visit def split node depth)
                (join_loop-IsAnswer fuel) reach pos h refl)
      ]

answer_sound :
    (def : ProcessDefinition) (start : String) (split : BpmnElement) (j : String) (s : Search)
    → IsAnswer def start split s
    → answer s ≡ some j
    → Reaches def start j × IsJoinFor def split j
answer_sound def start split j (found k) h e =
    subst (λ x. Reaches def start x × IsJoinFor def split x) (some-injective k j e) h
answer_sound def start split j exhausted h e = cc
answer_sound def start split j out_of_fuel h e = cc

-- What the search finds is reached from the split along the flows, and is a join gateway (at least two
-- incoming flows) of the split's own type.
pub find_downstream_join_sound :
    (def : ProcessDefinition) (start_node j : String)
    → find_downstream_join def start_node ≡ some j
    → (split : BpmnElement) × (get (nodes def) start_node ≡ some split)
      × Reaches def start_node j
      × IsJoinFor def split j
unfolding find_downstream_join
find_downstream_join_sound def start_node j h = elim (Option-cases (get (nodes def) start_node)) [
  | inl e ↦ absurd (ground arith)
  | inr (split, e) ↦
      let (reach, joins) =
        answer_sound def start_node split j (join_search def start_node split)
          (join_loop-IsAnswer def start_node split (join_fuel def start_node)
            (at_depth 1 (next_nodes def start_node)) []
            (at_depth-IsOpen def start_node 1 (next_nodes def start_node) (omega arith)
              (λ sf m. Reaches.first m)))
          (ground arith) in
      (split, e, reach, joins)
]
