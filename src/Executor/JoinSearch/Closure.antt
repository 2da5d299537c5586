-- ===== src/Executor/JoinSearch/Closure.antt =====
-- What an exhausted search of engine-core/src/engine/executor/helpers.rs has visited, where no second
-- split nests.
use mathlib.Core.List.{Memᴰ}
use mathlib.Core.List.Memᴰ.{not-nil, append_left, append_right, map as mem_map}
use mini_bpm_engine.Prelude.{
  ℕ, zero, suc, String, ◌≡◌, ◌⊎◌, inl, inr, refl, sym, ap, subst, true, List, [], ◌∷◌, ◌++◌,
  contains, ◌==◌, Bool-cases, arith, string_eq,
}
use mini_bpm_engine.Domain.Element.{BpmnElement, SequenceFlow}
use mini_bpm_engine.Domain.Definition.{ProcessDefinition, next_nodes}
use mini_bpm_engine.Executor.JoinSearch.{
  Queue, at_depth, Visit, stop, push, visit, Search, found, exhausted, join_loop,
}
use mini_bpm_engine.Executor.JoinSearch.Soundness.{Reaches, IsJoinFor}
use mini_bpm_engine.Executor.JoinSearch.Nesting.{IsSplitLike, visit-flat}

module _ (def : ProcessDefinition) (start : String) (split : BpmnElement)
    (flat : (n : String) → Reaches def start n → IsSplitLike def split n → ⊥) where
  -- The queue holds nodes that are reached, all at depth 1.
  abbrev pub IsFlat : Queue → Type 0
  IsFlat [] = Unit {0}
  IsFlat ((node, depth) ∷ queue) = Reaches def start node × (depth ≡ 1) × IsFlat queue

  abbrev pub Known : Queue → List String → String → Type 0
  Known queue visited n = (contains visited n ≡ true) ⊎ Memᴰ (n, 1) queue

  -- A visited node is no join, and its flows lead to nodes that are visited or wait.
  abbrev pub IsSearched : Queue → List String → String → Type 0
  IsSearched queue visited n =
      (IsJoinFor def split n → ⊥)
      × ((sf : SequenceFlow) → Memᴰ sf (next_nodes def n) → Known queue visited sf.target)

  -- What an exhausted search leaves behind: a set that holds what was known and is closed under flows.
  abbrev pub Closes : Queue → List String → Search → Type 0
  Closes queue visited s =
      s ≡ exhausted
      → (seen : List String) × ((n : String) → Known queue visited n → contains seen n ≡ true)
        × ((n : String) → contains seen n ≡ true → IsSearched [] seen n)

  Known-shrink :
      (node n : String) (depth : ℕ) (queue : Queue) (visited : List String)
      → contains visited node ≡ true
      → Known ((node, depth) ∷ queue) visited n
      → Known queue visited n
  Known-shrink node n depth queue visited old (inl seen) = inl seen
  Known-shrink node n depth queue visited old (inr (Memᴰ.head e)) =
      inl (subst (λ x. contains visited x ≡ true) (sym (ap (λ p. p.0) e)) old)
  Known-shrink node n depth queue visited old (inr (Memᴰ.tail m)) = inr m

  contains-cons_self :
      (node : String) (visited : List String) → contains (node ∷ visited) node ≡ true
  contains-cons_self node visited = ground (arith, string_eq.equal_iff node node)

  Known-visit :
      (node n : String) (depth : ℕ) (queue more : Queue) (visited : List String)
      → Known ((node, depth) ∷ queue) visited n
      → Known (queue ++ more) (node ∷ visited) n
  Known-visit node n depth queue more visited (inl seen) = inl (ground arith)
  Known-visit node n depth queue more visited (inr (Memᴰ.head e)) = inl (
      subst (λ x. contains (node ∷ visited) x ≡ true) (sym (ap (λ p. p.0) e))
        (contains-cons_self node visited))
  Known-visit node n depth queue more visited (inr (Memᴰ.tail m)) = inr (append_left more m)

  append-IsFlat : (q r : Queue) → IsFlat q → IsFlat r → IsFlat (q ++ r)
  append-IsFlat [] r h k = k
  append-IsFlat ((node, depth) ∷ q) r (reach, one, h) k = (reach, one, append-IsFlat q r h k)

  pub at_depth-IsFlat :
      (out : List SequenceFlow)
      → ((sf : SequenceFlow) → Memᴰ sf out → Reaches def start sf.target)
      → IsFlat (at_depth 1 out)
  at_depth-IsFlat [] reach = tt
  at_depth-IsFlat (sf ∷ out) reach =
      (reach sf (Memᴰ.head refl), refl, at_depth-IsFlat out (λ g m. reach g (Memᴰ.tail m)))

  -- A visit that does not stop keeps the set of visited nodes searched.
  visit-IsSearched :
      (node : String) (depth : ℕ) (queue : Queue) (visited : List String)
      → (IsJoinFor def split node → ⊥)
      → ((n : String) → contains visited n ≡ true → IsSearched ((node, depth) ∷ queue) visited n)
      → (n : String) → contains (node ∷ visited) n ≡ true
      → IsSearched (queue ++ at_depth 1 (next_nodes def node)) (node ∷ visited) n
  visit-IsSearched node depth queue visited no_join inv n seen = elim (Bool-cases (node == n)) [
    | inl same ↦
        subst (IsSearched (queue ++ at_depth 1 (next_nodes def node)) (node ∷ visited))
          ((string_eq.equal_iff node n).0 same)
          (no_join, (λ sf m. inr (append_right queue (mem_map (λ g. (g.target, 1)) m))))
    | inr other ↦
        let (join_free, onward) = inv n (ground arith) in
        (
          join_free,
          (λ sf m.
              Known-visit node sf.target depth queue (at_depth 1 (next_nodes def node)) visited
                (onward sf m)),
        )
  ]

  enter-Closes :
      (fuel : ℕ) (node : String) (queue : Queue) (visited : List String) (v : Visit)
      → ((q : Queue) (vs : List String)
          → IsFlat q
          → ((n : String) → contains vs n ≡ true → IsSearched q vs n)
          → Closes q vs (join_loop fuel def split q vs))
      → Reaches def start node
      → IsFlat queue
      → ((n : String) → contains visited n ≡ true → IsSearched ((node, 1) ∷ queue) visited n)
      → visit def split node 1 ≡ v
      → Closes ((node, 1) ∷ queue) visited (elim v [
        | stop ↦ found node
        | push d ↦
            join_loop fuel def split (queue ++ at_depth d (next_nodes def node)) (node ∷ visited)
      ])
  enter-Closes fuel node queue visited stop next reach h inv e = λ ends. cc
  enter-Closes fuel node queue visited (push d) next reach h inv e =
      let (one, no_join) = visit-flat def split node d (flat node reach) e in
      let more = at_depth 1 (next_nodes def node) in
      λ ends.
        let (seen, covers, closed) =
          next (queue ++ more) (node ∷ visited)
            (append-IsFlat queue more h
              (at_depth-IsFlat (next_nodes def node) (λ sf m. Reaches.later reach m)))
            (visit-IsSearched node 1 queue visited no_join inv)
            (subst
              (λ k.
                join_loop fuel def split (queue ++ at_depth k (next_nodes def node))
                  (node ∷ visited)
                ≡ exhausted)
              one ends) in
        (seen, (λ n k. covers n (Known-visit node n 1 queue more visited k)), closed)

  pub join_loop-Closes :
      (fuel : ℕ) (queue : Queue) (visited : List String)
      → IsFlat queue
      → ((n : String) → contains visited n ≡ true → IsSearched queue visited n)
      → Closes queue visited (join_loop fuel def split queue visited)
  unfolding join_loop
  join_loop-Closes zero queue visited h inv = λ ends. cc
  join_loop-Closes (suc fuel) [] visited h inv =
      λ ends. (visited, (λ n k. elim k [ inl seen ↦ seen | inr m ↦ absurd (not-nil m) ]), inv)
  join_loop-Closes (suc fuel) ((node, depth) ∷ queue) visited (reach, one, h) inv =
      elim (Bool-cases (contains visited node)) [
        | inl old ↦
            rw (old, join_loop)
              (λ ends.
                let (seen, covers, closed) =
                  join_loop-Closes fuel queue visited h
                    (λ n s.
                      let (join_free, onward) = inv n s in
                      (
                        join_free,
                        (λ sf m. Known-shrink node sf.target depth queue visited old (onward sf m)),
                      ))
                    ends in
                (seen, (λ n k. covers n (Known-shrink node n depth queue visited old k)), closed))
        | inr new ↦
            subst
              (λ k.
                Closes ((node, k) ∷ queue) visited
                  (join_loop (suc fuel) def split ((node, k) ∷ queue) visited))
              (sym one)
              (rw (new, join_loop)
                (enter-Closes fuel node queue visited (visit def split node 1)
                  (join_loop-Closes fuel) reach h
                  (subst
                    (λ k.
                      (n : String)
                      → contains visited n ≡ true
                      → IsSearched ((node, k) ∷ queue) visited n)
                    one inv)
                  refl))
      ]
