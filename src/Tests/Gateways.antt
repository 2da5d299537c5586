-- ===== src/Tests/Gateways.antt =====
-- Gateways of the order process, and the search for the join of its split.
use mathlib.Core.List.{Memᴰ}
use mathlib.Core.Bool.{false≢true}
use mini_bpm_engine.Prelude.{
  ℕ, ◌+◌, String, ◌≡◌, sym, ◌∙◌, false, All, mem_of_All, ◌↔◌, ◌⊎◌, refl, Option, none, some, List,
  [], ◌∷◌, get, string_eq,
}
use mini_bpm_engine.Domain.Error.{ok, err, no_matching_condition}
use mini_bpm_engine.Domain.Element.{BpmnElement, inclusive_gateway}
use mini_bpm_engine.Domain.Definition.{
  nodes, next_nodes, incoming_flow_count, incoming, is_join_gateway, is_split_gateway,
}
use mini_bpm_engine.Executor.Helpers.{same_gateway_type}
use mini_bpm_engine.Domain.Definition.Validation.{validate}
use mini_bpm_engine.Domain.Definition.Validation.Structure.{IsWellFormed, validate_iff}
use mini_bpm_engine.Runtime.Action.{continue}
use mini_bpm_engine.Gateway.{
  targets, move_to, is_satisfied, is_open, is_taken, execute_parallel_gateway,
  execute_exclusive_gateway, execute_inclusive_gateway, execute_complex_gateway,
}
use mini_bpm_engine.Gateway.Routing.{
  Sends, NonePass, IsSelection, execute_parallel_gateway-Sends, execute_inclusive_gateway-Sends,
}
use mini_bpm_engine.Gateway.Choice.{
  FindsFirst, by_default, execute_exclusive_gateway_first, execute_complex_gateway-Sends,
}
use mini_bpm_engine.Executor.JoinSearch.{visit, find_downstream_join}
use mini_bpm_engine.Executor.JoinSearch.Nesting.{IsSplitLike}
use mini_bpm_engine.Executor.JoinSearch.Completeness.{find_downstream_join_finds}
use mini_bpm_engine.Executor.JoinSearch.Walk.{StaysIn, gateways-StaysIn}
use mini_bpm_engine.Executor.JoinSearch.Soundness.{
  Reaches, first, later, IsJoinFor, find_downstream_join_sound,
}
use mini_bpm_engine.Tests.Data.{json, order, order_nodes, order_flows, x_is_1, token_at}

abbrev draw : ℕ → ℕ
draw n = 100 + n

abbrev default_b : Option String
default_b = some "b"

validate_iff_example :
    (validate order_nodes order_flows ≡ ok tt) ↔ IsWellFormed order_nodes order_flows
validate_iff_example = validate_iff order_nodes order_flows

execute_parallel_gateway-Sends_example :
    Sends x_is_1
      (targets (next_nodes order "fork"))
      (execute_parallel_gateway draw order "fork" (token_at 9 "fork"))
unfolding incoming_flow_count incoming
execute_parallel_gateway-Sends_example =
    execute_parallel_gateway-Sends draw order "fork" (token_at 9 "fork") refl

execute_inclusive_gateway-Sends_example :
    let out = next_nodes order "fork" in
    let r = execute_inclusive_gateway json draw order "fork" (token_at 9 "fork") in
    ((r ≡ err (no_matching_condition "fork")) × NonePass (is_open json x_is_1) out)
    ⊎ ((ts : List String) × Sends x_is_1 ts r × IsSelection (is_open json x_is_1) out ts)
unfolding incoming_flow_count incoming
execute_inclusive_gateway-Sends_example =
    execute_inclusive_gateway-Sends json draw order "fork" (token_at 9 "fork") refl

execute_exclusive_gateway_first_example :
    let t = token_at 9 "choice" in
    let r = execute_exclusive_gateway json order "choice" t (some "end") in
    FindsFirst
      (is_satisfied json x_is_1)
      (next_nodes order "choice")
      (λ sf. r ≡ ok (continue (move_to t sf.target), move_to t sf.target))
      (r ≡ by_default "choice" (some "end") t)
execute_exclusive_gateway_first_example =
    execute_exclusive_gateway_first json order "choice" (token_at 9 "choice") (some "end")

execute_complex_gateway-Sends_example :
    let out = next_nodes order "pick" in
    let taken = is_taken json x_is_1 default_b in
    let r = execute_complex_gateway json draw order "pick" (token_at 9 "pick") default_b in
    (NonePass taken out × (default_b ≡ none) × (r ≡ err (no_matching_condition "pick")))
    ⊎ (NonePass taken out × ((d : String) × (default_b ≡ some d) × Sends x_is_1 (d ∷ []) r))
    ⊎ ((ts : List String) × Sends x_is_1 ts r × IsSelection taken out ts)
unfolding incoming_flow_count incoming
execute_complex_gateway-Sends_example =
    execute_complex_gateway-Sends json order "pick" (token_at 9 "pick") default_b draw refl

fork_has_join : find_downstream_join order "fork" ≡ some "join"
unfolding find_downstream_join get next_nodes visit is_join_gateway incoming_flow_count incoming
    same_gateway_type is_split_gateway
fork_has_join = refl

find_downstream_join_sound_example :
    (split : BpmnElement) × (get (nodes order) "fork" ≡ some split)
    × Reaches order "fork" "join"
    × IsJoinFor order split "join"
find_downstream_join_sound_example = find_downstream_join_sound order "fork" "join" fork_has_join

order_is_valid : validate order_nodes order_flows ≡ ok tt
unfolding validate get incoming
order_is_valid = refl

order-IsWellFormed : IsWellFormed order_nodes order_flows
order-IsWellFormed = (validate_iff order_nodes order_flows).0 order_is_valid

fork_reaches_join : Reaches order "fork" "join"
unfolding get next_nodes
fork_reaches_join = later {node = "a"} (first (Memᴰ.head refl)) (Memᴰ.head refl)

-- Behind the split, no gateway splits again.
abbrev behind_fork : List String
behind_fork = "a" ∷ "b" ∷ "join" ∷ "end" ∷ []

flows_stay : All (λ n. All (λ sf. Memᴰ sf.target behind_fork) (next_nodes order n)) behind_fork
unfolding get next_nodes
flows_stay = (
  (Memᴰ.tail (Memᴰ.tail (Memᴰ.head refl)), tt),
  (
    (Memᴰ.tail (Memᴰ.tail (Memᴰ.head refl)), tt),
    ((Memᴰ.tail (Memᴰ.tail (Memᴰ.tail (Memᴰ.head refl))), tt), (tt, tt)),
  ),
)

fork_flows : All (λ sf. Memᴰ sf.target behind_fork) (next_nodes order "fork")
unfolding get next_nodes
fork_flows = (Memᴰ.head refl, (Memᴰ.tail (Memᴰ.head refl), tt))

none_splits : All (λ n. is_split_gateway order n ≡ false) behind_fork
unfolding get next_nodes is_split_gateway
none_splits = (refl, (refl, (refl, (refl, tt))))

reached_behind : (n : String) → Reaches order "fork" n → Memᴰ n behind_fork
reached_behind _ (first {sf = sf} m) =
    mem_of_All (λ sf. Memᴰ sf.target behind_fork) (next_nodes order "fork") sf fork_flows m
reached_behind _ (later {node = node} {sf = sf} reach m) =
    mem_of_All (λ sf. Memᴰ sf.target behind_fork) (next_nodes order node) sf
      (mem_of_All (λ n. All (λ sf. Memᴰ sf.target behind_fork) (next_nodes order n)) behind_fork
        node flows_stay (reached_behind node reach))
      m

no_second_split : (n : String) → Reaches order "fork" n → IsSplitLike order inclusive_gateway n → ⊥
no_second_split n reach again = false≢true (
    sym (
      mem_of_All (λ n. is_split_gateway order n ≡ false) behind_fork n none_splits
        (reached_behind n reach))
    ∙ again.splits)

join_joins : IsJoinFor order inclusive_gateway "join"
unfolding get is_join_gateway incoming_flow_count incoming same_gateway_type
join_joins = record { element = inclusive_gateway; stands = refl; joins = refl; same_type = refl }

find_downstream_join_finds_example :
    (k : String) × (find_downstream_join order "fork" ≡ some k)
    × Reaches order "fork" k
    × IsJoinFor order inclusive_gateway k
unfolding get
find_downstream_join_finds_example =
    find_downstream_join_finds order "fork" "join" inclusive_gateway refl no_second_split
      fork_reaches_join join_joins

gateways-StaysIn_example :
    StaysIn order (execute_parallel_gateway draw order "fork" (token_at 9 "fork"))
    × ((execute_inclusive_gateway json draw order "fork" (token_at 9 "fork")
          ≡ err (no_matching_condition "fork"))
        ⊎ StaysIn order (execute_inclusive_gateway json draw order "fork" (token_at 9 "fork")))
unfolding incoming_flow_count incoming
gateways-StaysIn_example =
    gateways-StaysIn json draw order "fork" (token_at 9 "fork") order-IsWellFormed refl
