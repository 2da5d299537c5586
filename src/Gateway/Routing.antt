-- ===== src/Gateway/Routing.antt =====
-- Where the tokens that leave a gateway go, read off the flows of the definition.
use mini_bpm_engine.Prelude.{
  ℕ, suc, String, ◌≡◌, ◌⊎◌, inl, inr, refl, ap, Bool, true, false, List, [], ◌∷◌, map, filter, All,
  Bool-cases, arith, string_eq,
}
use mini_bpm_engine.Domain.Json.{Json, Variables}
use mini_bpm_engine.Domain.Token.{Token, with_variables}
use mini_bpm_engine.Domain.Element.{SequenceFlow}
use mini_bpm_engine.Domain.Error.{ok, err, no_matching_condition}
use mini_bpm_engine.Domain.Definition.{ProcessDefinition, next_nodes}
use mini_bpm_engine.Runtime.Action.{NextAction, continue, continue_multiple}
use mini_bpm_engine.Gateway.{
  targets, fork, must_join, unmerged, Outcome, parallel_split, execute_parallel_gateway, split_to,
  is_open, execute_inclusive_gateway,
}

-- The tokens that an action sends on.
abbrev pub tokens_of : NextAction → List Token
tokens_of (continue t) = t ∷ []
tokens_of (continue_multiple ts) = ts
tokens_of _ = []

-- Every token carries these variables and may be caught by the next join.
abbrev pub AreCopies : Variables → List Token → Type 0
AreCopies variables = All λ t. (t.variables ≡ variables) × (t.is_merged ≡ false)

abbrev pub places : List Token → List String
places = map λ t. t.current_node

-- The outcome sends tokens to exactly these places, in order, each with a copy of the variables.
abbrev pub Sends : Variables → List String → Outcome → Type 0
Sends variables ts r =
    (a : NextAction) × (t : Token) × (r ≡ ok (a, t))
    × (places (tokens_of a) ≡ ts)
    × AreCopies variables (tokens_of a)

fork-places :
    (uuids : ℕ → ℕ) (vars : Variables) (ts : List String) → places (fork uuids vars ts) ≡ ts
unfolding fork with_variables
fork-places uuids vars [] = refl
fork-places uuids vars (t ∷ ts) = ap (λ r. t ∷ r) (fork-places (λ n. uuids (suc n)) vars ts)

fork-AreCopies :
    (uuids : ℕ → ℕ) (vars : Variables) (ts : List String) → AreCopies vars (fork uuids vars ts)
unfolding fork with_variables
fork-AreCopies uuids vars [] = tt
fork-AreCopies uuids vars (t ∷ ts) = ((refl, refl), fork-AreCopies (λ n. uuids (suc n)) vars ts)

Sends-fork :
    (uuids : ℕ → ℕ) (ts : List String) (t : Token)
    → Sends t.variables ts (ok (continue_multiple (fork uuids t.variables ts), t))
Sends-fork uuids ts t =
    (_, t, refl, fork-places uuids t.variables ts, fork-AreCopies uuids t.variables ts)

parallel_split-Sends :
    (uuids : ℕ → ℕ) (out : List SequenceFlow) (t : Token)
    → Sends t.variables (targets out) (parallel_split uuids out (unmerged t))
unfolding parallel_split
parallel_split-Sends uuids [] t = Sends-fork uuids [] (unmerged t)
parallel_split-Sends uuids (sf ∷ []) t = (_, _, refl, refl, ((refl, refl), tt))
parallel_split-Sends uuids (sf ∷ sg ∷ rest) t =
    Sends-fork uuids (targets (sf ∷ sg ∷ rest)) (unmerged t)

-- A parallel gateway that does not join sends one token along every outgoing flow, in order, each with
-- a copy of the arriving token's variables.
pub execute_parallel_gateway-Sends :
    (uuids : ℕ → ℕ) (def : ProcessDefinition) (current_id : String) (token : Token)
    → must_join def current_id token ≡ false
    → Sends token.variables
        (targets (next_nodes def current_id))
        (execute_parallel_gateway uuids def current_id token)
unfolding execute_parallel_gateway
execute_parallel_gateway-Sends uuids def current_id token h =
    rw h (parallel_split-Sends uuids (next_nodes def current_id) token)

pub split_to-cases :
    (uuids : ℕ → ℕ) (c : String) (ts : List String) (t : Token)
    → ((ts ≡ []) × (split_to uuids c ts (unmerged t) ≡ err (no_matching_condition c)))
      ⊎ Sends t.variables ts (split_to uuids c ts (unmerged t))
unfolding split_to
split_to-cases uuids c [] t = inl (refl, refl)
split_to-cases uuids c (b ∷ []) t = inr (_, _, refl, refl, ((refl, refl), tt))
split_to-cases uuids c (b ∷ b' ∷ rest) t = inr (Sends-fork uuids (b ∷ b' ∷ rest) (unmerged t))

-- No flow passes the test.
abbrev pub NonePass : (SequenceFlow → Bool) → List SequenceFlow → Type 0
NonePass p = All λ sf. p sf ≡ false

-- The targets of exactly the flows that pass the test, in order, each once.
pub data IsSelection (p : SequenceFlow → Bool) : List SequenceFlow → List String → Type 0 where
  done : IsSelection p [] []
  take :
      {sf : SequenceFlow} {out : List SequenceFlow} {ts : List String}
      → p sf ≡ true
      → IsSelection p out ts
      → IsSelection p (sf ∷ out) (sf.target ∷ ts)
  pass :
      {sf : SequenceFlow} {out : List SequenceFlow} {ts : List String}
      → p sf ≡ false
      → IsSelection p out ts
      → IsSelection p (sf ∷ out) ts

pub filter-IsSelection :
    (p : SequenceFlow → Bool) (out : List SequenceFlow) → IsSelection p out (targets (filter p out))
filter-IsSelection p [] = done
filter-IsSelection p (sf ∷ out) = elim (Bool-cases (p sf)) [
  | inl e ↦ rw e (take e (filter-IsSelection p out))
  | inr e ↦ rw e (pass e (filter-IsSelection p out))
]

pub none_pass :
    (p : SequenceFlow → Bool) (out : List SequenceFlow)
    → targets (filter p out) ≡ []
    → NonePass p out
none_pass p [] h = tt
none_pass p (sf ∷ out) h = elim (Bool-cases (p sf)) [
  | inl e ↦ absurd (ground arith)
  | inr e ↦ (e, none_pass p out (ground arith))
]

module _ (J : Json) where
  -- An inclusive gateway that does not join sends one token to the target of each flow that is
  -- unconditional or whose condition holds, in order, and no other token; with no such flow it fails.
  pub execute_inclusive_gateway-Sends :
      (uuids : ℕ → ℕ) (def : ProcessDefinition) (current_id : String) (token : Token)
      → must_join def current_id token ≡ false
      → let out = next_nodes def current_id in
        let r = execute_inclusive_gateway J uuids def current_id token in
        ((r ≡ err (no_matching_condition current_id)) × NonePass (is_open J token.variables) out)
        ⊎ ((ts : List String) × Sends token.variables ts r
            × IsSelection (is_open J token.variables) out ts)
  unfolding execute_inclusive_gateway
  execute_inclusive_gateway-Sends uuids def current_id token h =
      rw h (elim (split_to-cases uuids current_id (targets (filter p out)) token) [
        | inl (e, r) ↦ inl (r, none_pass p out e)
        | inr s ↦ inr (targets (filter p out), s, filter-IsSelection p out)
      ])
    where
      out : List SequenceFlow
      out = next_nodes def current_id

      p : SequenceFlow → Bool
      p = is_open J token.variables
