-- ===== src/Gateway/Choice.antt =====
-- The gateways with a default flow: the exclusive and the complex one.
use mini_bpm_engine.Prelude.{
  ℕ, String, ◌≡◌, ◌⊎◌, inl, inr, refl, ap, ◌∙◌, Bool, true, false, Option, none, some, List, [],
  ◌∷◌, ◌++◌, filter, find, Bool-cases,
}
use mini_bpm_engine.Condition.{or_else}
use mini_bpm_engine.Domain.Json.{Json}
use mini_bpm_engine.Domain.Token.{Token}
use mini_bpm_engine.Domain.Element.{SequenceFlow}
use mini_bpm_engine.Domain.Error.{ok, err, no_matching_condition}
use mini_bpm_engine.Domain.Definition.{ProcessDefinition, next_nodes}
use mini_bpm_engine.Runtime.Action.{continue}
use mini_bpm_engine.Gateway.{
  targets, must_join, move_to, unmerged, Outcome, split_to, is_satisfied, is_taken, take_path,
  execute_exclusive_gateway, or_default, execute_complex_gateway,
}
use mini_bpm_engine.Gateway.Routing.{
  Sends, NonePass, IsSelection, filter-IsSelection, split_to-cases, none_pass,
}

-- The first flow that passes the test, with what stands before and behind it; or none passes.
abbrev pub FindsFirst :
    (SequenceFlow → Bool) → List SequenceFlow → (SequenceFlow → Type 0) → Type 0 → Type 0
FindsFirst p out Hit Miss =
    ((before : List SequenceFlow) × (sf : SequenceFlow) × (after : List SequenceFlow) × (out
        ≡ before ++ sf ∷ after)
      × NonePass p before
      × (p sf ≡ true)
      × Hit sf)
    ⊎ (NonePass p out × Miss)

find-cases :
    (p : SequenceFlow → Bool) (out : List SequenceFlow)
    → FindsFirst p out (λ sf. find p out ≡ some sf) (find p out ≡ none)
find-cases p [] = inr (tt, refl)
find-cases p (g ∷ out) = elim (Bool-cases (p g)) [
  | inl e ↦ inl ([], g, out, refl, tt, e, rw e)
  | inr e ↦ later e (rw e refl) (find-cases p out)
]
  where
    later :
        p g ≡ false
        → find p (g ∷ out) ≡ find p out
        → FindsFirst p out (λ sf. find p out ≡ some sf) (find p out ≡ none)
        → FindsFirst p (g ∷ out) (λ sf. find p (g ∷ out) ≡ some sf) (find p (g ∷ out) ≡ none)
    later e q (inl (before, sf, after, split, h, t, f)) =
        inl (g ∷ before, sf, after, ap (λ r. g ∷ r) split, (e, h), t, q ∙ f)
    later e q (inr (h, f)) = inr ((e, h), q ∙ f)

-- What an exclusive gateway does when no condition holds.
abbrev pub by_default : String → Option String → Token → Outcome
by_default current_id none token = err (no_matching_condition current_id)
by_default current_id (some d) token = ok (continue (move_to token d), move_to token d)

complex_cases :
    (uuids : ℕ → ℕ) (c : String) (o : Option String) (ts : List String) (t : Token)
    → let r = split_to uuids c (or_default o ts) (unmerged t) in
      ((ts ≡ []) × (o ≡ none) × (r ≡ err (no_matching_condition c)))
      ⊎ ((ts ≡ []) × ((d : String) × (o ≡ some d) × Sends t.variables (d ∷ []) r))
      ⊎ Sends t.variables ts r
unfolding or_default split_to
complex_cases uuids c none [] t = inl (refl, refl, refl)
complex_cases uuids c (some d) [] t =
    inr (inl (refl, (d, refl, (_, _, refl, refl, ((refl, refl), tt)))))
complex_cases uuids c none (b ∷ ts) t = elim (split_to-cases uuids c (b ∷ ts) t) [
  | inl (e, r) ↦ cc
  | inr s ↦ inr (inr s)
]
complex_cases uuids c (some d) (b ∷ ts) t = elim (split_to-cases uuids c (b ∷ ts) t) [
  | inl (e, r) ↦ cc
  | inr s ↦ inr (inr s)
]

module _ (J : Json) (def : ProcessDefinition) (current_id : String) (token : Token)
    (default : Option String) where
  -- An exclusive gateway moves the token itself, unchanged but for its node, to the target of the first
  -- flow whose condition holds, whatever stands behind it; if none holds, to the default target, and
  -- without one it fails.
  pub execute_exclusive_gateway_first :
      let r = execute_exclusive_gateway J def current_id token default in
      FindsFirst
        (is_satisfied J token.variables)
        (next_nodes def current_id)
        (λ sf. r ≡ ok (continue (move_to token sf.target), move_to token sf.target))
        (r ≡ by_default current_id default token)
  unfolding execute_exclusive_gateway
  execute_exclusive_gateway_first =
      elim (find-cases (is_satisfied J token.variables) (next_nodes def current_id)) [
        | inl (before, sf, after, split, h, t, f) ↦ inl (before, sf, after, split, h, t, rw f refl)
        | inr (h, f) ↦ inr (h, rw f (rest default))
      ]
    where
      rest :
          (o : Option String)
          → take_path current_id (or_else none o) token ≡ by_default current_id o token
      rest none = refl
      rest (some d) = refl

  -- A complex gateway that does not join sends one token to the target of each flow that its split
  -- takes; with no such flow one token to the default target, and without a default it fails.
  pub execute_complex_gateway-Sends :
      (uuids : ℕ → ℕ)
      → must_join def current_id token ≡ false
      → let out = next_nodes def current_id in
        let taken = is_taken J token.variables default in
        let r = execute_complex_gateway J uuids def current_id token default in
        (NonePass taken out × (default ≡ none) × (r ≡ err (no_matching_condition current_id)))
        ⊎ (NonePass taken out
            × ((d : String) × (default ≡ some d) × Sends token.variables (d ∷ []) r))
        ⊎ ((ts : List String) × Sends token.variables ts r × IsSelection taken out ts)
  unfolding execute_complex_gateway
  execute_complex_gateway-Sends uuids h =
      rw h (elim (complex_cases uuids current_id default (targets (filter p out)) token) [
        | inl (e, n, r) ↦ inl (none_pass p out e, n, r)
        | inr (inl (e, d)) ↦ inr (inl (none_pass p out e, d))
        | inr (inr s) ↦ inr (inr (targets (filter p out), s, filter-IsSelection p out))
      ])
    where
      out : List SequenceFlow
      out = next_nodes def current_id

      p : SequenceFlow → Bool
      p = is_taken J token.variables default
