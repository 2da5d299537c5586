-- ===== src/Condition/Lookups.antt =====
-- Conditions without variables.
use mini_bpm_engine.Prelude.{
  String, ◌≡◌, inl, inr, refl, false, List, [], ◌∷◌, get, Bool-cases, Option-cases, string_eq,
}
use mini_bpm_engine.Prelude.Text.{is_empty, trim, split_once}
use mini_bpm_engine.Domain.Json.{Json}
use mini_bpm_engine.Condition.{Operator, operators, text, is_truthy, scan, evaluate_condition}

scan-nil : (J : Json) (ops : List Operator) (expr : String) → scan J ops expr [] ≡ false
unfolding scan is_truthy get
scan-nil J [] expr = refl
scan-nil J (op ∷ ops) expr = elim (Option-cases (split_once (text op) expr)) [
  | inl n ↦ rw (n, scan) (scan-nil J ops expr)
  | inr ((l, r), s) ↦ rw (s, scan) refl
]

-- Without variables every condition is false, also `!=` and an unequal comparison with `null`.
pub evaluate_condition-nil : (J : Json) (expr : String) → evaluate_condition J expr [] ≡ false
unfolding evaluate_condition
evaluate_condition-nil J expr = elim (Bool-cases (is_empty (trim expr))) [
  | inl e ↦ rw e refl
  | inr e ↦ rw e (scan-nil J operators (trim expr))
]
