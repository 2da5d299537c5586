-- ===== src/Condition.antt =====
-- engine-core/src/condition.rs: the conditions on sequence flows.
pub mod Lookups
use Prim.Native.Nat.{Ordering}
use mini_bpm_engine.Prelude.{
  String, Bool, true, false, not, ◌&&◌, ◌||◌, Option, none, some, ℕ, List, [], ◌∷◌, get, ◌==◌,
  if◌then◌else◌, string_eq,
}
use mini_bpm_engine.Prelude.Text.{is_empty, trim, split_once, starts_with, ends_with, between}
use mini_bpm_engine.Domain.Json.{Json, Value, null, bool, number, string, Variables}

pub data Operator : Type 0 where
  eq ne ge le gt lt : Operator

-- Longest first, as the code lists them.
abbrev pub operators : List Operator
operators = eq ∷ ne ∷ ge ∷ le ∷ gt ∷ lt ∷ []

abbrev pub text : Operator → String
text eq = "=="
text ne = "!="
text ge = ">="
text le = "<="
text gt = ">"
text lt = "<"

is_quoted : String → Bool
is_quoted s = (starts_with s "\"" && ends_with s "\"") || (starts_with s "'" && ends_with s "'")

number_or_text : Option ℕ → String → Value
number_or_text none s = string s
number_or_text (some n) s = number n

abbrev pub or_else {ℓ} : {A : Type ℓ} → Option A → Option A → Option A
or_else none b = b
or_else (some a) b = some a

-- A lone quote has no inside; `between` is empty there too.
unfoldable pub parse_rhs : Json → String → Value
unfolding is_quoted number_or_text
parse_rhs J s =
    if is_quoted s
    then string (between s)
    else if s == "true"
    then bool true
    else if s == "false"
    then bool false
    else if s == "null"
    then null
    else number_or_text (or_else (J.parse_i64 s) (J.parse_f64 s)) s

f64_eq : Json → Option ℕ → Option ℕ → Bool
f64_eq J (some x) (some y) = J.f64_close x y
f64_eq J _ _ = false

-- Numbers compare as doubles, everything else as JSON values.
unfoldable pub values_eq : Json → Value → Value → Bool
unfolding f64_eq
values_eq J (number a) (number b) = f64_eq J (J.as_f64 a) (J.as_f64 b)
values_eq J a b = J.value_eq a b

f64_cmp : Json → Option ℕ → Option ℕ → Option Ordering
f64_cmp J (some x) (some y) = J.f64_partial_cmp x y
f64_cmp J _ _ = none

unfoldable pub values_cmp : Json → Value → Value → Option Ordering
unfolding f64_cmp
values_cmp J (number a) (number b) = f64_cmp J (J.as_f64 a) (J.as_f64 b)
values_cmp J _ _ = none

abbrev pub is_greater : Option Ordering → Bool
is_greater (some Ordering.gt) = true
is_greater _ = false

abbrev pub is_less : Option Ordering → Bool
is_less (some Ordering.lt) = true
is_less _ = false

abbrev pub is_not_less : Option Ordering → Bool
is_not_less none = false
is_not_less (some o) = not (is_less (some o))

abbrev pub is_not_greater : Option Ordering → Bool
is_not_greater none = false
is_not_greater (some o) = not (is_greater (some o))

-- The `match op` of the code.
unfoldable pub compare_values : Json → Operator → Value → Value → Bool
compare_values J eq l r = values_eq J l r
compare_values J ne l r = not (values_eq J l r)
compare_values J gt l r = is_greater (values_cmp J l r)
compare_values J lt l r = is_less (values_cmp J l r)
compare_values J ge l r = is_not_less (values_cmp J l r)
compare_values J le l r = is_not_greater (values_cmp J l r)

-- A missing variable makes a comparison false.
abbrev pub compare_variable : Json → Operator → Option Value → Value → Bool
compare_variable J op none r = false
compare_variable J op (some l) r = compare_values J op l r

f64_is_nonzero : Json → Option ℕ → Bool
f64_is_nonzero J none = false
f64_is_nonzero J (some f) = J.f64_nonzero f

unfoldable pub is_truthy : Json → Option Value → Bool
unfolding f64_is_nonzero
is_truthy J (some (bool b)) = b
is_truthy J (some (number n)) = f64_is_nonzero J (J.as_f64 n)
is_truthy J (some (string s)) = not (is_empty s)
is_truthy J (some null) = false
is_truthy J none = false
is_truthy J (some _) = true

-- The loop over the operators: the first one that occurs in the text decides.
unfoldable pub scan : Json → List Operator → String → Variables → Bool
scan J [] expr variables = is_truthy J (get variables expr)
scan J (op ∷ ops) expr variables = elim (split_once (text op) expr) [
  | none ↦ scan J ops expr variables
  | some (l, r) ↦ compare_variable J op (get variables (trim l)) (parse_rhs J (trim r))
]

unfoldable pub evaluate_condition : Json → String → Variables → Bool
unfolding scan
evaluate_condition J expr variables =
    if is_empty (trim expr) then false else scan J operators (trim expr) variables
