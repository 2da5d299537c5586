-- ===== src/Domain/Json.antt =====
-- `serde_json::Value`, the type of process variables, and what the code uses of that crate.
use Prim.Native.Nat.{Ordering}
use mini_bpm_engine.Prelude.{ℕ, String, Bool, Option, Map}

-- A number is a code for serde_json's `Number`; the interface below reads it.
mutual
  pub data Value : Type 0 where
    null : Value
    bool : Bool → Value
    number : ℕ → Value
    string : String → Value
    array : Items → Value
    object : Fields → Value

  pub data Items : Type 0 where
    nil : Items
    cons : Value → Items → Items

  pub data Fields : Type 0 where
    end : Fields
    field : String → Value → Fields → Fields

-- serde_json and Rust's `f64`. `as_f64` answers a code for a double.
pub record Json : Type 0 where
  -- `a == b` on values that are not both numbers.
  pub value_eq : Value → Value → Bool
  pub as_f64 : ℕ → Option ℕ
  -- `f != 0.0`.
  pub f64_nonzero : ℕ → Bool
  -- `(x - y).abs() < f64::EPSILON`.
  pub f64_close : ℕ → ℕ → Bool
  pub f64_partial_cmp : ℕ → ℕ → Option Ordering
  -- `s.parse::<i64>()`, then `s.parse::<f64>()` with `Number::from_f64`.
  pub parse_i64 : String → Option ℕ
  pub parse_f64 : String → Option ℕ

abbrev pub Variables : Type 0
Variables = Map String Value
