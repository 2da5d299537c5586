-- ===== src/Domain/Token.antt =====
-- engine-core/src/domain/token.rs: the token that walks through a process.
use mini_bpm_engine.Prelude.{ℕ, String, Bool, false, []}
use mini_bpm_engine.Domain.Json.{Variables}

pub record Token : Type 0 where
  pub id : ℕ
  pub current_node : String
  pub variables : Variables
  pub is_merged : Bool

-- `Uuid::new_v4()` is the first argument.
unfoldable pub new : ℕ → String → Token
new uuid start_node = record {
  id = uuid;
  current_node = start_node;
  variables = [];
  is_merged = false;
}

unfoldable pub with_variables : ℕ → String → Variables → Token
with_variables uuid start_node variables = record {
  id = uuid;
  current_node = start_node;
  variables = variables;
  is_merged = false;
}
