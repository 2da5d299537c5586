-- ===== src/Prelude/Int.antt =====
-- `i32` and `i64` values: signed integers over the native numbers.
use mini_bpm_engine.Prelude.Tests.{leb, if◌then◌else◌}
use Prim.Native.Nat.{ℕ, suc, ◌+◌, ◌-◌, ◌*◌, ◌^◌}
use Prim.Native.String.{String, ◌++◌}
use mathlib.Core.Bool.{Bool, true, false}
use mini_bpm_engine.Prelude.Text.{decimal}

-- `negsuc n` is -(n + 1).
pub data ℤ : Type 0 where
  pos : ℕ → ℤ
  negsuc : ℕ → ℤ

-- `x <= 0`.
abbrev pub is_nonpositive : ℤ → Bool
is_nonpositive (pos n) = leb n 0
is_nonpositive (negsuc n) = true

-- `x - 1` on `i32`; the least value wraps around to the greatest.
abbrev pub pred_i32 : ℤ → ℤ
pred_i32 (pos n) = if leb n 0 then negsuc 0 else pos (n - 1)
pred_i32 (negsuc n) = if leb (2 ^ 31 - 1) n then pos (2 ^ 31 - 1) else negsuc (suc n)

-- `x + 1` on `i32`; the greatest value wraps around to the least.
abbrev pub succ_i32 : ℤ → ℤ
succ_i32 (pos n) = if leb (2 ^ 31 - 1) n then negsuc (2 ^ 31 - 1) else pos (suc n)
succ_i32 (negsuc n) = if leb n 0 then pos 0 else negsuc (n - 1)

-- A time in nanoseconds, moved by a signed number of seconds.
abbrev pub add_seconds : ℕ → ℤ → ℕ
add_seconds now (pos n) = now + n * 1000000000
add_seconds now (negsuc n) = now - suc n * 1000000000

-- `Display` of a signed number.
unfoldable pub show : ℤ → String
show (pos n) = decimal n
show (negsuc n) = "-" ++ decimal (suc n)

abbrev pub leb_int : ℤ → ℤ → Bool
leb_int (pos m) (pos n) = leb m n
leb_int (pos m) (negsuc n) = false
leb_int (negsuc m) (pos n) = true
leb_int (negsuc m) (negsuc n) = leb n m

abbrev pub max_int : ℤ → ℤ → ℤ
max_int x y = if leb_int x y then y else x
