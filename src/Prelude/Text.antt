-- ===== src/Prelude/Text.antt =====
-- Rust's `str` operations that the program uses, over the characters of a text.
use Prim.Native.Nat.{ℕ, zero, suc, ◌/◌, ◌%◌}
use Prim.Native.Char.{Char, code}
use Prim.Native.String.{String, [], ◌∷◌, ◌++◌}
use mathlib.Core.Bool.{Bool, true, false, ◌&&◌, ◌||◌}
use mathlib.Core.Option.{Option, none, some}
use mathlib.Core.List.{List, [] as nil, ◌∷◌ as cons}
use mini_bpm_engine.Prelude.Tests.{ltb, leb, nat_beq, if◌then◌else◌}

infix 50 ◌==◌
abbrev pub ◌==◌ : Char → Char → Bool
c == d = nat_beq (code c) (code d)

-- `char::is_whitespace`: the characters with the Unicode property White_Space.
unfoldable pub is_whitespace : Char → Bool
is_whitespace c =
    (leb 0x9 (code c) && leb (code c) 0xd)
    || nat_beq (code c) 0x20
    || nat_beq (code c) 0x85
    || nat_beq (code c) 0xa0
    || nat_beq (code c) 0x1680
    || (leb 0x2000 (code c) && leb (code c) 0x200a)
    || nat_beq (code c) 0x2028
    || nat_beq (code c) 0x2029
    || nat_beq (code c) 0x202f
    || nat_beq (code c) 0x205f
    || nat_beq (code c) 0x3000

abbrev pub is_empty : String → Bool
is_empty [] = true
is_empty (c ∷ s) = false

unfoldable pub trim_start : String → String
trim_start [] = []
trim_start (c ∷ s) = let rest = trim_start s in if is_whitespace c then rest else c ∷ s

unfoldable pub trim_end : String → String
trim_end [] = []
trim_end (c ∷ s) =
    let rest = trim_end s in if is_empty rest && is_whitespace c then [] else c ∷ rest

unfoldable pub trim : String → String
unfolding trim_start trim_end
trim s = trim_end (trim_start s)

unfoldable pub strip_prefix : String → String → Option String
strip_prefix [] s = some s
strip_prefix (c ∷ p) [] = none
strip_prefix (c ∷ p) (d ∷ s) = let rest = strip_prefix p s in if c == d then rest else none

abbrev pub before : Char → Option (String × String) → Option (String × String)
before c none = none
before c (some (a, b)) = some (c ∷ a, b)

-- `s.find(p)` with the slices before and after the first match.
unfoldable pub split_once : String → String → Option (String × String)
unfolding strip_prefix
split_once p [] = elim (strip_prefix p []) [ none ↦ none | some rest ↦ some ([], rest) ]
split_once p (c ∷ s) = elim (strip_prefix p (c ∷ s)) [
  | none ↦ before c (split_once p s)
  | some rest ↦ some ([], rest)
]

-- `s.starts_with(c)` and `s.ends_with(c)` for a character.
abbrev pub starts_with : String → Char → Bool
starts_with [] c = false
starts_with (d ∷ s) c = d == c

unfoldable pub ends_with : String → Char → Bool
ends_with [] c = false
ends_with (d ∷ s) c = let rest = ends_with s c in if is_empty s then d == c else rest

-- Without the last character.
unfoldable pub drop_last : String → String
drop_last [] = []
drop_last (c ∷ s) = let rest = drop_last s in if is_empty s then [] else c ∷ rest

-- Between the first character and the last.
unfoldable pub between : String → String
unfolding drop_last
between [] = []
between (c ∷ s) = drop_last s

digit : ℕ → String
digit n =
    if nat_beq n 0
    then "0"
    else if nat_beq n 1
    then "1"
    else if nat_beq n 2
    then "2"
    else if nat_beq n 3
    then "3"
    else if nat_beq n 4
    then "4"
    else if nat_beq n 5
    then "5"
    else if nat_beq n 6
    then "6"
    else if nat_beq n 7
    then "7"
    else if nat_beq n 8
    then "8"
    else "9"

-- A number has no more digits than the fuel, which is the number itself and one.
decimal_fuel : ℕ → ℕ → String
unfolding digit
decimal_fuel zero n = []
decimal_fuel (suc fuel) n =
    let front = decimal_fuel fuel (n / 10) in if ltb n 10 then digit n else front ++ digit (n % 10)

-- `Display` of an unsigned number.
unfoldable pub decimal : ℕ → String
unfolding decimal_fuel
decimal n = decimal_fuel (suc n) n

-- `format!` of the pieces of a text.
abbrev pub format : List String → String
format nil = ""
format (cons piece rest) = piece ++ format rest
