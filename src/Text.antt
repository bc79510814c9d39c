-- ===== src/Text.antt =====
-- Texts as bytes, and numbers in them: std's `format!` and `from_str_radix`, which src/config.rs,
-- src/conn.rs and src/quiche/runtime.rs call.
pub mod Digits
use ext_quiche.Base.{
  ℕ, zero, suc, ◌+◌, ◌-◌, ◌*◌, ◌/◌, ◌%◌, Option, none, some, List, [], ◌∷◌, ltb, leb, ◌==◌, ◌&&◌,
  if◌then◌else◌,
}

abbrev pub Text : Type 0
Text = List ℕ

unfoldable pub digit : ℕ → ℕ
digit d = if ltb d 10 then 48 + d else 87 + d

-- The digits of a number to a base, the last one first; the fuel bounds their number.
unfoldable pub push_digits : ℕ → ℕ → ℕ → Text → Text
push_digits radix zero n acc = acc
push_digits radix (suc f) n acc =
    let rest = push_digits radix f (n / radix) (digit (n % radix) ∷ acc) in
    if ltb n radix then digit n ∷ acc else rest

-- `char::to_digit`, for bases up to 16
unfoldable pub to_digit : ℕ → Option ℕ
to_digit c =
    if leb 48 c && leb c 57
    then some (c - 48)
    else if leb 97 c && leb c 102
    then some (c - 87)
    else if leb 65 c && leb c 70
    then some (c - 55)
    else none

-- A digit that the base does not have is an error, and so is an overflow.
unfoldable pub parse_digits : ℕ → ℕ → ℕ → Text → Option ℕ
parse_digits radix bound n [] = some n
parse_digits radix bound n (c ∷ cs) = elim (to_digit c) [
  | none ↦ none
  | some d ↦
      let rest = parse_digits radix bound (n * radix + d) cs in
      if ltb d radix && ltb (n * radix + d) bound then rest else none
]

-- `from_str_radix` of an unsigned type whose values are below the bound: a plus sign may stand
-- before the digits.
unfoldable pub from_str_radix : ℕ → ℕ → Text → Option ℕ
unfolding parse_digits to_digit
from_str_radix radix bound [] = none
from_str_radix radix bound (c ∷ []) = if c == 43 then none else parse_digits radix bound 0 (c ∷ [])
from_str_radix radix bound (c ∷ d ∷ cs) =
    if c == 43 then parse_digits radix bound 0 (d ∷ cs) else parse_digits radix bound 0 (c ∷ d ∷ cs)

-- `format!("{:x}", n)` of a u128, and `format!("{}", n)` of a number of at most 64 bits.
unfoldable pub format_hex : ℕ → Text
unfolding push_digits digit
format_hex n = push_digits 16 32 n []

unfoldable pub format : ℕ → Text
unfolding push_digits digit
format n = push_digits 10 20 n []
