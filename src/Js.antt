-- ===== src/Js.antt =====
-- What the program uses of the strings of JavaScript: white space, `trim`, `split`, decimal digits.
-- A string is a list of UTF-16 code units.
pub mod Decimal
pub mod Trim
use local_cast.Base.{
  ℕ, zero, suc, ◌+◌, ◌-◌, ◌*◌, ◌/◌, ◌%◌, Bool, true, false, ◌&&◌, ◌||◌, List, [], ◌∷◌, ◌++◌, Text,
  leb, ltb, ◌==◌, if◌then◌else◌,
}
use mathlib.Core.List.{reverse}

-- `\s`, which is also what `trim` strips.
unfoldable pub is_space : ℕ → Bool
is_space c =
    leb 9 c && leb c 13
    || c == 32
    || c == 160
    || c == 5760
    || leb 8192 c && leb c 8202
    || c == 8232
    || c == 8233
    || c == 8239
    || c == 8287
    || c == 12288
    || c == 65279

unfoldable pub skip_spaces : Text → Text
unfolding is_space
skip_spaces [] = []
skip_spaces (c ∷ s) = if is_space c then skip_spaces s else c ∷ s

-- `s.trim()`
unfoldable pub trim : Text → Text
unfolding skip_spaces
trim s = reverse (skip_spaces (reverse (skip_spaces s)))

abbrev pub add_head : ℕ → List Text → List Text
add_head c [] = (c ∷ []) ∷ []
add_head c (w ∷ ws) = (c ∷ w) ∷ ws

-- `s.split(d)` at one code unit
unfoldable pub split : ℕ → Text → List Text
split d [] = [] ∷ []
split d (c ∷ s) = let rest = split d s in if c == d then [] ∷ rest else add_head c rest

unfoldable pub is_digit : ℕ → Bool
is_digit c = leb b'0' c && leb c b'9'

-- `\d*` at the front, and what follows it
unfoldable pub span_digits : Text → Text × Text
unfolding is_digit
span_digits [] = ([], [])
span_digits (c ∷ s) =
    let (ds, rest) = span_digits s in if is_digit c then (c ∷ ds, rest) else ([], c ∷ s)

-- The digits of `s` behind the number `acc`.
unfoldable pub number_from : ℕ → Text → ℕ
number_from acc [] = acc
number_from acc (c ∷ s) = number_from (acc * 10 + (c - b'0')) s

-- The value of a run of decimal digits, not rounded.
abbrev pub number : Text → ℕ
number = number_from 0

emit : ℕ → ℕ → Text → Text
emit zero n out = out
emit (suc fuel) n out =
    let rest = emit fuel (n / 10) ((b'0' + n % 10) ∷ out) in
    if ltb n 10 then (b'0' + n) ∷ out else rest

-- `String(n)` of a natural number; each round drops a digit, so `n + 1` rounds are enough.
unfoldable pub decimal : ℕ → Text
unfolding emit
decimal n = emit (suc n) n []

-- The largest safe integer of a double. `Number(ds)` is rounded above it, but never down to it, so
-- `Number.isSafeInteger(Number(ds))` is this test of the exact value.
abbrev pub is_safe_integer : ℕ → Bool
is_safe_integer n = leb n 9_007_199_254_740_991
