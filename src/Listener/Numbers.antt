-- ===== src/Listener/Numbers.antt =====
-- `str::parse` of the numbers that src/listener.rs reads, on the characters of a text.
use pulsar_verifier.Prelude.{
  if◌then◌else◌, [], none, some, ◌∷◌, ◌+◌, ◌-◌, ◌*◌, ◌&&◌, ℕ, List, Option, leb, ltb, nat_beq, suc,
  zero,
}
use pulsar_verifier.Prelude.Int.{ℤ, pos, negsuc}

unfoldable digit_value : ℕ → Option ℕ
digit_value c = if leb 48 c && leb c 57 then some (c - 48) else none

-- The digits after `value`, below `limit`.
unfoldable parse_digits : ℕ → ℕ → List ℕ → Option ℕ
unfolding digit_value
parse_digits limit value [] = some value
parse_digits limit value (c ∷ text) = elim (digit_value c) [
  | none ↦ none
  | some digit ↦
      let rest = parse_digits limit (value * 10 + digit) text in
      if ltb (value * 10 + digit) limit then rest else none
]

unfoldable parse_some_digits : ℕ → List ℕ → Option ℕ
unfolding parse_digits
parse_some_digits limit [] = none
parse_some_digits limit (c ∷ text) = parse_digits limit 0 (c ∷ text)

-- An unsigned type whose values are below `limit`.
unfoldable pub parse_unsigned : ℕ → List ℕ → Option ℕ
unfolding parse_some_digits
parse_unsigned limit [] = none
parse_unsigned limit (c ∷ text) =
    if nat_beq c 43 then parse_some_digits limit text else parse_some_digits limit (c ∷ text)

unfoldable negative : ℕ → ℤ
negative zero = pos zero
negative (suc n) = negsuc n

-- `i32`.
unfoldable pub parse_signed : List ℕ → Option ℤ
unfolding parse_unsigned negative
parse_signed [] = none
parse_signed (c ∷ text) =
    if nat_beq c 45
    then elim (parse_some_digits 2147483649 text) [ none ↦ none | some n ↦ some (negative n) ]
    else elim (parse_unsigned 2147483648 (c ∷ text)) [ none ↦ none | some n ↦ some (pos n) ]
