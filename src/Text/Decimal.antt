-- ===== src/Text/Decimal.antt =====
-- Rust's `to_string` and `parse` of an `i64`.
pub mod RoundTrip
use aegis_ai_gateway.Prelude.{
  ℕ, zero, suc, ◌+◌, ◌-◌, ◌*◌, ◌/◌, ◌%◌, Bool, ◌&&◌, [], ◌∷◌, ◌++◌, Option, none, some, ltb, leb,
  ◌==◌, if◌then◌else◌,
}
use aegis_ai_gateway.Int.{ℤ, pos, negsuc, neg}
use aegis_ai_gateway.Int.I64.{i64_max}
use aegis_ai_gateway.Text.{Text}

-- The digits of a number, the last one at the end. Fuel `n + 1` is enough for `n`.
digits_fuel : ℕ → ℕ → Text
digits_fuel zero n = []
digits_fuel (suc f) n =
    let front = digits_fuel f (n / 10) in
    if ltb n 10 then (b'0' + n) ∷ [] else front ++ (b'0' + n % 10) ∷ []

unfoldable pub digits : ℕ → Text
unfolding digits_fuel
digits n = digits_fuel (n + 1) n

unfoldable pub to_string : ℤ → Text
unfolding digits
to_string (pos n) = digits n
to_string (negsuc n) = b'-' ∷ digits (n + 1)

scan_digits : ℕ → Text → Option ℕ
scan_digits acc [] = some acc
scan_digits acc (c ∷ s) =
    if leb b'0' c && leb c b'9' then scan_digits (acc * 10 + (c - b'0')) s else none

-- At least one digit, and a value of at most `bound`.
parse_digits : ℕ → Text → Option ℕ
unfolding scan_digits
parse_digits bound [] = none
parse_digits bound (c ∷ s) = elim (scan_digits 0 (c ∷ s)) [
  | none ↦ none
  | some n ↦ if leb n bound then some n else none
]

unfoldable pub parse : Text → Option ℤ
unfolding parse_digits neg
parse [] = none
parse (c ∷ s) =
    if c == b'-'
    then elim (parse_digits (i64_max + 1) s) [ none ↦ none | some n ↦ some (neg (pos n)) ]
    else if c == b'+'
    then elim (parse_digits i64_max s) [ none ↦ none | some n ↦ some (pos n) ]
    else elim (parse_digits i64_max (c ∷ s)) [ none ↦ none | some n ↦ some (pos n) ]
