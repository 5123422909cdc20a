-- ===== src/Text/Decimal/RoundTrip.antt =====
-- What is printed is read back.
use aegis_ai_gateway.Prelude.{
  ℕ, zero, suc, ◌+◌, ◌-◌, ◌*◌, ◌/◌, ◌%◌, ◌≤◌, ◌<◌, ◌≡◌, refl, arith, Bool-cases, inl, inr, [], ◌∷◌,
  ◌++◌, none, some, ltb, ◌∙◌, ap,
}
use aegis_ai_gateway.Int.{ℤ, pos, negsuc, neg}
use aegis_ai_gateway.Int.I64.{InI64, i64_max}
use aegis_ai_gateway.Text.{Text, codes}
use aegis_ai_gateway.Text.Decimal.{digits, digits_fuel, to_string, scan_digits, parse_digits, parse}

-- One more digit at the end of a text that is read.
scan_digits_snoc :
    (s : Text) (acc n d : ℕ)
    → d < 10
    → scan_digits acc s ≡ some n
    → scan_digits acc (s ++ (b'0' + d) ∷ []) ≡ some (n * 10 + d)
unfolding scan_digits
scan_digits_snoc [] acc n d h e = ground arith
scan_digits_snoc (c ∷ s) acc n d h e =
    ground (arith, scan_digits_snoc s (acc * 10 + (c - b'0')) n d h)

scan-digits_fuel : (f n : ℕ) → n < f → scan_digits 0 (digits_fuel f n) ≡ some n
unfolding digits_fuel
scan-digits_fuel zero n h = elim h [ ]
scan-digits_fuel (suc f) n h = elim (Bool-cases (ltb n 10)) [
  | inl e ↦ rw e (unfold scan_digits in ground arith)
  | inr e ↦ rw e (
      scan_digits_snoc (digits_fuel f (n / 10)) 0 (n / 10) (n % 10) (omega arith)
        (scan-digits_fuel f (n / 10) (ground arith))
      ∙ ap some (omega arith))
]

abbrev BeginsWithDigit : Text → Type 0
BeginsWithDigit t = (c : ℕ) × (s : Text) × (t ≡ c ∷ s) × (b'0' ≤ c) × (c ≤ b'9')

digits_fuel-BeginsWithDigit : (f n : ℕ) → n < f → BeginsWithDigit (digits_fuel f n)
unfolding digits_fuel
digits_fuel-BeginsWithDigit zero n h = elim h [ ]
digits_fuel-BeginsWithDigit (suc f) n h = elim (Bool-cases (ltb n 10)) [
  | inl e ↦ (b'0' + n, [], rw e, omega arith, ground arith)
  | inr e ↦
      let (c, s, q, lo, hi) = digits_fuel-BeginsWithDigit f (n / 10) (ground arith) in
      (c, s ++ (b'0' + n % 10) ∷ [], rw (e, q), lo, hi)
]

parse_digits_lem :
    (bound n c : ℕ) (s : Text)
    → scan_digits 0 (c ∷ s) ≡ some n
    → n ≤ bound
    → parse_digits bound (c ∷ s) ≡ some n
unfolding parse_digits
parse_digits_lem bound n c s e h = ground arith

parse_digits-digits : (bound n : ℕ) → n ≤ bound → parse_digits bound (digits n) ≡ some n
unfolding digits
parse_digits-digits bound n h =
    let (c, s, q, _, _) = digits_fuel-BeginsWithDigit (n + 1) n (omega arith) in
    let read = scan-digits_fuel (n + 1) n (omega arith) in
    rw q (parse_digits_lem bound n c s (rw q at read) h)

-- Every `i64` is read back from its text.
pub parse-to_string : (a : ℤ) → InI64 a → parse (to_string a) ≡ some a
unfolding parse to_string neg
parse-to_string (pos n) h =
    let (c, s, q, lo, hi) = digits_fuel-BeginsWithDigit (n + 1) n (omega arith) in
    let read = parse_digits-digits i64_max n (omega arith) in
    unfold digits in rw q (let read' = rw q at read in ground arith)
parse-to_string (negsuc n) h =
    let read = parse_digits-digits (i64_max + 1) (n + 1) (omega arith) in ground arith

parse_digits-le : (bound : ℕ) (s : Text) (n : ℕ) → parse_digits bound s ≡ some n → n ≤ bound
unfolding parse_digits
parse_digits-le bound [] n h = cc
parse_digits-le bound (c ∷ s) n h = ground arith

-- Whatever text is read, the number fits an `i64`.
pub parse-InI64 : (s : Text) (a : ℤ) → parse s ≡ some a → InI64 a
unfolding parse neg
parse-InI64 [] a h = cc
parse-InI64 (c ∷ s) a h = ground (
  arith,
  λ (n : ℕ). parse_digits-le (i64_max + 1) s n,
  λ (n : ℕ). parse_digits-le i64_max s n,
  λ (n : ℕ). parse_digits-le i64_max (c ∷ s) n,
)

to_string_examples :
    (to_string (negsuc 9) ≡ codes "-10")
    × (to_string (pos 0) ≡ codes "0")
    × (parse (codes "9223372036854775808") ≡ none)
    × (parse (codes "-9223372036854775808") ≡ some (negsuc i64_max))
    × (parse (codes "12a") ≡ none)
    × (parse (codes "-") ≡ none)
unfolding to_string parse
to_string_examples = (refl, refl, refl, refl, refl, refl)
