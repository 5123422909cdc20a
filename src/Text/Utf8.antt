-- ===== src/Text/Utf8.antt =====
-- Strings by bytes: what a code point takes in UTF-8, and `split_at`, which panics at an index that
-- is inside a character or past the end.
use aegis_ai_gateway.Prelude.{
  true, ℕ, zero, suc, ◌+◌, ◌-◌, ◌≤◌, ◌≡◌, refl, arith, ap, and_true, leb→le, leb, all, ltb, false,
  if◌then◌else◌, [], ◌∷◌, ◌++◌, All, All-append, length, lt→ltb, le→not-ltb, take, drop, ◌<◌,
}
use aegis_ai_gateway.Panic.{Run, returns, panics}
use aegis_ai_gateway.Text.{Text}

unfoldable pub char_len : ℕ → ℕ
char_len c = if ltb c 0x80 then 1 else if ltb c 0x800 then 2 else if ltb c 0x10000 then 3 else 4

unfoldable pub byte_len : Text → ℕ
unfolding char_len
byte_len [] = 0
byte_len (c ∷ s) = char_len c + byte_len s

cons_left : ℕ → Run (Text × Text) → Run (Text × Text)
cons_left c (returns (a, b)) = returns (c ∷ a, b)
cons_left c panics = panics

unfoldable pub split_at : ℕ → Text → Run (Text × Text)
unfolding char_len cons_left
split_at zero s = returns ([], s)
split_at (suc n) [] = panics
split_at (suc n) (c ∷ s) =
    let rest = split_at (suc n - char_len c) s in
    if ltb (suc n) (char_len c) then panics else cons_left c rest

-- In ASCII text every index up to the length is a boundary.
abbrev pub IsAscii : Text → Type 0
IsAscii = All λ c. c ≤ 127

pub byte_len-ascii : (s : Text) → IsAscii s → byte_len s ≡ length s
unfolding byte_len char_len
byte_len-ascii [] h = refl
byte_len-ascii (c ∷ s) h = let ih = byte_len-ascii s h.1 in let low = h.0 in ground arith

-- An ASCII character is one byte.
split_at-cons :
    (n c : ℕ) (s : Text) → c ≤ 127 → split_at (suc n) (c ∷ s) ≡ cons_left c (split_at n s)
unfolding split_at char_len
split_at-cons n c s low =
    let one : char_len c ≡ 1 = ground arith in
    let fits : ltb (suc n) (char_len c) ≡ false = ground arith in
    rw fits (rw one (ap (λ m. cons_left c (split_at m s)) back))
  where
    back : suc n - 1 ≡ n
    back = omega arith

pub split_at-append : (a b : Text) → IsAscii a → split_at (length a) (a ++ b) ≡ returns (a, b)
unfolding split_at cons_left
split_at-append [] b h = refl
split_at-append (c ∷ a) b h =
    rw (split_at-cons (length a) c (a ++ b) h.0, split_at-append a b h.1) refl

pub IsAscii-append : (a b : Text) → IsAscii a → IsAscii b → IsAscii (a ++ b)
IsAscii-append = All-append λ c. c ≤ 127

-- An index up to the length of an ASCII text is a boundary, whatever stands behind it.
pub split_at-ascii :
    (n : ℕ) (s : Text) → IsAscii s → n ≤ length s → split_at n s ≡ returns (take n s, drop n s)
unfolding split_at cons_left
split_at-ascii zero s h k = refl
split_at-ascii (suc n) [] h k = absurd (omega arith)
split_at-ascii (suc n) (c ∷ s) h k =
    rw (split_at-cons n c s h.0, split_at-ascii n s h.1 (omega arith)) refl

-- An index inside a character panics.
pub split_at-inside :
    (a : Text) (c : ℕ) (s : Text) (n : ℕ)
    → byte_len a < n
    → n < byte_len a + char_len c
    → split_at n (a ++ c ∷ s) ≡ panics
unfolding split_at cons_left byte_len
split_at-inside [] c s zero h p = absurd (omega (arith, h))
split_at-inside [] c s (suc n) h p = rw (lt→ltb (suc n) (char_len c) (omega (arith, p))) refl
split_at-inside (x ∷ a) c s zero h p = absurd (omega (arith, h))
split_at-inside (x ∷ a) c s (suc n) h p =
    let fits : ltb (suc n) (char_len x) ≡ false =
      le→not-ltb (suc n) (char_len x) (omega (arith, h)) in
    let rest =
      split_at-inside a c s (suc n - char_len x) (omega (arith, h)) (omega (arith, h, p)) in
    rw (fits, rest) refl

pub byte_len-append : (a b : Text) → byte_len (a ++ b) ≡ byte_len a + byte_len b
unfolding byte_len
byte_len-append [] b = omega arith
byte_len-append (c ∷ a) b = omega (arith, byte_len-append a b)

pub byte_len-cons : (c : ℕ) (s : Text) → byte_len (c ∷ s) ≡ char_len c + byte_len s
unfolding byte_len
byte_len-cons c s = refl

pub IsAscii-of_test : (s : Text) → all (λ c. leb c 127) s ≡ true → IsAscii s
IsAscii-of_test [] h = tt
IsAscii-of_test (c ∷ s) h =
    let p = and_true (leb c 127) (all (λ d. leb d 127) s) h in
    (leb→le c 127 p.0, IsAscii-of_test s p.1)
