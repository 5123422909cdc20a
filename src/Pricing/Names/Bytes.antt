-- ===== src/Pricing/Names/Bytes.antt =====
-- apps/gateway/src/metering/pricing.rs: `strip_date_suffix` counts bytes, and which names make it panic.
use aegis_ai_gateway.Prelude.{
  ℕ, ◌+◌, ◌-◌, ◌≤◌, ◌<◌, ◌≡◌, le→not-ltb, refl, ap, ◌∙◌, arith, false, Option, none, some, [], ◌∷◌,
  ◌++◌, length, Bool-cases, Option-cases, inl, inr, ltb, if◌then◌else◌, take, drop,
}
use aegis_ai_gateway.Panic.{returns, panics, ◌>>=◌}
use aegis_ai_gateway.Pricing.Names.{
  PricingTable, is_date_suffix, strip_date_suffix, resolve_dated, dated_lookup, resolve_prefixed,
  resolve_normalized, resolve,
}
use aegis_ai_gateway.Pricing.Names.Resolve.{falls_through}
use aegis_ai_gateway.Table.{Table, lookup}
use aegis_ai_gateway.Text.{
  end_of, Text, to_ascii_lowercase, lower_char, trim, trim_start, trim_end, is_whitespace,
}
use aegis_ai_gateway.Text.Utf8.{
  IsAscii, char_len, byte_len, byte_len-ascii, byte_len-append, byte_len-cons, split_at-ascii,
  split_at-inside,
}

strip_date_suffix-ascii :
    (name : Text) → IsAscii name → (r : Option Text) × (strip_date_suffix name ≡ returns r)
unfolding strip_date_suffix
strip_date_suffix-ascii name h = elim (Bool-cases (ltb (byte_len name) 11)) [
  | inl e ↦ (none, rw e refl)
  | inr e ↦
      let n = byte_len name - 11 in
      let within : n ≤ length name = omega (arith, byte_len-ascii name h) in
      (
        if is_date_suffix (drop n name) then some (take n name) else none,
        rw (e, split_at-ascii n name h within) refl,
      )
]

strip_date_suffix-inside :
    (front back : Text) (c : ℕ)
    → byte_len back < 11
    → 11 < char_len c + byte_len back
    → strip_date_suffix (front ++ c ∷ back) ≡ panics
unfolding strip_date_suffix
strip_date_suffix-inside front back c short long =
    let size : byte_len (front ++ c ∷ back) ≡ byte_len front + (char_len c + byte_len back) =
      omega (arith, byte_len-append front (c ∷ back), byte_len-cons c back) in
    let fits : ltb (byte_len (front ++ c ∷ back)) 11 ≡ false = le→not-ltb _ 11 (omega arith) in
    let inside =
      split_at-inside front c back (byte_len (front ++ c ∷ back) - 11) (omega arith)
        (omega arith) in
    rw (fits, inside) refl

-- A name that, trimmed and lowered, is neither an alias nor one behind the prefix makes `resolve`
-- panic when the place eleven bytes before its end is inside a character.
pub resolve_panics_inside_character :
    (t : PricingTable) (requested front back : Text) (c : ℕ)
    → to_ascii_lowercase (trim requested) ≡ front ++ c ∷ back
    → byte_len back < 11
    → 11 < char_len c + byte_len back
    → lookup (front ++ c ∷ back) t.aliases ≡ none
    → resolve_prefixed t.aliases (front ++ c ∷ back) ≡ none
    → resolve t requested ≡ panics
unfolding resolve resolve_dated
resolve_panics_inside_character t requested front back c e short long absent unprefixed =
    ap (resolve_normalized t.aliases) e
    ∙ falls_through t.aliases (front ++ c ∷ back) absent unprefixed
    ∙ rw (strip_date_suffix-inside front back c short long) refl

-- Trimming and lowering keep ASCII.
trim_start-IsAscii : (s : Text) → IsAscii s → IsAscii (trim_start s)
unfolding trim_start
trim_start-IsAscii [] h = tt
trim_start-IsAscii (c ∷ s) h = elim (Bool-cases (is_whitespace c)) [
  | inl e ↦ rw e (trim_start-IsAscii s h.1)
  | inr e ↦ rw e h
]

end_step : (c : ℕ) (r : Text) → c ≤ 127 → IsAscii r → IsAscii (end_of c r)
unfolding end_of
end_step c [] h k = elim (Bool-cases (is_whitespace c)) [ inl e ↦ rw e tt | inr e ↦ rw e (h, tt) ]
end_step c (d ∷ r) h k = (h, k)

trim_end-IsAscii : (s : Text) → IsAscii s → IsAscii (trim_end s)
unfolding trim_end
trim_end-IsAscii [] h = tt
trim_end-IsAscii (c ∷ s) h = end_step c (trim_end s) h.0 (trim_end-IsAscii s h.1)

lower-IsAscii : (s : Text) → IsAscii s → IsAscii (to_ascii_lowercase s)
unfolding to_ascii_lowercase lower_char
lower-IsAscii [] h = tt
lower-IsAscii (c ∷ s) h = let low = h.0 in (ground arith, lower-IsAscii s h.1)

dated_lookup-returns :
    (aliases : Table Text) (base : Option Text)
    → (r : Option Text) × (dated_lookup aliases base ≡ returns r)
unfolding dated_lookup
dated_lookup-returns aliases none = (none, refl)
dated_lookup-returns aliases (some b) = (lookup b aliases, refl)

resolve_normalized-ascii :
    (aliases : Table Text) (name : Text)
    → IsAscii name
    → (r : Option Text) × (resolve_normalized aliases name ≡ returns r)
unfolding resolve_normalized resolve_dated
resolve_normalized-ascii aliases name h = elim (Option-cases (lookup name aliases)) [
  | inr (c, e) ↦ (some c, rw (resolve_normalized, e) refl)
  | inl e ↦ elim (Option-cases (resolve_prefixed aliases name)) [
    | inr (c, f) ↦ (some c, rw (resolve_normalized, e, f) refl)
    | inl f ↦
        let base = strip_date_suffix-ascii name h in
        let found = dated_lookup-returns aliases base.0 in
        (
          found.0,
          falls_through aliases name e f ∙ ap (λ r. r >>= dated_lookup aliases) base.1 ∙ found.1,
        )
  ]
]

-- On an ASCII name `resolve` never panics.
pub resolve-ascii :
    (t : PricingTable) (requested : Text)
    → IsAscii requested
    → (r : Option Text) × (resolve t requested ≡ returns r)
unfolding resolve trim
resolve-ascii t requested h =
    resolve_normalized-ascii t.aliases (to_ascii_lowercase (trim requested)) (
      lower-IsAscii (trim requested)
        (trim_end-IsAscii (trim_start requested) (trim_start-IsAscii requested h)))
