-- ===== src/Pricing/Names/Dated.antt =====
-- apps/gateway/src/metering/pricing.rs: names with the date of a snapshot.
use aegis_ai_gateway.Prelude.{
  ℕ, ◌+◌, ◌-◌, ◌≤◌, ◌≡◌, ◌≢◌, and_true, all, le→not-ltb, refl, ap, ◌∙◌, arith, Bool, true, false,
  ◌&&◌, none, some, [], ◌∷◌, ◌++◌, length, ltb, ◌==◌,
}
use aegis_ai_gateway.Panic.{returns}
use aegis_ai_gateway.Pricing.Names.{
  PricingTable, has_date_shape, is_date_suffix, is_ascii_digit, strip_date_suffix, resolve_dated,
  resolve_prefixed, resolve_normalized, resolve,
}
use aegis_ai_gateway.Pricing.Names.Resolve.{falls_through}
use aegis_ai_gateway.Table.{lookup}
use aegis_ai_gateway.Text.{Text, to_ascii_lowercase, trim}
use aegis_ai_gateway.Text.Utf8.{
  IsAscii, char_len, byte_len, byte_len-ascii, byte_len-append, split_at-append,
}

char_len-low : (c : ℕ) → c ≤ 127 → char_len c ≡ 1
unfolding char_len
char_len-low c h = ground arith

digit-low : (c : ℕ) → is_ascii_digit c ≡ true → char_len c ≡ 1
digit-low c h = let low : c ≤ 127 = ground arith in char_len-low c low

dash-low : (c : ℕ) → (c == b'-') ≡ true → char_len c ≡ 1
dash-low c h = let low : c ≤ 127 = ground arith in char_len-low c low

digits-low : (a b : ℕ) → all is_ascii_digit (a ∷ b ∷ []) ≡ true → char_len a + char_len b ≡ 2
digits-low a b h =
    let p = and_true _ _ h in
    let q = and_true _ _ p.1 in omega (arith, digit-low a p.0, digit-low b q.0)

never : (b : Bool) → (b && false) ≢ true
never true h = cc
never false h = cc

date-byte_len : (d : Text) → is_date_suffix d ≡ true → byte_len d ≡ 11
unfolding is_date_suffix has_date_shape byte_len
date-byte_len (z ∷ a ∷ b ∷ c ∷ d ∷ e ∷ f ∷ g ∷ h ∷ i ∷ j ∷ []) k =
    let whole = and_true _ _ k in
    let day = and_true _ _ whole.1 in
    let dash2 = and_true _ _ day.0 in
    let month = and_true _ _ dash2.0 in
    let dash1 = and_true _ _ month.0 in
    let year1 = and_true _ _ dash1.0 in
    let year2 = and_true _ _ year1.1 in
    omega (
      arith,
      dash-low z whole.0,
      digit-low a year1.0,
      digit-low b year2.0,
      digits-low c d year2.1,
      dash-low e dash1.1,
      digits-low f g month.1,
      dash-low h dash2.1,
      digits-low i j day.1,
    )
date-byte_len [] k = cc
date-byte_len (z ∷ _) k = absurd (never (z == b'-') k)

strip_date_suffix-append :
    (base date : Text)
    → IsAscii base
    → is_date_suffix date ≡ true
    → strip_date_suffix (base ++ date) ≡ returns (some base)
unfolding strip_date_suffix
strip_date_suffix-append base date ascii dated =
    let long : byte_len (base ++ date) ≡ length base + 11 =
      omega
        (arith, byte_len-append base date, byte_len-ascii base ascii, date-byte_len date dated) in
    let fits : ltb (byte_len (base ++ date)) 11 ≡ false = le→not-ltb _ 11 (omega arith) in
    let at : byte_len (base ++ date) - 11 ≡ length base = omega arith in
    rw (fits, at, split_at-append base date ascii, dated) refl

-- A dated snapshot resolves as the model that it is a snapshot of: an ASCII name with a suffix
-- -YYYY-MM-DD, which neither stands in the table itself nor behind the prefix of OpenRouter,
-- resolves to what the name before the suffix is an alias for.
pub resolve_dated_snapshot :
    (t : PricingTable) (requested base date : Text)
    → to_ascii_lowercase (trim requested) ≡ base ++ date
    → IsAscii base
    → is_date_suffix date ≡ true
    → lookup (base ++ date) t.aliases ≡ none
    → resolve_prefixed t.aliases (base ++ date) ≡ none
    → resolve t requested ≡ returns (lookup base t.aliases)
unfolding resolve resolve_dated
resolve_dated_snapshot t requested base date e ascii dated absent unprefixed =
    ap (resolve_normalized t.aliases) e
    ∙ falls_through t.aliases (base ++ date) absent unprefixed
    ∙ rw (strip_date_suffix-append base date ascii dated) refl
