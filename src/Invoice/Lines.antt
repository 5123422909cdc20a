-- ===== src/Invoice/Lines.antt =====
-- The lines of an invoice and its total (billing/invoice.rs).
use text.Mathlib.Text.{◌==◌}
use aegis_ai_gateway.Prelude.{
  ℕ, ◌*◌, ◌^◌, ◌≤◌, ◌≡◌, refl, arith, true, Bool-cases, inl, inr, String, List, [], ◌∷◌, ◌++◌,
  if◌then◌else◌, sym, ◌∙◌,
}
use aegis_ai_gateway.Int.{ℤ, pos, ◌+ℤ◌, ◌*ℤ◌, ◌≤ℤ◌, *ℤ_pos_parts, eqb_ℤ, eq_of_parts, int_laws}
use aegis_ai_gateway.Int.I64.{InI64, wrap_id, wrapping_add, wrapping_mul, saturating_mul, saturate}
use aegis_ai_gateway.Money.{MicroCents, is_zero, floor_at_zero, mul_basis_points}
use aegis_ai_gateway.Money.Amounts.{is_zero→eq, add_exact, money_laws}
use aegis_ai_gateway.Savings.Breakdown.{share_bounds}
use aegis_ai_gateway.Invoice.{
  UsageSummary, InvoiceLine, Invoice, subscription_price, sum_amounts, subscription_line,
  api_amount, api_line, share_line, build, lines_sum_to_total,
}

sum_amounts-append :
    (acc : ℤ) (xs ys : List InvoiceLine)
    → sum_amounts acc (xs ++ ys) ≡ sum_amounts (sum_amounts acc xs) ys
unfolding sum_amounts
sum_amounts-append acc [] ys = refl
sum_amounts-append acc (x ∷ xs) ys = sum_amounts-append (wrapping_add acc x.amount_mc) xs ys

add-zero : (acc : ℤ) → acc +ℤ pos 0 ≡ acc
add-zero acc = omega int_laws

eqb_refl : (a : ℤ) → eqb_ℤ a a ≡ true
eqb_refl a = ground arith

zero-add : (a : ℤ) → pos 0 +ℤ a ≡ a
zero-add a = omega int_laws

-- A line that is left out when its amount is zero adds its amount either way.
sum_amounts-optional :
    (acc a : ℤ) (l : InvoiceLine)
    → l.amount_mc ≡ a
    → InI64 (acc +ℤ a)
    → sum_amounts acc (if is_zero a then [] else l ∷ []) ≡ acc +ℤ a
unfolding sum_amounts wrapping_add
sum_amounts-optional acc a l e fits = elim (Bool-cases (is_zero a)) [
  | inl z ↦ rw z (rw (is_zero→eq a z) (sym (add-zero acc)))
  | inr z ↦ rw (z, e) (wrap_id (acc +ℤ a) fits)
]

subscription_bounds :
    (plan : String)
    → (pos 0 ≤ℤ subscription_price plan) × (subscription_price plan ≤ℤ pos 2_000_000_000)
unfolding subscription_price saturating_mul saturate ◌*ℤ◌
subscription_bounds plan = ground arith

hundredfold : (n : ℕ) → n ≤ 1_000_000_000_000_000 → wrapping_mul (pos 100) (pos n) ≡ pos (100 * n)
unfolding wrapping_mul
hundredfold n h =
    let exact : pos 100 *ℤ pos n ≡ pos (100 * n) =
      omega (arith, *ℤ_pos_parts (pos 100) n, eq_of_parts) in
    rw exact (wrap_id (pos (100 * n)) (omega arith))

sum_amounts-subscription :
    (plan : String) → sum_amounts (pos 0) (subscription_line plan) ≡ subscription_price plan
unfolding subscription_line
sum_amounts-subscription plan =
    let s = subscription_price plan in
    sum_amounts-optional (pos 0) s _ refl (omega (int_laws, subscription_bounds plan)) ∙ zero-add s

sum_amounts-share :
    (text : ℕ → MicroCents → String) (bp : ℕ) (g fee acc : ℤ)
    → InI64 (acc +ℤ fee)
    → sum_amounts acc (share_line text bp g fee) ≡ acc +ℤ fee
unfolding share_line
sum_amounts-share text bp g fee acc fits = sum_amounts-optional acc fee _ refl fits

-- What the API tier adds, with no overflow up to a million billion requests.
pub api_charge : String → ℕ → ℤ
api_charge plan n = if plan == "api" then pos (100 * n) else pos 0

module _ (plan : String) (n : ℕ) (g : ℤ) (h : n ≤ 1_000_000_000_000_000) where
  abbrev usage : UsageSummary
  usage = record { requests = pos n; gross_savings_mc = g }

  api_amount-eq-charge : api_amount plan usage ≡ api_charge plan n
  unfolding api_amount api_charge
  api_amount-eq-charge = ground (arith, hundredfold n h)

  api_charge_bounds : (pos 0 ≤ℤ api_charge plan n) × (api_charge plan n ≤ℤ pos (100 * n))
  unfolding api_charge
  api_charge_bounds = ground arith

  sum_amounts-api :
      (acc : ℤ)
      → InI64 (acc +ℤ api_charge plan n)
      → sum_amounts acc (api_line plan usage) ≡ acc +ℤ api_charge plan n
  unfolding sum_amounts api_line api_charge wrapping_add
  sum_amounts-api acc fits = elim (Bool-cases (plan == "api")) [
    | inl e ↦ rw e (rw (hundredfold n h) (wrap_id (acc +ℤ pos (100 * n)) (rw e at fits)))
    | inr e ↦ rw e (sym (add-zero acc))
  ]

module _ (plan : String) (n bp : ℕ) (g : ℤ) where
  abbrev fee : ℤ
  fee = mul_basis_points (floor_at_zero g) bp

  abbrev charged : ℤ
  charged = subscription_price plan +ℤ api_charge plan n

  module _ (h : n ≤ 1_000_000_000_000_000) (k : bp ≤ 10_000) (small : g ≤ℤ pos (10 ^ 18)) where
    fee_bounds : (pos 0 ≤ℤ fee) × (fee ≤ℤ pos (10 ^ 18))
    fee_bounds = omega (money_laws, share_bounds (floor_at_zero g) bp (omega money_laws) k)

    charged_bounds : (pos 0 ≤ℤ charged) × (charged ≤ℤ pos (10 ^ 18))
    charged_bounds = omega (int_laws, subscription_bounds plan, api_charge_bounds plan n g h)

    charged_fits : InI64 charged
    charged_fits = omega (int_laws, charged_bounds)

    total_fits : InI64 (charged +ℤ fee)
    total_fits = omega (int_laws, charged_bounds, fee_bounds)

    module _ (share_text : ℕ → MicroCents → String) where
      sum_amounts-lines :
          sum_amounts (pos 0) (
            subscription_line plan
            ++ (api_line plan (usage plan n g h) ++ share_line share_text bp (floor_at_zero g) fee))
          ≡ charged +ℤ fee
      sum_amounts-lines = rw (
        sum_amounts-append,
        sum_amounts-subscription plan,
        sum_amounts-append,
        sum_amounts-api plan n g h (subscription_price plan) charged_fits,
        sum_amounts-share share_text bp (floor_at_zero g) fee charged total_fits,
      )

      module _ {OrgId Date Time : Type 0} (org : OrgId) (from to : Date) (now : Time) where
        abbrev built : Invoice OrgId Date Time
        built = build share_text org plan bp from to (usage plan n g h) now

        -- Up to a million billion requests and a trillion dollars saved, with a share of at most
        -- 100%: the total is exactly the subscription, the API tier's charge for the requests and
        -- the savings fee, it is not negative, and the lines sum to it.
        pub build_total :
            (built.total_mc ≡ charged +ℤ fee)
            × (pos 0 ≤ℤ built.total_mc)
            × (lines_sum_to_total built ≡ true)
        unfolding build lines_sum_to_total
        build_total =
            let total : built.total_mc ≡ charged +ℤ fee = rw (
              api_amount-eq-charge plan n g h,
              add_exact _ _ charged_fits,
              add_exact _ _ total_fits,
            ) in
            (
              total,
              rw total (omega (int_laws, charged_bounds, fee_bounds)),
              rw (total, sum_amounts-lines) (eqb_refl (charged +ℤ fee)),
            )
