-- ===== src/Billing/Invoicing/Totals.antt =====
-- What `generate_invoice` bills: the plan's price and the overage of each metered dimension.
use async_fastapi_template.Prelude.{
  ℕ, ◌+◌, ◌-◌, ◌*◌, ◌/◌, ◌%◌, ◌≤◌, ◌<◌, ◌≡◌, refl, Option, none, some, List, [], ◌∷◌, ◌++◌, arith,
  ltb, ◌==◌, if◌then◌else◌,
}
use native.Mathlib.Nat.{mul-zero}
use async_fastapi_template.Billing.Model.{Metering, Plan, Subscription, InvoiceLine, draft}
use async_fastapi_template.Billing.Usage.{Redis, get_usage}
use async_fastapi_template.Billing.Invoicing.{
  round_div, compute_tax, sum_amounts, sum_taxes, metered_lines, overage_line, append_metered_lines,
  base_invoice, build_invoice,
}

-- The overage of all dimensions, dimension by dimension.
pub total_overage : Redis → ℕ → ℕ → List Metering → ℕ
total_overage redis tenant start [] = 0
total_overage redis tenant start (m ∷ ms) =
    (get_usage redis tenant m.dimension start - m.included_quantity) * m.unit_amount_cents
    + total_overage redis tenant start ms

pub tenant_overage : Redis → Option ℕ → ℕ → List Metering → ℕ
tenant_overage redis none start ms = 0
tenant_overage redis (some tenant) start ms = total_overage redis tenant start ms

sum_amounts-append :
    (xs ys : List InvoiceLine) → sum_amounts (xs ++ ys) ≡ sum_amounts xs + sum_amounts ys
unfolding sum_amounts
sum_amounts-append [] ys = omega arith
sum_amounts-append (x ∷ xs) ys = omega (arith, sum_amounts-append xs ys)

sum_taxes-append : (xs ys : List InvoiceLine) → sum_taxes (xs ++ ys) ≡ sum_taxes xs + sum_taxes ys
unfolding sum_taxes
sum_taxes-append [] ys = omega arith
sum_taxes-append (x ∷ xs) ys = omega (arith, sum_taxes-append xs ys)

untaxed_line : (l : InvoiceLine) → l.tax_rate_bps ≡ 0 → compute_tax l ≡ 0
unfolding compute_tax
untaxed_line l h = rw (h, mul-zero)

untaxed : (l : InvoiceLine) → l.tax_rate_bps ≡ 0 → compute_tax l + 0 ≡ 0
untaxed l h = omega (arith, untaxed_line l h)

sum-metered_lines :
    (redis : Redis) (tenant start : ℕ) (ms : List Metering)
    → (sum_amounts (metered_lines redis tenant start ms) ≡ total_overage redis tenant start ms)
      × (sum_taxes (metered_lines redis tenant start ms) ≡ 0)
unfolding sum_amounts sum_taxes metered_lines total_overage
sum-metered_lines redis tenant start [] = ground arith
sum-metered_lines redis tenant start (m ∷ ms) = ground (
  arith,
  untaxed_line (overage_line (get_usage redis tenant m.dimension start) m) refl,
  sum-metered_lines redis tenant start ms,
)

lines_total :
    (redis : Redis) (id : ℕ) (s : Subscription) (plan : Plan) (start end : ℕ) (tenant : Option ℕ)
    → let i = append_metered_lines redis plan tenant start (base_invoice id s plan start end) in
      let ls = i.lines in
      (i.status ≡ draft)
      × (i.subscription_id ≡ s.id)
      × (sum_amounts ls ≡ plan.price_cents + tenant_overage redis tenant start plan.metering)
      × (sum_taxes ls ≡ 0)
unfolding append_metered_lines base_invoice tenant_overage sum_amounts sum_taxes
lines_total redis id s plan start end none = (refl, refl, omega arith, untaxed _ refl)
lines_total redis id s plan start end (some tenant) =
    let (a, t) = sum-metered_lines redis tenant start plan.metering in
    (refl, refl, omega (arith, a), omega (arith, untaxed_line _ refl, t))

-- A generated invoice is a draft for the subscription whose subtotal is the plan's price plus the
-- overage of every metered dimension (none without a tenant), with no tax and the total as sum.
pub build_invoice_total :
    (redis : Redis) (id : ℕ) (s : Subscription) (plan : Plan) (start end : ℕ)
    → let i = build_invoice redis id s plan start end in
      (i.subtotal_cents ≡ plan.price_cents + tenant_overage redis s.tenant_id start plan.metering)
      × (i.tax_cents ≡ 0)
      × (i.total_cents ≡ i.subtotal_cents + i.tax_cents)
      × (i.status ≡ draft)
      × (i.subscription_id ≡ s.id)
unfolding build_invoice
build_invoice_total redis id s plan start end =
    let (d, i, a, t) = lines_total redis id s plan start end s.tenant_id in (a, t, refl, d, i)

round_of : ℕ → ℕ → ℕ → ℕ
round_of q r d =
    if ltb (2 * r) d then q else if ltb d (2 * r) then q + 1 else if q % 2 == 0 then q else q + 1

mul-suc : (d q : ℕ) → d * (q + 1) ≡ d * q + d
mul-suc d q = omega arith

round_of_nearest :
    (n q r d : ℕ)
    → n ≡ d * q + r
    → r < d
    → (2 * n ≤ 2 * (d * round_of q r d) + d)
      × (2 * (d * round_of q r d) ≤ 2 * n + d)
      × (2 * r ≡ d → round_of q r d % 2 ≡ 0)
unfolding round_of
round_of_nearest n q r d e lt =
    (ground (arith, mul-suc d q), ground (arith, mul-suc d q), λ h. ground arith)

-- `round_div` is a nearest integer: it is off by at most a half, and a half goes to the even side.
pub round_div_nearest :
    (n d : ℕ)
    → 1 ≤ d
    → (2 * n ≤ 2 * (d * round_div n d) + d)
      × (2 * (d * round_div n d) ≤ 2 * n + d)
      × (2 * (n % d) ≡ d → round_div n d % 2 ≡ 0)
unfolding round_div round_of
round_div_nearest n d h = round_of_nearest n (n / d) (n % d) d (omega arith) (omega arith)
