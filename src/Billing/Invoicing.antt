-- ===== src/Billing/Invoicing.antt =====
-- app/billing/services/invoicing.py and the queries and lines of app/billing/models/invoice.py.
pub mod Totals
pub mod Generate
pub mod Lifecycle
pub mod Reissue
use async_fastapi_template.Prelude.{
  ℕ, suc, ◌+◌, ◌-◌, ◌*◌, ◌/◌, ◌%◌, Bool, true, false, not, ◌&&◌, ◌||◌, Option, none, some, List, [],
  ◌∷◌, ◌++◌, ltb, leb, ◌==◌, if◌then◌else◌, is_some,
}
use async_fastapi_template.Billing.Model.{
  Status, past_due, status_eq, Metering, Plan, Subscription, is_live, InvoiceStatus, draft, open_,
  paid, void, InvoiceLine, Invoice,
}
use async_fastapi_template.Billing.Status.{invoice_allowed}
use async_fastapi_template.Billing.Session.{
  ⊤, Tables, World, Bus, Result, ok, err, conflict, value_error, not_found,
  illegal_invoice_transition, M, pure, or_raise, ◌>>=◌, ◌>>◌, raise_if, tables, write, commit,
  save_invoice, get_invoice, get_subscription, find_blocking_for_period,
}
use async_fastapi_template.Billing.Dunning.{is_dunning, recover_subscription}
use async_fastapi_template.Billing.Usage.{Redis, get_usage, compute_overage}

-- `assert_invoice_transition`
unfoldable pub assert_invoice_transition : InvoiceStatus → InvoiceStatus → M ⊤
unfolding invoice_allowed
assert_invoice_transition current target =
    raise_if (not (invoice_allowed current target)) illegal_invoice_transition

-- `round(n / d)` on integers: to the nearest, a half to the even neighbour. The division of the
-- source is in floats, which is the same for the amounts that the integer columns hold.
unfoldable pub round_div : ℕ → ℕ → ℕ
round_div n d =
    let q = n / d in
    let r = n % d in
    if ltb (2 * r) d then q else if ltb d (2 * r) then q + 1 else if q % 2 == 0 then q else q + 1

-- `InvoiceLine.compute_amount`
unfoldable pub compute_amount : InvoiceLine → ℕ
compute_amount l = l.quantity * l.unit_amount_cents

-- `InvoiceLine.compute_tax`
unfoldable pub compute_tax : InvoiceLine → ℕ
unfolding compute_amount round_div
compute_tax l = round_div (compute_amount l * l.tax_rate_bps) 10000

unfoldable pub sum_amounts : List InvoiceLine → ℕ
unfolding compute_amount
sum_amounts [] = 0
sum_amounts (l ∷ ls) = compute_amount l + sum_amounts ls

unfoldable pub sum_taxes : List InvoiceLine → ℕ
sum_taxes [] = 0
sum_taxes (l ∷ ls) = compute_tax l + sum_taxes ls

-- `compute_totals`
unfoldable pub compute_totals : List InvoiceLine → ℕ × ℕ
unfolding sum_amounts sum_taxes
compute_totals ls = (sum_amounts ls, sum_taxes ls)

-- `apply_totals`
unfoldable pub apply_totals : Invoice → Invoice
unfolding compute_totals
apply_totals i =
    let (subtotal, tax) = compute_totals i.lines in
    record i { subtotal_cents = subtotal; tax_cents = tax; total_cents = subtotal + tax }

-- The line that `append_metered_lines` adds for a dimension with an overage
unfoldable pub overage_line : ℕ → Metering → InvoiceLine
unfolding compute_overage
overage_line used m = record {
  quantity = used - m.included_quantity;
  unit_amount_cents = m.unit_amount_cents;
  tax_rate_bps = 0;
  amount_cents = compute_overage used m.included_quantity m.unit_amount_cents;
}

-- The loop of `append_metered_lines`: one line for each dimension with an overage.
unfoldable pub metered_lines : Redis → ℕ → ℕ → List Metering → List InvoiceLine
unfolding overage_line
metered_lines redis tenant start [] = []
metered_lines redis tenant start (m ∷ ms) =
    let used = get_usage redis tenant m.dimension start in
    let rest = metered_lines redis tenant start ms in
    if leb (compute_overage used m.included_quantity m.unit_amount_cents) 0
    then rest
    else overage_line used m ∷ rest

-- `append_metered_lines`
unfoldable pub append_metered_lines : Redis → Plan → Option ℕ → ℕ → Invoice → Invoice
unfolding metered_lines
append_metered_lines redis plan none start i = i
append_metered_lines redis plan (some tenant) start i = record i {
  lines = i.lines ++ metered_lines redis tenant start plan.metering;
}

-- The line and the invoice that `generate_invoice` builds, before the metered lines.
unfoldable pub base_invoice : ℕ → Subscription → Plan → ℕ → ℕ → Invoice
base_invoice id s plan start end = record {
  id = id;
  tenant_id = s.tenant_id;
  subscription_id = s.id;
  status = draft;
  currency = plan.currency;
  subtotal_cents = 0;
  tax_cents = 0;
  total_cents = 0;
  period_start = start;
  period_end = end;
  issued_at = none;
  paid_at = none;
  lines =
      record {
        quantity = 1;
        unit_amount_cents = plan.price_cents;
        tax_rate_bps = 0;
        amount_cents = plan.price_cents;
      }
      ∷ [];
}

-- The invoice that `generate_invoice` hands to `CRUDInvoice.create`
unfoldable pub build_invoice : Redis → ℕ → Subscription → Plan → ℕ → ℕ → Invoice
unfolding base_invoice append_metered_lines apply_totals
build_invoice redis id s plan start end =
    apply_totals
      (append_metered_lines redis plan s.tenant_id start (base_invoice id s plan start end))

-- `db.add(invoice)` of a new row, which takes the next id
unfoldable pub add_invoice : Invoice → Tables → Tables
add_invoice i t = record t { invoices = t.invoices ++ i ∷ []; next_id = t.next_id + 1 }

-- `commit`, with `except IntegrityError: rollback; raise ConflictException`
abbrev pub commit_or_conflict : M ⊤
commit_or_conflict w =
    let (r, w') = commit w in
    (
      elim r [ ok u ↦ ok u | err e ↦ err conflict ],
      record w' { session = elim r [ ok u ↦ w'.session | err e ↦ w'.stored ] },
    )

abbrev pub or_else : Option ℕ → ℕ → ℕ
or_else none d = d
or_else (some a) d = a

-- `generate_invoice`
unfoldable pub generate_invoice : Redis → Subscription → Plan → Option ℕ → Option ℕ → M Invoice
unfolding build_invoice add_invoice
generate_invoice redis s plan period_start period_end = do
  raise_if (not (is_live s)) conflict
  let start = or_else period_start s.current_period_start
  let end = or_else period_end s.current_period_end
  raise_if (leb end start) value_error
  t ← tables
  raise_if (is_some (find_blocking_for_period t s.id start)) conflict
  let i = build_invoice redis t.next_id s plan start end
  write (add_invoice i)
  commit_or_conflict
  pure i

-- `issue`
unfoldable pub issue : ℕ → ℕ → M Invoice
unfolding assert_invoice_transition
issue clock id = do
  t ← tables
  i ← or_raise (get_invoice t id) not_found
  assert_invoice_transition i.status open_
  let i' = record i { status = open_; issued_at = some clock }
  save_invoice i'
  commit
  pure i'

-- The `if` of `mark_paid` that ends the dunning of the subscription
unfoldable pub recover_paid : Option Bus → Option Subscription → M ⊤
recover_paid bus none = pure tt
recover_paid bus (some s) =
    if is_dunning s && status_eq s.status past_due
    then recover_subscription bus s >> pure tt
    else pure tt

-- `mark_paid`
unfoldable pub mark_paid : ℕ → ℕ → Option Bus → M Invoice
unfolding assert_invoice_transition
mark_paid clock id bus = do
  t ← tables
  i ← or_raise (get_invoice t id) not_found
  assert_invoice_transition i.status paid
  let i' = record i { status = paid; paid_at = some clock }
  save_invoice i'
  recover_paid bus (get_subscription t i.subscription_id)
  commit
  pure i'

-- `void`
unfoldable pub void_invoice : ℕ → M Invoice
unfolding assert_invoice_transition
void_invoice id = do
  t ← tables
  i ← or_raise (get_invoice t id) not_found
  assert_invoice_transition i.status void
  let i' = record i { status = void }
  save_invoice i'
  commit
  pure i'
