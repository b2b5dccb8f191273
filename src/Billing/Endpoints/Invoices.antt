-- ===== src/Billing/Endpoints/Invoices.antt =====
-- app/billing/api/endpoints/invoices.py: the invoices of the caller's tenant. What
-- `PermissionChecker` says of the caller (Identity.Access.check_permission) is a parameter: whether
-- it lets the listed permissions pass.
pub mod Scope
use async_fastapi_template.Prelude.{
  ℕ, String, Bool, true, false, not, ◌&&◌, ◌==◌, opt_eq, Option, none, some, is_some, List, [], ◌∷◌,
  ◌++◌, select, find, take, drop, if◌then◌else◌,
}
use async_fastapi_template.Billing.Model.{InvoiceStatus, draft, open_, paid, void, Invoice}
use async_fastapi_template.Billing.Session.{
  ⊤, User, Tables, Bus, Subject, Suffix, Event, not_found, forbidden, bad_request, M, pure, raise,
  or_raise, ◌>>=◌, ◌>>◌, raise_if, tables, publish, get_plan, get_live_for_tenant, World, ok, err,
  Result,
}
use async_fastapi_template.Billing.Usage.{Redis}
use async_fastapi_template.Billing.Invoicing.{generate_invoice, issue, mark_paid, void_invoice}

abbrev pub same_status : InvoiceStatus → InvoiceStatus → Bool
same_status draft draft = true
same_status open_ open_ = true
same_status paid paid = true
same_status void void = true
same_status _ _ = false

-- `Invoice.status == status`, if the caller asks for one
abbrev pub has_status : Option InvoiceStatus → Invoice → Bool
has_status none i = true
has_status (some status) i = same_status i.status status

-- `order_by(Invoice.id.desc())`, of a table in the order of its ids
abbrev pub newest_first : List Invoice → List Invoice
newest_first [] = []
newest_first (i ∷ is) = newest_first is ++ i ∷ []

-- `CRUDInvoice.get_for_tenant`
unfoldable pub get_for_tenant : Tables → ℕ → ℕ → Option Invoice
get_for_tenant t id tenant =
    find (λ (i : Invoice). i.id == id && opt_eq i.tenant_id (some tenant)) t.invoices

-- `CRUDInvoice.list_for_tenant`
unfoldable pub list_for_tenant : Tables → ℕ → Option InvoiceStatus → ℕ → ℕ → List Invoice
list_for_tenant t tenant status limit offset = take limit (
    drop offset (
      newest_first (
        select (λ (i : Invoice). opt_eq i.tenant_id (some tenant) && has_status status i)
          t.invoices)))

-- `list_invoices`
unfoldable pub list_invoices : User → Option InvoiceStatus → ℕ → ℕ → M (List Invoice)
unfolding list_for_tenant
list_invoices u status limit offset w = elim u.tenant_id [
  | none ↦ (ok [], w)
  | some tenant ↦ (ok (list_for_tenant w.session tenant status limit offset), w)
]

-- `get_invoice`, whose two checks are those of `_ensure_tenant_invoice`
unfoldable pub ensure_tenant_invoice : ℕ → User → M Invoice
unfolding get_for_tenant
ensure_tenant_invoice id u = do
  tenant ← or_raise u.tenant_id not_found
  t ← tables
  or_raise (get_for_tenant t id tenant) not_found

abbrev pub Permits : Type 0
Permits = List String → Bool

-- `dependencies=[Depends(PermissionChecker(required))]`
unfoldable pub require : Permits → List String → M ⊤
require permits required = raise_if (not (permits required)) forbidden

-- `invoice_event` of app/billing/services/invoicing.py
unfoldable pub invoice_event : Suffix → Invoice → ℕ → Event
invoice_event suffix i user_id = record {
  subject = Subject.invoice;
  suffix = suffix;
  row_id = i.id;
  user_id = some user_id;
}

-- `generate_invoice`
unfoldable pub generate_tenant_invoice :
    Permits → Redis → Bus → Option ℕ → Option ℕ → User → M Invoice
unfolding require invoice_event
generate_tenant_invoice permits redis bus period_start period_end u = do
  require permits ("billing:write" ∷ [])
  raise_if (not (is_some u.tenant_id)) bad_request
  t ← tables
  s ← or_raise (get_live_for_tenant t u.tenant_id) not_found
  plan ← or_raise (get_plan t s.plan_id) not_found
  i ← generate_invoice redis s plan period_start period_end
  publish bus (invoice_event Suffix.generated i u.id)
  pure i

-- `issue_invoice`
unfoldable pub issue_tenant_invoice : Permits → ℕ → Bus → ℕ → User → M Invoice
unfolding require ensure_tenant_invoice invoice_event
issue_tenant_invoice permits clock bus id u = do
  require permits ("billing:write" ∷ [])
  ensure_tenant_invoice id u
  i ← issue clock id
  publish bus (invoice_event Suffix.issued i u.id)
  pure i

-- `pay_invoice`, which gives the service no bus
unfoldable pub pay_tenant_invoice : Permits → ℕ → Bus → ℕ → User → M Invoice
unfolding require ensure_tenant_invoice invoice_event
pay_tenant_invoice permits clock bus id u = do
  require permits ("billing:write" ∷ [])
  ensure_tenant_invoice id u
  i ← mark_paid clock id none
  publish bus (invoice_event Suffix.paid i u.id)
  pure i

-- `void_invoice`
unfoldable pub void_tenant_invoice : Permits → Bus → ℕ → User → M Invoice
unfolding require ensure_tenant_invoice invoice_event
void_tenant_invoice permits bus id u = do
  require permits ("billing:write" ∷ [])
  ensure_tenant_invoice id u
  i ← void_invoice id
  publish bus (invoice_event Suffix.voided i u.id)
  pure i
