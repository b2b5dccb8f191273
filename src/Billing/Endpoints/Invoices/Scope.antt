-- ===== src/Billing/Endpoints/Invoices/Scope.antt =====
-- What a tenant can reach of the invoices of others.
use mathlib.Core.Path.{subst}
use async_fastapi_template.Prelude.{
  ℕ, ◌≡◌, refl, ap, Bool, true, false, ◌&&◌, ◌==◌, opt_eq, Option, none, some, List, [], ◌∷◌, ◌++◌,
  any, select, find, take, drop, All, arith, zero, suc, Bool-cases, inl, inr, Option-cases,
  if◌then◌else◌,
}
use async_fastapi_template.Billing.Model.{InvoiceStatus, Invoice}
use async_fastapi_template.Billing.Session.{
  publish, pure, ◌>>◌, Suffix, User, World, Bus, Result, ok, err, not_found, forbidden, M, ◌>>=◌,
}
use async_fastapi_template.Billing.Invoicing.{issue, mark_paid, void_invoice}
use async_fastapi_template.Billing.Endpoints.Invoices.{
  Permits, require, has_status, newest_first, get_for_tenant, list_for_tenant, list_invoices,
  ensure_tenant_invoice, invoice_event, issue_tenant_invoice, pay_tenant_invoice,
  void_tenant_invoice,
}

-- Whether an invoice is of the tenant of a user
abbrev pub belongs : User → Invoice → Bool
belongs u i = elim u.tenant_id [ none ↦ false | some tenant ↦ opt_eq i.tenant_id (some tenant) ]

-- A call on one invoice
pub data Call : Type 0 where
  to_read to_issue to_pay to_void : Call

abbrev pub call : Permits → Call → ℕ → Bus → ℕ → User → M Invoice
call permits to_read clock bus id u = ensure_tenant_invoice id u
call permits to_issue clock bus id u = issue_tenant_invoice permits clock bus id u
call permits to_pay clock bus id u = pay_tenant_invoice permits clock bus id u
call permits to_void clock bus id u = void_tenant_invoice permits bus id u

module _ (P : Invoice → Type 0) where
  All-take : (n : ℕ) (is : List Invoice) → All P is → All P (take n is)
  All-take zero is h = tt
  All-take (suc n) [] h = tt
  All-take (suc n) (i ∷ is) h = (h.0, All-take n is h.1)

  All-drop : (n : ℕ) (is : List Invoice) → All P is → All P (drop n is)
  All-drop zero is h = h
  All-drop (suc n) [] h = tt
  All-drop (suc n) (i ∷ is) h = All-drop n is h.1

  All-append : (is js : List Invoice) → All P is → All P js → All P (is ++ js)
  All-append [] js h k = k
  All-append (i ∷ is) js h k = (h.0, All-append is js h.1 k)

  All-newest_first : (is : List Invoice) → All P is → All P (newest_first is)
  All-newest_first [] h = tt
  All-newest_first (i ∷ is) h =
      All-append (newest_first is) (i ∷ []) (All-newest_first is h.1) (h.0, tt)

All-own :
    (tenant : ℕ) (status : Option InvoiceStatus) (is : List Invoice)
    → All
        (λ (i : Invoice). opt_eq i.tenant_id (some tenant) ≡ true)
        (select (λ (i : Invoice). opt_eq i.tenant_id (some tenant) && has_status status i) is)
All-own tenant status [] = tt
All-own tenant status (i ∷ is) =
    elim (Bool-cases (opt_eq i.tenant_id (some tenant) && has_status status i)) [
      | inl e ↦ rw e (ground (arith, e), All-own tenant status is)
      | inr e ↦ rw e (All-own tenant status is)
    ]

abbrev listed : Result (List Invoice) → List Invoice
listed (ok is) = is
listed (err e) = []

-- Every invoice that a call lists is of the tenant of the caller.
pub list_invoices-belongs :
    (u : User) (status : Option InvoiceStatus) (limit offset : ℕ) (w : World) (is : List Invoice)
    → (list_invoices u status limit offset w).0 ≡ ok is
    → All (λ i. belongs u i ≡ true) is
unfolding list_invoices list_for_tenant
list_invoices-belongs u status limit offset w is h = elim (Option-cases u.tenant_id) [
  | inl e ↦ subst (All (λ i. belongs u i ≡ true)) (ap listed (rw (list_invoices, e) at h)) tt
  | inr (tenant, e) ↦
      let own = λ (i : Invoice). opt_eq i.tenant_id (some tenant) ≡ true in
      subst (All (λ i. belongs u i ≡ true)) (ap listed (rw (list_invoices, e) at h)) (
        rw e (
          All-take own limit _ (
            All-drop own offset _
              (All-newest_first own _ (All-own tenant status w.session.invoices)))))
]

none_there :
    (id tenant : ℕ) (is : List Invoice)
    → any (λ (i : Invoice). i.id == id && opt_eq i.tenant_id (some tenant)) is ≡ false
    → find (λ (i : Invoice). i.id == id && opt_eq i.tenant_id (some tenant)) is ≡ none
none_there id tenant [] h = refl
none_there id tenant (i ∷ is) h = ground (arith, h, none_there id tenant is)

refused :
    (id : ℕ) (u : User) (w : World)
    → any (λ (i : Invoice). i.id == id && belongs u i) w.session.invoices ≡ false
    → ensure_tenant_invoice id u w ≡ (err not_found, w)
unfolding ensure_tenant_invoice get_for_tenant
refused id u w h = elim (Option-cases u.tenant_id) [
  | inl e ↦ rw e refl
  | inr (tenant, e) ↦ rw (e, none_there id tenant w.session.invoices (rw e at h)) refl
]

abbrev told : Bus → Suffix → User → Invoice → M Invoice
told bus suffix u i = publish bus (invoice_event suffix i u.id) >> pure i

stops :
    {A B : Type 0} (m : M A) (k : A → M B) (w : World)
    → m w ≡ (err not_found, w)
    → (m >>= k) w ≡ (err not_found, w)
stops {A} {B} m k w h =
    ap
      (λ (x : Result A × World). elim x.0 as (λ r. Result B × World) [
        | ok a ↦ k a x.1
        | err e ↦ (err e, x.1)
      ])
      h

-- A read asks for no permission, and the other calls for `billing:write`.
abbrev pub is_allowed : Permits → Call → Bool
is_allowed permits to_read = true
is_allowed permits to_issue = permits ("billing:write" ∷ [])
is_allowed permits to_pay = permits ("billing:write" ∷ [])
is_allowed permits to_void = permits ("billing:write" ∷ [])

-- The dependency of an endpoint, and then an endpoint that answers that there is none
guarded :
    (permits : Permits) (m : M Invoice) (w : World)
    → m w ≡ (err not_found, w)
    → (require permits ("billing:write" ∷ []) >> m) w
      ≡ (err (if permits ("billing:write" ∷ []) then not_found else forbidden), w)
unfolding require
guarded permits m w h = elim (Bool-cases (permits ("billing:write" ∷ []))) [
  | inl e ↦ rw e h
  | inr e ↦ rw e refl
]

-- Whatever a user asks of an invoice that is not of the user's tenant, to read, issue, pay or
-- void it, nothing changes, not even in the session, and no event goes out: the answer is that
-- there is none, or, if the user lacks the permission that the call asks for, that it is
-- forbidden.
pub call-belongs :
    (permits : Permits) (c : Call) (clock : ℕ) (bus : Bus) (id : ℕ) (u : User) (w : World)
    → any (λ (i : Invoice). i.id == id && belongs u i) w.session.invoices ≡ false
    → call permits c clock bus id u w
      ≡ (err (if is_allowed permits c then not_found else forbidden), w)
unfolding issue_tenant_invoice pay_tenant_invoice void_tenant_invoice
call-belongs permits to_read clock bus id u w h = refused id u w h
call-belongs permits to_issue clock bus id u w h =
    guarded permits
      (ensure_tenant_invoice id u >>= λ x. issue clock id >>= told bus Suffix.issued u) w
      (stops (ensure_tenant_invoice id u) (λ x. issue clock id >>= told bus Suffix.issued u) w
        (refused id u w h))
call-belongs permits to_pay clock bus id u w h =
    guarded permits
      (ensure_tenant_invoice id u >>= λ x. mark_paid clock id none >>= told bus Suffix.paid u) w
      (stops (ensure_tenant_invoice id u) (λ x. mark_paid clock id none >>= told bus Suffix.paid u)
        w (refused id u w h))
call-belongs permits to_void clock bus id u w h =
    guarded permits
      (ensure_tenant_invoice id u >>= λ x. void_invoice id >>= told bus Suffix.voided u) w
      (stops (ensure_tenant_invoice id u) (λ x. void_invoice id >>= told bus Suffix.voided u) w
        (refused id u w h))
