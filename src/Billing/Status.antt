-- ===== src/Billing/Status.antt =====
-- The subscription and invoice state machines: `ALLOWED_TRANSITIONS` and the assertions of
-- app/billing/services/billing.py and app/billing/services/invoicing.py.
use async_fastapi_template.Prelude.{Bool, true, false, ◌≡◌, refl, ◌↔◌, arith}
use async_fastapi_template.Billing.Model.{
  Status, trialing, active, past_due, canceled, suspended, is_live_status, InvoiceStatus, draft,
  open_, paid, void,
}

-- `target in ALLOWED_TRANSITIONS[current]`
unfoldable pub allowed : Status → Status → Bool
allowed trialing active = true
allowed trialing past_due = true
allowed trialing canceled = true
allowed active past_due = true
allowed active canceled = true
allowed past_due active = true
allowed past_due canceled = true
allowed past_due suspended = true
allowed _ _ = false

-- `target in ALLOWED_TRANSITIONS[current]` of the invoices
unfoldable pub invoice_allowed : InvoiceStatus → InvoiceStatus → Bool
invoice_allowed draft open_ = true
invoice_allowed draft void = true
invoice_allowed open_ paid = true
invoice_allowed open_ void = true
invoice_allowed _ _ = false

-- The diagram that the docstring of `SubscriptionStatus` draws.
infix 40 ◌⟶◌ ◌⟶*◌
pub data ◌⟶◌ : Status → Status → Type 0 where
  start : trialing ⟶ active
  trial_fails : trialing ⟶ past_due
  trial_ends : trialing ⟶ canceled
  fail : active ⟶ past_due
  quit : active ⟶ canceled
  recover : past_due ⟶ active
  give_up : past_due ⟶ canceled
  suspend : past_due ⟶ suspended

pub data ◌⟶*◌ : Status → Status → Type 0 where
  here : {s : Status} → s ⟶* s
  next : {s t u : Status} → s ⟶ t → t ⟶* u → s ⟶* u

pub ruleset edges = (start, trial_fails, trial_ends, fail, quit, recover, give_up, suspend)

pub allowed-⟶ : (s t : Status) → allowed s t ≡ true → s ⟶ t
unfolding allowed
allowed-⟶ s t h = grind (arith, edges)

pub ⟶-allowed : {s t : Status} → s ⟶ t → allowed s t ≡ true
unfolding allowed
⟶-allowed start = refl
⟶-allowed trial_fails = refl
⟶-allowed trial_ends = refl
⟶-allowed fail = refl
⟶-allowed quit = refl
⟶-allowed recover = refl
⟶-allowed give_up = refl
⟶-allowed suspend = refl

-- The table of the service allows exactly the transitions of the model's documented diagram.
pub allowed_iff : (s t : Status) → (allowed s t ≡ true) ↔ (s ⟶ t)
allowed_iff s t = (allowed-⟶ s t, ⟶-allowed)

-- A subscription that is not live has no transition left.
pub dead-⟶ : {s t : Status} → s ⟶ t → is_live_status s ≡ true
dead-⟶ start = refl
dead-⟶ trial_fails = refl
dead-⟶ trial_ends = refl
dead-⟶ fail = refl
dead-⟶ quit = refl
dead-⟶ recover = refl
dead-⟶ give_up = refl
dead-⟶ suspend = refl

-- A subscription that is not live stays in its status along any path of transitions.
pub dead_absorbs : {s t : Status} → is_live_status s ≡ false → s ⟶* t → t ≡ s
dead_absorbs h here = refl
dead_absorbs h (next e r) = absurd (cc (dead-⟶ e))
