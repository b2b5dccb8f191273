-- ===== src/Billing/Tests/Events.antt =====
-- Stripe events on concrete rows.
use async_fastapi_template.Prelude.{String, ◌≡◌, refl, none, some, [], ◌∷◌}
use async_fastapi_template.Billing.Session.{integrity}
use async_fastapi_template.Billing.Json.{num, str, obj, Fields, end, field, Python, to_text, get_or}
use async_fastapi_template.Billing.Stripe.{duplicate, receive}
use async_fastapi_template.Billing.Stripe.Replay.{receive_idempotent}
use async_fastapi_template.Billing.Tests.Data.{owing, world, bus, config}

abbrev python : Python
python = record { repr = λ v. ""; int_of = λ s. none }

abbrev says : String → Fields
says status = field "id" (str "sub_1") (
    field "status" (str status)
      (field "current_period_start" (num 1) (field "current_period_end" (num 100) end)))

abbrev update : Fields
update = field "id" (str "evt_1") (
    field "type" (str "customer.subscription.updated")
      (field "data" (obj (field "object" (obj (says "active")) end)) end))

receive_idempotent_example :
    let w' = (receive python config (some bus) update (world (owing ∷ []) [])).1 in
    receive python config none update w' ≡ (duplicate, w')
unfolding integrity to_text get_or
receive_idempotent_example =
    receive_idempotent python config config (some bus) none update (world (owing ∷ []) []) refl refl
      refl refl
