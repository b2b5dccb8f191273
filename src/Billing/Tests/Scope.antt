-- ===== src/Billing/Tests/Scope.antt =====
-- A user of one tenant asks for an invoice of another.
use async_fastapi_template.Prelude.{◌≡◌, refl, true, some, [], ◌∷◌}
use async_fastapi_template.Billing.Model.{open_}
use async_fastapi_template.Billing.Session.{User, World, not_found, err}
use async_fastapi_template.Billing.Endpoints.Invoices.Scope.{to_pay, call, call-belongs}
use async_fastapi_template.Billing.Tests.Data.{bill, world, bus}

abbrev stranger : User
stranger = record { id = 2; tenant_id = some 8; is_active = true; is_superuser = true }

abbrev billed : World
billed = world [] (bill open_ ∷ [])

call-belongs_example :
    call (λ required. true) to_pay 1000 bus 3 stranger billed ≡ (err not_found, billed)
call-belongs_example = call-belongs (λ required. true) to_pay 1000 bus 3 stranger billed refl
