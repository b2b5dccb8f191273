-- ===== src/Billing/Dunning/Publish.antt =====
-- Publishing to the recipients writes to no table.
use async_fastapi_template.Prelude.{ℕ, ◌≡◌, refl, Option, none, some, List, [], ◌∷◌, arith}
use async_fastapi_template.Billing.Model.{Subscription}
use async_fastapi_template.Billing.Session.{World, Bus, Suffix, publish}
use async_fastapi_template.Billing.Dunning.{
  publish_to_recipients, publish_each, resolve_recipients, dunning_event,
}

publish_each-tables :
    (bus : Bus) (suffix : Suffix) (s : Subscription) (uids : List ℕ) (w : World)
    → ((publish_each bus suffix s uids w).1.stored ≡ w.stored)
      × ((publish_each bus suffix s uids w).1.session ≡ w.session)
unfolding publish_each
publish_each-tables bus suffix s [] w = (refl, refl)
publish_each-tables bus suffix s (uid ∷ uids) w = ground (
  arith,
  publish_each-tables bus suffix s uids w,
  publish_each-tables bus suffix s uids (publish bus (dunning_event suffix s uid) w).1,
)

pub publish_to_recipients-tables :
    (bus : Option Bus) (suffix : Suffix) (s : Subscription) (w : World)
    → ((publish_to_recipients bus suffix s w).1.stored ≡ w.stored)
      × ((publish_to_recipients bus suffix s w).1.session ≡ w.session)
unfolding publish_to_recipients
publish_to_recipients-tables none suffix s w = (refl, refl)
publish_to_recipients-tables (some bus) suffix s w =
    ground (arith, publish_each-tables bus suffix s (resolve_recipients w.session s.tenant_id) w)
