-- ===== src/Middleware/Stack/Order.antt =====
-- What the order of the layers decides.
use async_fastapi_template.Prelude.{
  ℕ, ◌≡◌, refl, ap, ◌∙◌, Bool, true, Option, none, List, if◌then◌else◌, Bool-cases, inl, inr,
}
use async_fastapi_template.Middleware.IpAccess.{Addresses, Client, TenantIpRule, dispatch}
use async_fastapi_template.Middleware.Stack.{
  Layer, Starlette, resolve_tenant, tenant_layer, ip_layer, create_app,
}

module _ {R : Type 0} (server : Starlette R) (py : Addresses) (testing : Bool) (client : Client)
    (rows : List TenantIpRule) (refusal : R) where
  unset : dispatch py testing none client rows ≡ true
  unfolding dispatch
  unset = elim (Bool-cases testing) [
    | inl e ↦ rw (dispatch, e) refl
    | inr e ↦ rw (dispatch, e) refl
  ]

  served :
      (outer next : Layer R) (inner : server.Built)
      → server.serve (server.add_middleware outer (server.add_middleware next inner))
        ≡ outer (next (server.serve inner))
  served outer next inner =
      server.serve_added outer (server.add_middleware next inner)
      ∙ ap outer (server.serve_added next inner)

  -- A request that comes in without a tenant: as the layers are added, it is answered under the
  -- tenant of its header or the default one, whatever the rules on addresses say; with the two
  -- layers the other way round, it is refused exactly if the rules of that tenant refuse it.
  pub create_app-dispatch :
      (header default_tenant : Option ℕ) (inner : server.Built)
      → let tenants = tenant_layer header default_tenant in
        let addresses = ip_layer py testing client rows refusal in
        let tenant = resolve_tenant header default_tenant in
        (create_app server tenants addresses inner none ≡ server.serve inner tenant)
        × (create_app server addresses tenants inner none ≡ (
            if dispatch py testing tenant client rows then server.serve inner tenant else refusal))
  unfolding create_app tenant_layer ip_layer
  create_app-dispatch header default_tenant inner =
      let tenants = tenant_layer header default_tenant in
      let addresses = ip_layer py testing client rows refusal in
      (rw (served addresses tenants inner, unset) refl, rw (served tenants addresses inner) refl)
