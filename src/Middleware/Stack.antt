-- ===== src/Middleware/Stack.antt =====
-- The stack of app/main.py, of which app/middleware/tenant.py and tenant_ip_access.py depend on
-- their order. That `add_middleware` puts a layer around those that were added before it is a law
-- of Starlette, which is a parameter. A layer reads the tenant of the request
-- (app/core/tenant.py) and runs the rest with one. The tables and the rest of the application are
-- parameters; a header is its number, if it has only digits.
pub mod Order
use async_fastapi_template.Prelude.{
  ℕ, ◌≡◌, Bool, true, false, Option, none, some, List, [], ◌∷◌, if◌then◌else◌,
}
use async_fastapi_template.Middleware.IpAccess
use async_fastapi_template.Middleware.IpAccess.{Addresses, Client, TenantIpRule}

-- An application under the tenant that `get_current_tenant` returns
abbrev pub App : Type 0 → Type 0
App R = Option ℕ → R

abbrev pub Layer : Type 0 → Type 0
Layer R = App R → App R

-- Starlette: an application with the layers that were added to it, and how it serves a request
pub record Starlette (R : Type 0) : Type 1 where
  pub Built : Type 0
  pub add_middleware : Layer R → Built → Built
  pub serve : Built → App R
  pub serve_added : (layer : Layer R) (b : Built) → serve (add_middleware layer b) ≡ layer (serve b)

-- The tenant that `TenantMiddleware.dispatch` finds: the header's, or the default one
abbrev pub resolve_tenant : Option ℕ → Option ℕ → Option ℕ
resolve_tenant none default_tenant = default_tenant
resolve_tenant (some id) default_tenant = some id

-- `TenantMiddleware.dispatch`
unfoldable pub tenant_layer : {R : Type 0} → Option ℕ → Option ℕ → Layer R
tenant_layer header default_tenant app tenant = app (resolve_tenant header default_tenant)

-- `TenantIPAccessMiddleware.dispatch` with its answer
unfoldable pub ip_layer : {R : Type 0} → Addresses → Bool → Client → List TenantIpRule → R → Layer R
ip_layer py testing client rows refusal app tenant =
    if IpAccess.dispatch py testing tenant client rows then app tenant else refusal

-- The two calls of `add_middleware` in `create_app`, in their order
unfoldable pub create_app :
    {R : Type 0} (server : Starlette R) (tenants addresses : Layer R) → server.Built → App R
create_app server tenants addresses inner =
    server.serve (server.add_middleware addresses (server.add_middleware tenants inner))
