-- ===== src/Middleware/Tests.antt =====
-- Concrete requests, rules and addresses.
mod Limits
use text.Mathlib.Text.{◌==◌ as str_eq}
use async_fastapi_template.Prelude.{
  Text, String, ◌≡◌, ◌↔◌, ◌⊎◌, refl, true, false, none, some, List, [], ◌∷◌, ◌++◌,
}
use async_fastapi_template.Middleware.Csrf.{Hmac, make_token, verify_token, post, Request, passed}
use async_fastapi_template.Middleware.Csrf.Guard.{IsTrusted, dispatch_guards}
use async_fastapi_template.Identity.Model.{User}
use async_fastapi_template.Identity.Tests.Fixtures.{ada}
use async_fastapi_template.Middleware.IpAccess.{
  allow, deny, TenantIpRule, Addresses, Client, decide_access, ip_matches_rule, truthy_text,
  parse_forwarded_for,
}
use async_fastapi_template.Middleware.Stack.{App, Starlette, tenant_layer, ip_layer, create_app}
use async_fastapi_template.Middleware.Stack.Order.{create_app-dispatch}
use async_fastapi_template.Prelude.{if◌then◌else◌}
use async_fastapi_template.Middleware.IpAccess.Rules.{Rules, IpRuleCreate, rules_of, create_ip_rule}
use async_fastapi_template.Middleware.IpAccess.Decision.{Some, Applies, decide_access_iff}

abbrev hash : Hmac
hash secret value = secret ++ value

abbrev raw : Text
raw = 1 ∷ 2 ∷ 3 ∷ 4 ∷ 5 ∷ 6 ∷ 7 ∷ 8 ∷ 1 ∷ 2 ∷ 3 ∷ 4 ∷ 5 ∷ 6 ∷ 7 ∷ 8 ∷ []

abbrev secret : Text
secret = 9 ∷ 9 ∷ []

abbrev form : Request
form = record {
  path = "/admin/users";
  method = post;
  cookie = raw ++ hash secret raw;
  header = [];
  form = raw;
  body = 1 ∷ [];
}

dispatch_guards_example :
    (async_fastapi_template.Middleware.Csrf.dispatch hash secret raw (λ (r : Request). r.path) form
      ≡ passed "/admin/users" none)
    ↔ IsTrusted hash secret form
dispatch_guards_example = dispatch_guards hash secret raw (λ (r : Request). r.path) form refl refl

-- Addresses as texts, and a network as the one address that it holds.
abbrev texts : Addresses
texts = record {
  Address = String;
  Network = String;
  ip_address = λ s. some s;
  ip_network = λ s. none;
  same_address = str_eq;
  contains = str_eq;
  has_slash = λ s. false;
  first_of = λ s. s;
}

abbrev denial : IpRuleCreate
denial = record {
  rule = record { tenant_id = 7; ip_or_cidr = "10.0.0.9"; action = deny; priority = 0 };
  description = none;
}

abbrev caller : Client
caller = record { forwarded = ""; host = some "10.0.0.9" }

matches : ip_matches_rule texts "10.0.0.9" denial.rule ≡ true
unfolding ip_matches_rule
matches = refl

comes_from : truthy_text (parse_forwarded_for texts caller) ≡ some "10.0.0.9"
unfolding parse_forwarded_for
comes_from = refl

abbrev denied : Rules
denied = record {
  rows = record { id = 1; rule = denial.rule; description = none } ∷ [];
  next_id = 2;
}

-- A server that keeps the layers as one function
abbrev server : Starlette String
server = record {
  Built = App String;
  add_middleware = λ layer b. layer b;
  serve = λ b. b;
  serve_added = λ layer b. refl;
}

create_app-dispatch_example :
    let tenants = tenant_layer {R = String} (some 7) none in
    let addresses = ip_layer {R = String} texts false caller (rules_of denied) "refused" in
    (create_app server tenants addresses (λ tenant. "answer") none ≡ "answer")
    × (create_app server addresses tenants (λ tenant. "answer") none ≡ (
        if async_fastapi_template.Middleware.IpAccess.dispatch texts false
          (some 7)
          caller
          (rules_of denied)
        then "answer"
        else "refused"))
create_app-dispatch_example =
    create_app-dispatch server texts false caller (rules_of denied) "refused" (some 7) none
      (λ tenant. "answer")
