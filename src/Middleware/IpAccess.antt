-- ===== src/Middleware/IpAccess.antt =====
-- app/middleware/tenant_ip_access.py: per-tenant rules on the client's address. The addresses and
-- networks of Python's `ipaddress` and the rest of the application are parameters.
pub mod Decision
pub mod Rules
use text.Mathlib.Text.{◌==◌ as str_eq}
use async_fastapi_template.Prelude.{
  ℕ, String, Bool, true, false, not, ◌&&◌, ◌||◌, Option, none, some, List, [], ◌∷◌, ◌==◌, opt_eq,
  if◌then◌else◌, any, select,
}

-- `ip_rule_action`
pub data Action : Type 0 where
  allow deny : Action

abbrev pub action_eq : Action → Action → Bool
action_eq allow allow = true
action_eq deny deny = true
action_eq _ _ = false

-- `TenantIPRule`
pub record TenantIpRule : Type 0 where
  pub tenant_id : ℕ
  pub ip_or_cidr : String
  pub action : Action
  pub priority : ℕ

-- The `ipaddress` module and the text methods: `ip_address` and `ip_network`, `none` where they
-- raise `ValueError`, `x in network`, `"/" in s` and `s.split(",")[0].strip()`.
pub record Addresses : Type 1 where
  pub Address : Type 0
  pub Network : Type 0
  pub ip_address : String → Option Address
  pub ip_network : String → Option Network
  pub same_address : Address → Address → Bool
  pub contains : Network → Address → Bool
  pub has_slash : String → Bool
  pub first_of : String → String

-- The headers and the peer of a request; an absent header is the empty text.
pub record Client : Type 0 where
  pub forwarded : String
  pub host : Option String

-- `_parse_forwarded_for`
unfoldable pub parse_forwarded_for : Addresses → Client → Option String
parse_forwarded_for py c = if str_eq c.forwarded "" then c.host else some (py.first_of c.forwarded)

-- `_ip_matches_rule`
unfoldable pub ip_matches_rule : Addresses → String → TenantIpRule → Bool
ip_matches_rule py client rule = elim (py.ip_address client) [
  | none ↦ false
  | some ip ↦
      if py.has_slash rule.ip_or_cidr
      then elim (py.ip_network rule.ip_or_cidr) [ none ↦ false | some net ↦ py.contains net ip ]
      else elim (py.ip_address rule.ip_or_cidr) [
        | none ↦ false
        | some other ↦ py.same_address ip other
      ]
]

-- `matched_deny` and `matched_allow`
unfoldable pub matched : Addresses → String → Action → List TenantIpRule → Bool
unfolding ip_matches_rule
matched py client action = any (λ r. action_eq r.action action && ip_matches_rule py client r)

-- The tests of `dispatch` on the rules of the tenant
unfoldable pub decide_access : Addresses → String → List TenantIpRule → Bool
unfolding matched
decide_access py client [] = true
decide_access py client (rule ∷ rules) =
    if matched py client deny (rule ∷ rules) then false else matched py client allow (rule ∷ rules)

abbrev pub truthy_text : Option String → Option String
truthy_text none = none
truthy_text (some t) = if str_eq t "" then none else some t

-- `TenantIPAccessMiddleware.dispatch`: whether the request goes on. The order of the query does not
-- matter to the tests.
unfoldable pub dispatch : Addresses → Bool → Option ℕ → Client → List TenantIpRule → Bool
unfolding parse_forwarded_for decide_access
dispatch py testing tenant client rows = if testing then true else elim tenant [
  | none ↦ true
  | some id ↦ elim (truthy_text (parse_forwarded_for py client)) [
    | none ↦ true
    | some ip ↦ decide_access py ip (select (λ (r : TenantIpRule). r.tenant_id == id) rows)
  ]
]
