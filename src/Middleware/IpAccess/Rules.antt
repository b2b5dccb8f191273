-- ===== src/Middleware/IpAccess/Rules.antt =====
-- app/identity/api/endpoints/tenant_ip_rules.py and app/identity/crud/tenant_ip_rule.py: the
-- rules that superusers keep. Rules of one priority come in any order, so the order of the table
-- does not count. Priorities below 0 are left out, and so is the key to the table of tenants.
use async_fastapi_template.Prelude.{
  ℕ, String, ◌+◌, ◌==◌, not, Option, none, some, List, [], ◌∷◌, map, find, select, take, drop, ltb,
  if◌then◌else◌,
}
use async_fastapi_template.Identity.Model.{User}
use async_fastapi_template.Identity.Security.{Reply, ok, fail, forbidden, not_found}
use async_fastapi_template.Middleware.IpAccess.{Action, TenantIpRule}

-- A row: `rule` holds the columns that the middleware reads.
pub record RuleRow : Type 0 where
  pub id : ℕ
  pub rule : TenantIpRule
  pub description : Option String

pub record Rules : Type 0 where
  pub rows : List RuleRow
  pub next_id : ℕ

-- `IPRuleCreate`
pub record IpRuleCreate : Type 0 where
  pub rule : TenantIpRule
  pub description : Option String

-- `IPRuleUpdate`
pub record IpRuleUpdate : Type 0 where
  pub new_ip_or_cidr : Option String
  pub new_action : Option Action
  pub new_priority : Option ℕ
  pub new_description : Option String

-- What the middleware's query reads
abbrev pub rules_of : Rules → List TenantIpRule
rules_of s = map (λ (r : RuleRow). r.rule) s.rows

-- `create_ip_rule`
unfoldable pub create_ip_rule : User → IpRuleCreate → Rules → Reply RuleRow × Rules
create_ip_rule u body s =
    if not u.is_superuser
    then (fail forbidden, s)
    else (let row : RuleRow = record {
      id = s.next_id;
      rule = body.rule;
      description = body.description;
    } in
        (ok row, record { rows = row ∷ s.rows; next_id = s.next_id + 1 }))

-- `order_by(TenantIPRule.priority.desc())`
abbrev pub add_sorted : RuleRow → List RuleRow → List RuleRow
add_sorted r [] = r ∷ []
add_sorted r (x ∷ rows) =
    let rest = add_sorted r rows in
    if ltb r.rule.priority x.rule.priority then x ∷ rest else r ∷ x ∷ rows

abbrev pub by_priority : List RuleRow → List RuleRow
by_priority [] = []
by_priority (r ∷ rows) = add_sorted r (by_priority rows)

-- `get_multi_by_tenant`
unfoldable pub get_multi_by_tenant : ℕ → ℕ → ℕ → List RuleRow → List RuleRow
get_multi_by_tenant tenant_id skip limit rows =
    take limit
      (drop skip (by_priority (select (λ (r : RuleRow). r.rule.tenant_id == tenant_id) rows)))

-- `list_ip_rules`
unfoldable pub list_ip_rules : User → Option ℕ → ℕ → ℕ → Rules → Reply (List RuleRow)
unfolding get_multi_by_tenant
list_ip_rules u tenant_id skip limit s =
    if not u.is_superuser
    then fail forbidden
    else elim tenant_id [ none ↦ ok [] | some id ↦ ok (get_multi_by_tenant id skip limit s.rows) ]

-- `CRUDTenantIPRule.get`
abbrev pub get_rule : ℕ → List RuleRow → Option RuleRow
get_rule id rows = find (λ (r : RuleRow). r.id == id) rows

-- `get_ip_rule`
unfoldable pub get_ip_rule : User → ℕ → Rules → Reply RuleRow
get_ip_rule u id s =
    if not u.is_superuser
    then fail forbidden
    else elim (get_rule id s.rows) [ none ↦ fail not_found | some r ↦ ok r ]

abbrev pub or_old : {A : Type 0} → Option A → A → A
or_old none a = a
or_old (some b) a = b

abbrev pub or_kept : {A : Type 0} → Option A → Option A → Option A
or_kept none a = a
or_kept (some b) a = some b

-- The assignments of `CRUDTenantIPRule.update`
abbrev pub updated : IpRuleUpdate → RuleRow → RuleRow
updated body r = record r {
  rule = record (r.rule) {
    ip_or_cidr = or_old body.new_ip_or_cidr r.rule.ip_or_cidr;
    action = or_old body.new_action r.rule.action;
    priority = or_old body.new_priority r.rule.priority;
  };
  description = or_kept body.new_description r.description;
}

-- `update_ip_rule`
unfoldable pub update_ip_rule : User → ℕ → IpRuleUpdate → Rules → Reply RuleRow × Rules
update_ip_rule u id body s =
    if not u.is_superuser then (fail forbidden, s) else elim (get_rule id s.rows) [
      | none ↦ (fail not_found, s)
      | some r ↦ (
        ok (updated body r),
        record s {
          rows = map (λ (x : RuleRow). if x.id == r.id then updated body r else x) s.rows;
        },
      )
    ]

-- `delete_ip_rule`
unfoldable pub delete_ip_rule : User → ℕ → Rules → Reply (Unit {0}) × Rules
delete_ip_rule u id s =
    if not u.is_superuser then (fail forbidden, s) else elim (get_rule id s.rows) [
      | none ↦ (fail not_found, s)
      | some r ↦ (ok tt, record s { rows = select (λ (x : RuleRow). not (x.id == r.id)) s.rows })
    ]
