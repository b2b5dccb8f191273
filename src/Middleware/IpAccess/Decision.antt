-- ===== src/Middleware/IpAccess/Decision.antt =====
-- The ordering that app/middleware/tenant_ip_access.py documents.
use async_fastapi_template.Prelude.{
  String, ◌≡◌, refl, ◌↔◌, ◌⊎◌, inl, inr, true, ◌&&◌, List, [], ◌∷◌, Bool-cases, arith,
}
use async_fastapi_template.Middleware.IpAccess.{
  Action, allow, deny, action_eq, TenantIpRule, Addresses, ip_matches_rule, matched, decide_access,
}

-- Some rule of the list has the property.
abbrev pub Some : (TenantIpRule → Type 0) → List TenantIpRule → Type 0
Some P [] = ⊥
Some P (r ∷ rules) = P r ⊎ Some P rules

module _ (py : Addresses) (client : String) where
  abbrev pub Applies : Action → TenantIpRule → Type 0
  Applies action r = (r.action ≡ action) × (ip_matches_rule py client r ≡ true)

  action_eq→≡ : (a b : Action) → action_eq a b ≡ true → a ≡ b
  action_eq→≡ allow allow e = refl
  action_eq→≡ deny deny e = refl
  action_eq→≡ allow deny e = absurd cc
  action_eq→≡ deny allow e = absurd cc

  action_eq_self : (a : Action) → action_eq a a ≡ true
  action_eq_self allow = refl
  action_eq_self deny = refl

  matched→Some :
      (action : Action) (rules : List TenantIpRule)
      → matched py client action rules ≡ true
      → Some (Applies action) rules
  unfolding matched
  matched→Some action [] e = absurd cc
  matched→Some action (r ∷ rules) e =
      elim (Bool-cases (action_eq r.action action && ip_matches_rule py client r)) [
        | inl h ↦ inl (action_eq→≡ r.action action (ground (arith, h)), ground (arith, h))
        | inr h ↦ inr (matched→Some action rules (ground (arith, e, h)))
      ]

  Some→matched :
      (action : Action) (rules : List TenantIpRule)
      → Some (Applies action) rules
      → matched py client action rules ≡ true
  unfolding matched
  Some→matched action [] s = absurd s
  Some→matched action (r ∷ rules) (inl (e, m)) = rw (e, m, action_eq_self action) refl
  Some→matched action (r ∷ rules) (inr s) = ground (arith, Some→matched action rules s)

  -- A client passes the rules of its tenant if and only if there are none, or no deny rule
  -- applies to its address and some allow rule does: a deny rule wins whatever its priority.
  pub decide_access_iff :
      (rules : List TenantIpRule)
      → (decide_access py client rules ≡ true)
        ↔ ((rules ≡ []) ⊎ (¬ Some (Applies deny) rules × Some (Applies allow) rules))
  unfolding decide_access
  decide_access_iff [] = ((λ e. inl refl), λ s. refl)
  decide_access_iff (r ∷ rules) =
      let rs = r ∷ rules in
      (
        (λ e. inr (
          (λ d. absurd (ground (arith, e, Some→matched deny rs d))),
          matched→Some allow rs (ground (arith, e)),
        )),
        λ s. elim s [
          | inl e ↦ absurd cc
          | inr (d, a) ↦ elim (Bool-cases (matched py client deny rs)) [
            | inl m ↦ absurd (d (matched→Some deny rs m))
            | inr m ↦ rw m (Some→matched allow rs a)
          ]
        ],
      )
