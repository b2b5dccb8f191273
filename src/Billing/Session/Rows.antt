-- ===== src/Billing/Session/Rows.antt =====
-- The rows of the subscription table under lookups and replacements, and the unique indexes.
use async_fastapi_template.Prelude.{
  ℕ, ◌≡◌, refl, ap, sym, ◌∙◌, ◌≢◌, ◌⊎◌, inl, inr, Bool, true, false, some, List, [], ◌∷◌, map, ◌==◌,
  if◌then◌else◌, find_last, All, arith, Option-cases,
}
use async_fastapi_template.Billing.Model.{Subscription, is_live}
use async_fastapi_template.Billing.Session.{
  Tables, unique, integrity, live_clash, stripe_clash, put_subscription,
}
use async_fastapi_template.Billing.Session.Unique.{unique-map}

-- No two rows have one id: the primary key.
abbrev pub HasDistinctIds : List Subscription → Type 0
HasDistinctIds [] = Unit
HasDistinctIds (r ∷ rows) = All (λ (x : Subscription). x.id ≢ r.id) rows × HasDistinctIds rows

pub put-absent :
    (s : Subscription) (rows : List Subscription)
    → All (λ (x : Subscription). x.id ≢ s.id) rows
    → put_subscription s rows ≡ rows
put-absent s [] h = refl
put-absent s (r ∷ rows) h = ground (arith, put-absent s rows h.1)

-- The row is in the table.
abbrev pub Has : Subscription → List Subscription → Type 0
Has s [] = ⊥
Has s (r ∷ rows) = (r ≡ s) ⊎ Has s rows

pub find_last-Has :
    (p : Subscription → Bool) (s : Subscription) (rows : List Subscription)
    → find_last p rows ≡ some s
    → Has s rows × (p s ≡ true)
find_last-Has p s [] h = absurd (cc)
find_last-Has p s (r ∷ rows) h = elim (Option-cases (find_last p rows)) [
  | inl e ↦ (inl (ground arith), ground arith)
  | inr (y, e) ↦
      let found : find_last p rows ≡ some s = ground arith in
      let (has, is) = find_last-Has p s rows found in (inr has, is)
]

pub put-put :
    (s s' : Subscription) (rows : List Subscription)
    → s'.id ≡ s.id
    → put_subscription s (put_subscription s' rows) ≡ put_subscription s rows
put-put s s' [] h = refl
put-put s s' (r ∷ rows) h = ground (arith, put-put s s' rows h)

All-Has :
    (n : ℕ) (s : Subscription) (rows : List Subscription)
    → All (λ (x : Subscription). x.id ≢ n) rows
    → Has s rows
    → s.id ≢ n
All-Has n s [] a h = absurd h
All-Has n s (r ∷ rows) a (inl e) = rw (← e) a.0
All-Has n s (r ∷ rows) a (inr h) = All-Has n s rows a.1 h

-- Replacing a row by itself changes nothing.
pub put_self :
    (s : Subscription) (rows : List Subscription)
    → HasDistinctIds rows
    → Has s rows
    → put_subscription s rows ≡ rows
put_self s [] d h = refl
put_self s (r ∷ rows) d (inl e) =
    ground (arith, put-absent s rows (rw (ap (λ (x : Subscription). x.id) e) at d.0))
put_self s (r ∷ rows) d (inr h) =
    let other : s.id ≢ r.id = All-Has r.id s rows d.0 h in ground (arith, put_self s rows d.1 h)

pub find_last-put :
    (p : Subscription → Bool) (s s' : Subscription) (rows : List Subscription)
    → HasDistinctIds rows
    → s'.id ≡ s.id
    → p s' ≡ true
    → find_last p rows ≡ some s
    → find_last p (put_subscription s' rows) ≡ some s'
find_last-put p s s' [] d e ps h = absurd (cc)
find_last-put p s s' (r ∷ rows) d e ps h = elim (Option-cases (find_last p rows)) [
  | inl n ↦
      let same : r ≡ s = ground arith in
      let id : r.id ≡ s'.id = ap (λ (x : Subscription). x.id) same ∙ sym e in
      let rest : put_subscription s' rows ≡ rows = put-absent s' rows (rw id at d.0) in ground arith
  | inr (y, f) ↦ ground (arith, find_last-put p s s' rows d.1 e ps)
]

module _ (s : Subscription) where
  -- The row may be replaced by `s`: the tenant and the Stripe id stay, and a row that is not live
  -- does not become live.
  abbrev pub Covers : Subscription → Type 0
  Covers r =
      (r.id == s.id) ≡ true
      → (r.tenant_id ≡ s.tenant_id)
        × (r.stripe_subscription_id ≡ s.stripe_subscription_id)
        × (is_live s ≡ true → is_live r ≡ true)

  replaced : Subscription → Subscription
  replaced r = if r.id == s.id then s else r

  live-replaced :
      (x r : Subscription)
      → Covers x
      → Covers r
      → live_clash x r ≡ false
      → live_clash (replaced x) (replaced r) ≡ false
  unfolding replaced
  live-replaced x r hx hr h = ground (arith, hx, hr)

  stripe-replaced :
      (x r : Subscription)
      → Covers x
      → Covers r
      → stripe_clash x r ≡ false
      → stripe_clash (replaced x) (replaced r) ≡ false
  unfolding replaced
  stripe-replaced x r hx hr h = ground (arith, hx, hr)

  put-eq-map : (rows : List Subscription) → put_subscription s rows ≡ map replaced rows
  unfolding replaced
  put-eq-map [] = refl
  put-eq-map (r ∷ rows) = ap (λ xs. replaced r ∷ xs) (put-eq-map rows)

  -- Such a replacement keeps the unique indexes.
  pub put_subscription-integrity :
      (t : Tables)
      → All Covers t.subscriptions
      → integrity t ≡ true
      → integrity (record t { subscriptions = put_subscription s t.subscriptions }) ≡ true
  unfolding integrity
  put_subscription-integrity t h k =
      let rows = t.subscriptions in
      let u : unique live_clash (put_subscription s rows) ≡ true =
        rw (put-eq-map rows)
          (unique-map replaced live_clash Covers live-replaced rows h (ground arith)) in
      let v : unique stripe_clash (put_subscription s rows) ≡ true =
        rw (put-eq-map rows)
          (unique-map replaced stripe_clash Covers stripe-replaced rows h (ground arith)) in
      ground arith

absent-Covers :
    (s : Subscription) (rows : List Subscription)
    → All (λ (x : Subscription). x.id ≢ s.id) rows
    → All (Covers s) rows
absent-Covers s [] h = tt
absent-Covers s (r ∷ rows) h = ((λ e. absurd (h.0 (ground arith))), absent-Covers s rows h.1)

-- A row of the table may be replaced by one that keeps its id, tenant and Stripe id, and that is
-- live only if it was.
pub Has-Covers :
    (old s : Subscription) (rows : List Subscription)
    → HasDistinctIds rows
    → Has old rows
    → old.id ≡ s.id
    → old.tenant_id ≡ s.tenant_id
    → old.stripe_subscription_id ≡ s.stripe_subscription_id
    → (is_live s ≡ true → is_live old ≡ true)
    → All (Covers s) rows
Has-Covers old s [] d h i t k l = tt
Has-Covers old s (r ∷ rows) d (inl e) i t k l =
    let id : r.id ≡ s.id = ap (λ (x : Subscription). x.id) e ∙ i in
    (
      λ _. (ground arith, ground arith, λ live. ground (arith, l live)),
      absent-Covers s rows (rw id at d.0),
    )
Has-Covers old s (r ∷ rows) d (inr h) i t k l =
    let other : old.id ≢ r.id = All-Has r.id old rows d.0 h in
    ((λ e. absurd (other (ground arith))), Has-Covers old s rows d.1 h i t k l)
