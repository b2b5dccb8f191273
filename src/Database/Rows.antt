-- ===== src/Database/Rows.antt =====
-- What the tenant filter keeps apart.
use async_fastapi_template.Prelude.{
  All, any, ℕ, String, ◌≡◌, refl, ap, ◌∙◌, Bool, true, false, not, ◌&&◌, opt_eq, Option, none, some,
  List, [], ◌∷◌, ◌++◌, select, map, if◌then◌else◌, Bool-cases, inl, inr, arith, ==_self,
}
use text.Mathlib.Text.{◌==◌ as str_eq}
use async_fastapi_template.Database.{
  From, plain, joining, label, labelled, in_join, tenant_key, Table, Row, Joined, Condition,
  all_hold, Statement, selects, inserts, updates, deletes, others, has_tenant, filter_first,
  carries, apply_tenant_filter, add_tenant_filter, query, execute, alone, inserted,
}

-- Whether a row is of a tenant
abbrev pub is_of : ℕ → Row → Bool
is_of tenant r = opt_eq (r "tenant_id") (some tenant)

abbrev pub foreign : ℕ → List Row → List Row
foreign tenant rows = select (λ r. not (is_of tenant r)) rows

-- The first plain table of a query that has a tenant; explicit joins do not count.
abbrev pub first_tenant : List From → Option Table
first_tenant [] = none
first_tenant (plain t ∷ fs) = if has_tenant t then some t else first_tenant fs
first_tenant (joining ts ∷ fs) = first_tenant fs

-- No column of an explicit join has `tenant_id` as its key there.
abbrev pub IsPrefixed : From → Type 0
IsPrefixed (plain t) = Unit
IsPrefixed (joining ts) =
    All (λ (t : Table). any (λ c. str_eq (label t.name c) "tenant_id") t.columns ≡ false) ts

abbrev pub seen : ℕ → Option Table → Joined → Bool
seen tenant none j = true
seen tenant (some t) j = is_of tenant (j t.name)

unlabelled :
    (t : String) (columns : List String)
    → any (λ c. str_eq (label t c) "tenant_id") columns ≡ false
    → labelled t columns ≡ none
unlabelled t [] h = refl
unlabelled t (c ∷ cs) h =
    let k : str_eq (label t c) "tenant_id" ≡ false = ground (arith, h) in
    rw k (unlabelled t cs (ground (arith, h)))

no_key :
    (ts : List Table)
    → All (λ (t : Table). any (λ c. str_eq (label t.name c) "tenant_id") t.columns ≡ false) ts
    → in_join ts ≡ none
unfolding in_join
no_key [] h = refl
no_key (t ∷ ts) h = rw (in_join, unlabelled t.name t.columns h.0) (no_key ts h.1)

filtered :
    (tenant : ℕ) (froms : List From) (cs : List Condition) (j : Joined)
    → All IsPrefixed froms
    → all_hold (filter_first tenant froms cs) j
      ≡ (seen tenant (first_tenant froms) j && all_hold cs j)
unfolding filter_first tenant_key
filtered tenant [] cs j h = refl
filtered tenant (plain t ∷ fs) cs j h = elim (Bool-cases (has_tenant t)) [
  | inl e ↦ rw (filter_first, tenant_key, e) refl
  | inr e ↦ rw (filter_first, tenant_key, e) (filtered tenant fs cs j h.1)
]
filtered tenant (joining ts ∷ fs) cs j h =
    rw (filter_first, tenant_key, no_key ts h.0) (filtered tenant fs cs j h.1)

select-and :
    (p q r : Joined → Bool) (rows : List Joined)
    → ((j : Joined) → r j ≡ (p j && q j))
    → select r rows ≡ select p (select q rows)
select-and p q r [] h = refl
select-and p q r (j ∷ rows) h = elim (Bool-cases (q j)) [
  | inl e ↦ elim (Bool-cases (p j)) [
    | inl f ↦
        let both : r j ≡ true = h j ∙ rw (e, f) refl in
        rw (e, f, both) (ap (λ t. j ∷ t) (select-and p q r rows h))
    | inr f ↦
        let both : r j ≡ false = h j ∙ rw (e, f) refl in rw (e, f, both) (select-and p q r rows h)
  ]
  | inr e ↦
      let both : r j ≡ false = h j ∙ rw e (ground arith) in rw (e, both) (select-and p q r rows h)
]

-- Under a tenant, a query returns those of its results in which the row of its first plain table
-- with a tenant column is of the tenant, and all its results if there is none. An explicit join
-- does not count: it has no tenant column under that key, if no name of a table and a column make
-- it up, and so is not filtered.
pub query-apply_tenant_filter :
    (tenant : ℕ) (froms : List From) (cs : List Condition) (rows : List Joined)
    → All IsPrefixed froms
    → query (apply_tenant_filter (some tenant) (selects froms cs)) rows
      ≡ select (seen tenant (first_tenant froms)) (query (selects froms cs) rows)
unfolding apply_tenant_filter query
query-apply_tenant_filter tenant froms cs rows h =
    select-and (seen tenant (first_tenant froms)) (all_hold cs)
      (all_hold (filter_first tenant froms cs)) rows (λ j. filtered tenant froms cs j h)

-- A statement that writes to a table with a tenant: an insertion carries no tenant of its own, and
-- an update leaves the tenant of each row as it is.
pub data IsWrite : Statement → Type 0 where
  inserting :
      (t : Table) (values : List (String × ℕ))
      → has_tenant t ≡ true
      → carries "tenant_id" values ≡ false
      → IsWrite (inserts t values)
  updating :
      (t : Table) (cs : List Condition) (f : Row → Row)
      → has_tenant t ≡ true
      → ((r : Row) → f r "tenant_id" ≡ r "tenant_id")
      → IsWrite (updates t cs f)
  deleting : (t : Table) (cs : List Condition) → has_tenant t ≡ true → IsWrite (deletes t cs)

select-append :
    (p : Row → Bool) (xs ys : List Row) → select p (xs ++ ys) ≡ select p xs ++ select p ys
select-append p [] ys = refl
select-append p (x ∷ xs) ys = elim (Bool-cases (p x)) [
  | inl e ↦ rw e (ap (λ t. x ∷ t) (select-append p xs ys))
  | inr e ↦ rw e (select-append p xs ys)
]

append_nil : (xs : List Row) → xs ++ [] ≡ xs
append_nil [] = refl
append_nil (x ∷ xs) = ap (λ t. x ∷ t) (append_nil xs)

deleted :
    (tenant : ℕ) (cs : List Condition) (rows : List Row)
    → foreign tenant (select (λ r. not (is_of tenant r && all_hold cs (alone r))) rows)
      ≡ foreign tenant rows
deleted tenant cs [] = refl
deleted tenant cs (r ∷ rows) = elim (Bool-cases (is_of tenant r)) [
  | inl e ↦ elim (Bool-cases (all_hold cs (alone r))) [
    | inl f ↦ rw (e, f) (deleted tenant cs rows)
    | inr f ↦ rw (e, f, e) (deleted tenant cs rows)
  ]
  | inr e ↦ rw (e, e) (ap (λ t. r ∷ t) (deleted tenant cs rows))
]

updated :
    (tenant : ℕ) (cs : List Condition) (f : Row → Row) (rows : List Row)
    → ((r : Row) → f r "tenant_id" ≡ r "tenant_id")
    → foreign tenant (map (λ r. if is_of tenant r && all_hold cs (alone r) then f r else r) rows)
      ≡ foreign tenant rows
updated tenant cs f [] h = refl
updated tenant cs f (r ∷ rows) h =
    let kept : is_of tenant (f r) ≡ is_of tenant r = ap (λ x. opt_eq x (some tenant)) (h r) in
    elim (Bool-cases (is_of tenant r)) [
      | inl e ↦ elim (Bool-cases (all_hold cs (alone r))) [
        | inl g ↦ rw (e, g, kept, e) (updated tenant cs f rows h)
        | inr g ↦ rw (e, g, e) (updated tenant cs f rows h)
      ]
      | inr e ↦ rw (e, e) (ap (λ t. r ∷ t) (updated tenant cs f rows h))
    ]

-- Under a tenant, an insertion that carries no tenant, an update that does not change the tenant
-- column, or a deletion, on a table with that column, leaves the rows of the other tenants, and
-- those of none, as they were.
pub execute-apply_tenant_filter :
    (tenant : ℕ) (s : Statement) (rows : List Row)
    → IsWrite s
    → foreign tenant (execute (apply_tenant_filter (some tenant) s) rows) ≡ foreign tenant rows
unfolding apply_tenant_filter execute
execute-apply_tenant_filter tenant _ rows (inserting t values h c) =
    rw (h, c)
      (select-append (λ r. not (is_of tenant r)) rows
          (inserted (("tenant_id", tenant) ∷ values) ∷ [])
        ∙ rw (==_self tenant) (append_nil (foreign tenant rows)))
execute-apply_tenant_filter tenant _ rows (updating t cs f h k) = rw h (updated tenant cs f rows k)
execute-apply_tenant_filter tenant _ rows (deleting t cs h) = rw h (deleted tenant cs rows)

-- The listener of the engines and the public helper make the same statement.
pub add_tenant_filter-apply :
    (tenant : Option ℕ) (s : Statement) → add_tenant_filter tenant s ≡ apply_tenant_filter tenant s
unfolding add_tenant_filter apply_tenant_filter
add_tenant_filter-apply none s = refl
add_tenant_filter-apply (some tenant) (selects froms cs) = refl
add_tenant_filter-apply (some tenant) (inserts t values) = ground arith
add_tenant_filter-apply (some tenant) (updates t cs f) = refl
add_tenant_filter-apply (some tenant) (deletes t cs) = refl
add_tenant_filter-apply (some tenant) (others f) = refl
