-- ===== src/Database.antt =====
-- The tenant filter of app/core/database.py, as statements over rows. A row gives the numbers of
-- its columns, and none for one that is null. A condition that a statement has of its own is a
-- parameter, a test of the rows it joins. What the ORM adds to a statement when it runs is left
-- out.
pub mod Rows
mod Tests
use Prim.Native.String.{◌++◌ as concat}
use text.Mathlib.Text.{◌==◌ as str_eq}
use async_fastapi_template.Prelude.{
  ℕ, String, Bool, true, false, not, ◌&&◌, opt_eq, Option, none, some, is_some, List, [], ◌∷◌, ◌++◌,
  any, select, map, find, if◌then◌else◌,
}

pub record Table : Type 0 where
  pub name : String
  pub columns : List String

abbrev pub Row : Type 0
Row = String → Option ℕ

-- The rows that a query joins, one for each of its tables
abbrev pub Joined : Type 0
Joined = String → Row

pub data Condition : Type 0 where
  equals : (table column : String) → ℕ → Condition
  holding : (Joined → Bool) → Condition

abbrev pub holds : Condition → Joined → Bool
holds (equals table column n) j = opt_eq (j table column) (some n)
holds (holding p) j = p j

abbrev pub all_hold : List Condition → Joined → Bool
all_hold [] j = true
all_hold (c ∷ cs) j = holds c j && all_hold cs j

-- A clause of `get_final_froms`: a table, or what `join` made of several
pub data From : Type 0 where
  plain : Table → From
  joining : List Table → From

-- `Select`, `Insert` with the values that it carries, `Update` with what it does to a row,
-- `Delete`, and any other clause, with what it does to the rows
pub data Statement : Type 0 where
  selects : (froms : List From) → (conditions : List Condition) → Statement
  inserts : (table : Table) → (values : List (String × ℕ)) → Statement
  updates : (table : Table) → (conditions : List Condition) → (Row → Row) → Statement
  deletes : (table : Table) → (conditions : List Condition) → Statement
  others : (List Row → List Row) → Statement

abbrev pub has_column : String → List String → Bool
has_column c = any (λ x. str_eq x c)

-- `"tenant_id" in table.columns`
abbrev pub has_tenant : Table → Bool
has_tenant t = has_column "tenant_id" t.columns

abbrev pub own : ℕ → Table → Condition
own tenant t = equals t.name "tenant_id" tenant

-- The column under the key `tenant_id` of a clause. The keys of a join are its tables' names, `_`,
-- and their columns' names.
abbrev pub label : String → String → String
label t c = concat t (concat "_" c)

abbrev pub labelled : String → List String → Option String
labelled t columns = find (λ c. str_eq (label t c) "tenant_id") columns

unfoldable pub in_join : List Table → Option (String × String)
in_join [] = none
in_join (t ∷ ts) = elim (labelled t.name t.columns) [
  | none ↦ in_join ts
  | some c ↦ some (t.name, c)
]

unfoldable pub tenant_key : From → Option (String × String)
unfolding in_join
tenant_key (plain t) = if has_tenant t then some (t.name, "tenant_id") else none
tenant_key (joining ts) = in_join ts

-- The loop over `get_final_froms`, which ends at the first clause with the key
unfoldable pub filter_first : ℕ → List From → List Condition → List Condition
unfolding tenant_key
filter_first tenant [] cs = cs
filter_first tenant (f ∷ fs) cs = elim (tenant_key f) [
  | none ↦ filter_first tenant fs cs
  | some (t, c) ↦ equals t c tenant ∷ cs
]

abbrev pub carries : String → List (String × ℕ) → Bool
carries c values = any (λ (v : String × ℕ). str_eq v.0 c) values

-- `apply_tenant_filter`
unfoldable pub apply_tenant_filter : Option ℕ → Statement → Statement
unfolding filter_first
apply_tenant_filter none s = s
apply_tenant_filter (some tenant) (selects froms cs) = selects froms (filter_first tenant froms cs)
apply_tenant_filter (some tenant) (inserts t values) =
    if has_tenant t && not (carries "tenant_id" values)
    then inserts t (("tenant_id", tenant) ∷ values)
    else inserts t values
apply_tenant_filter (some tenant) (updates t cs f) =
    if has_tenant t then updates t (own tenant t ∷ cs) f else updates t cs f
apply_tenant_filter (some tenant) (deletes t cs) =
    if has_tenant t then deletes t (own tenant t ∷ cs) else deletes t cs
apply_tenant_filter (some tenant) (others f) = others f

-- `_add_tenant_filter`, the listener of the engines, which reads the tenant of the request
unfoldable pub add_tenant_filter : Option ℕ → Statement → Statement
unfolding filter_first
add_tenant_filter none s = s
add_tenant_filter (some tenant) (selects froms cs) = selects froms (filter_first tenant froms cs)
add_tenant_filter (some tenant) (inserts t values) =
    if not (has_tenant t)
    then inserts t values
    else if carries "tenant_id" values
    then inserts t values
    else inserts t (("tenant_id", tenant) ∷ values)
add_tenant_filter (some tenant) (updates t cs f) =
    if has_tenant t then updates t (own tenant t ∷ cs) f else updates t cs f
add_tenant_filter (some tenant) (deletes t cs) =
    if has_tenant t then deletes t (own tenant t ∷ cs) else deletes t cs
add_tenant_filter (some tenant) (others f) = others f

-- What a statement does. A query returns the joined rows that meet its conditions.
unfoldable pub query : Statement → List Joined → List Joined
query (selects froms cs) rows = select (all_hold cs) rows
query _ rows = []

-- A row alone, for the conditions of a statement on one table
abbrev pub alone : Row → Joined
alone r table = r

abbrev pub inserted : List (String × ℕ) → Row
inserted values column = elim (find (λ (v : String × ℕ). str_eq v.0 column) values) [
  | none ↦ none
  | some v ↦ some v.1
]

unfoldable pub execute : Statement → List Row → List Row
execute (selects froms cs) rows = rows
execute (inserts t values) rows = rows ++ inserted values ∷ []
execute (updates t cs f) rows = map (λ r. if all_hold cs (alone r) then f r else r) rows
execute (deletes t cs) rows = select (λ r. not (all_hold cs (alone r))) rows
execute (others f) rows = f rows
