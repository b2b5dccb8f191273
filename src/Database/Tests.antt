-- ===== src/Database/Tests.antt =====
-- A table with a tenant column, and rows of two tenants.
use text.Mathlib.Text.{◌==◌ as str_eq}
use async_fastapi_template.Prelude.{ℕ, ◌≡◌, refl, none, some, List, [], ◌∷◌, select, if◌then◌else◌}
use async_fastapi_template.Database.{
  plain, joining, Table, Row, Joined, equals, selects, deletes, apply_tenant_filter, query, execute,
}
use async_fastapi_template.Database.Rows.{
  foreign, seen, first_tenant, deleting, query-apply_tenant_filter, execute-apply_tenant_filter,
}

abbrev invoices : Table
invoices = record { name = "invoices"; columns = "id" ∷ "tenant_id" ∷ [] }

abbrev webhooks : Table
webhooks = record { name = "webhooks"; columns = "id" ∷ "tenant_id" ∷ [] }

abbrev row : ℕ → ℕ → Row
row id tenant column =
    if str_eq column "id" then some id else if str_eq column "tenant_id" then some tenant else none

abbrev rows : List Row
rows = row 1 7 ∷ row 2 8 ∷ []

abbrev joined : Row → Joined
joined r table = r

query-apply_tenant_filter_example :
    query
      (apply_tenant_filter (some 7) (
        selects
          (plain invoices ∷ joining (invoices ∷ webhooks ∷ []) ∷ [])
          (equals "invoices" "id" 2 ∷ [])))
      (joined (row 1 7) ∷ joined (row 2 8) ∷ [])
    ≡ select (seen 7 (first_tenant (plain invoices ∷ joining (invoices ∷ webhooks ∷ []) ∷ []))) (
        query
          (selects
            (plain invoices ∷ joining (invoices ∷ webhooks ∷ []) ∷ [])
            (equals "invoices" "id" 2 ∷ []))
          (joined (row 1 7) ∷ joined (row 2 8) ∷ []))
query-apply_tenant_filter_example =
    query-apply_tenant_filter 7 (plain invoices ∷ joining (invoices ∷ webhooks ∷ []) ∷ [])
      (equals "invoices" "id" 2 ∷ []) (joined (row 1 7) ∷ joined (row 2 8) ∷ [])
      (tt, (((refl, (refl, tt)), tt)))

execute-apply_tenant_filter_example :
    foreign 7 (execute (apply_tenant_filter (some 7) (deletes invoices [])) rows) ≡ foreign 7 rows
execute-apply_tenant_filter_example =
    execute-apply_tenant_filter 7 (deletes invoices []) rows (deleting invoices [] refl)
