-- ===== src/Identity/Model/Rows.antt =====
-- The user table under lookups and replacements.
use async_fastapi_template.Prelude.{◌≡◌, Bool, true, some, List, [], ◌∷◌, arith, find}
use async_fastapi_template.Identity.Model.{User, put_row}

-- The row that a lookup finds is found again in its new form, if the lookup accepts that.
pub find-put_row :
    (p : User → Bool) (u u' : User) (rows : List User)
    → find p rows ≡ some u
    → u'.id ≡ u.id
    → p u' ≡ true
    → find p (put_row u' rows) ≡ some u'
find-put_row p u u' [] f e h = absurd cc
find-put_row p u u' (r ∷ rows) f e h = ground (arith, find-put_row p u u' rows)
