-- ===== src/Identity/Oauth/Linked.antt =====
-- Whose tokens a social sign-in issues.
use text.Mathlib.TextPositions.{eq_refl}
use async_fastapi_template.Prelude.{
  ℕ, String, ◌≡◌, true, ◌&&◌, arith, Option-cases, Bool-cases, inl, inr,
}
use async_fastapi_template.Identity.Model.{User, Directory}
use async_fastapi_template.Identity.Security.{ok}
use async_fastapi_template.Identity.Oauth.{
  Profile, Strings, column_is, is_unset, oauth_row, oauth_user, oauth_existing, link_oauth,
  create_oauth,
}

-- The row is linked to the provider's identity.
abbrev pub IsLinked : String → Profile → User → Type 0
IsLinked provider p u =
    (column_is provider u.oauth_provider && column_is p.provider_id u.oauth_provider_id) ≡ true

link-IsLinked :
    (provider : String) (p : Profile) (v u : User) (d : Directory)
    → (link_oauth provider p v d).0 ≡ ok u
    → IsLinked provider p u
unfolding link_oauth
link-IsLinked provider p v u d e = elim (Bool-cases (is_unset v.oauth_provider_id)) [
  | inl f ↦ ground (arith, e, f, eq_refl provider, eq_refl p.provider_id)
  | inr f ↦ ground (arith, e, f)
]

create-IsLinked :
    (py : Strings) (now : ℕ) (password provider : String) (p : Profile) (d : Directory) (u : User)
    → (create_oauth py now password provider p d).0 ≡ ok u
    → IsLinked provider p u
unfolding create_oauth oauth_row
create-IsLinked py now password provider p d u e =
    ground (arith, e, eq_refl provider, eq_refl p.provider_id)

-- The user of a profile, when there is one, is linked to the provider's identity.
pub oauth_user-IsLinked :
    (py : Strings) (now : ℕ) (password provider : String) (p : Profile) (d : Directory) (u : User)
    → (oauth_user py now password provider p d).0 ≡ ok u
    → IsLinked provider p u
unfolding oauth_user
oauth_user-IsLinked py now password provider p d u e =
    elim (Option-cases (oauth_existing provider p d)) [
      | inl f ↦ create-IsLinked py now password provider p d u (rw (oauth_user, f) at e)
      | inr (v, f) ↦ link-IsLinked provider p v u d (rw (oauth_user, f) at e)
    ]
