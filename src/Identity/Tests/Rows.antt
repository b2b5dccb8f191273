-- ===== src/Identity/Tests/Rows.antt =====
-- A page of users, and a user who is signed in.
use async_fastapi_template.Prelude.{◌≡◌, refl, false, none, List, [], ◌∷◌}
use async_fastapi_template.Identity.Model.{User, Directory}
use async_fastapi_template.Identity.Security.{ok, by_id, create_access_token, decode_access_token}
use async_fastapi_template.Identity.Blacklist.{is_token_blacklisted}
use async_fastapi_template.Identity.Access.{get_current_user}
use async_fastapi_template.Identity.Users.{list_users}
use async_fastapi_template.Crud.Pages.{CursorPage}
use async_fastapi_template.Identity.Tests.{settings}
use async_fastapi_template.Identity.Tests.Fixtures.{
  crypto, redis, config, ada, directory, world, codec,
}

abbrev three : List User
three = record ada { id = 1 } ∷ record ada { id = 2 } ∷ record ada { id = 3 } ∷ []

abbrev page : CursorPage User
page = record { items = record ada { id = 1 } ∷ []; next_cursor = none; has_more = false; size = 1 }

abbrev full : Directory
full = record directory { users = three }

one_page : list_users codec false none 1 full ≡ ok page
unfolding list_users
one_page = refl

signed_in :
    (get_current_user crypto redis config settings 100
      (create_access_token crypto config 100 "j" (by_id 7))
      world).0
    ≡ ok ada
unfolding get_current_user create_access_token is_token_blacklisted decode_access_token
signed_in = refl
