-- ===== src/Identity/Tests/Factor.antt =====
-- A user who asks twice for a second factor, and confirms it with a code.
use async_fastapi_template.Prelude.{String, ◌≡◌, refl, true, false, none, List, [], ◌∷◌}
use async_fastapi_template.Identity.Model.{User, Directory}
use async_fastapi_template.Identity.Login.{Totp}
use async_fastapi_template.Identity.Totp.{Sha}
use async_fastapi_template.Identity.Enrolment.Refused.{
  Action, enabling, confirming, performed, performed_unchanged,
}
use async_fastapi_template.Identity.Tests.Fixtures.{ada, directory}

abbrev sha : Sha
sha t = t

abbrev totp : Totp
totp secret now code = true

abbrev bob : User
bob = record ada { id = 4; totp_secret = none; totp_enabled = false; totp_verified_at = none }

abbrev users : Directory
users = record directory { users = bob ∷ [] }

abbrev secret : String
secret = "0123456789ABCDEF0123456789ABCDEF01234567"

abbrev actions : List Action
actions = enabling 4 secret ((65 ∷ []) ∷ []) ∷ confirming 4 90 (49 ∷ []) ∷ enabling 4 secret [] ∷ []

performed_unchanged_example : performed sha totp actions users ≡ users
performed_unchanged_example =
    performed_unchanged sha totp actions users (refl, (tt, (refl, tt))) (refl, tt)
