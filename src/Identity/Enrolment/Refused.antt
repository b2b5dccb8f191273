-- ===== src/Identity/Enrolment/Refused.antt =====
-- What calls for a second factor lead to.
use Prim.Native.String.{count}
use async_fastapi_template.Prelude.{
  Text, ℕ, String, ◌≡◌, refl, sym, ap, ◌∙◌, Bool, false, Option, none, some, some_injective, List,
  [], ◌∷◌, find, All, arith, leb, Bool-cases, inl, inr,
}
use async_fastapi_template.Identity.Model.{User, Directory, get_user}
use async_fastapi_template.Identity.Security.{Reply, fail, server_error}
use async_fastapi_template.Identity.Totp.{Sha}
use async_fastapi_template.Identity.Login.{Totp}
use async_fastapi_template.Identity.Enrolment.{enable_totp, verify_enable_totp}

-- A call of the user with an id: it asks for a second factor, which draws a secret and codes, or
-- confirms one with a code.
pub data Action : Type 0 where
  enabling : ℕ → String → List Text → Action
  confirming : ℕ → ℕ → Text → Action

-- `secrets.token_hex(20).upper()` has 40 characters.
abbrev pub IsDrawn : Action → Type 0
IsDrawn (enabling id secret codes) = count secret ≡ 40
IsDrawn (confirming id now code) = Unit

module _ (sha : Sha) (totp : Totp) where
  abbrev pub call_of : Action → Option User → Directory → Directory
  call_of a none d = d
  call_of (enabling id secret codes) (some u) d = (enable_totp sha secret codes u d).1
  call_of (confirming id now code) (some u) d = (verify_enable_totp totp now code u d).1

  abbrev pub caller : Action → Directory → Option User
  caller (enabling id secret codes) d = get_user d id
  caller (confirming id now code) d = get_user d id

  pub performed : List Action → Directory → Directory
  performed [] d = d
  performed (a ∷ actions) d = performed actions (call_of a (caller a d) d)

  found_secret :
      (p : User → Bool) (u : User) (users : List User)
      → All (λ (x : User). x.totp_secret ≡ none) users
      → find p users ≡ some u
      → u.totp_secret ≡ none
  found_secret p u [] h f = absurd cc
  found_secret p u (x ∷ users) h f = elim (Bool-cases (p x)) [
    | inl e ↦ ap (λ (y : User). y.totp_secret) (sym (some_injective x u (rw e at f))) ∙ h.0
    | inr e ↦ found_secret p u users h.1 (rw e at f)
  ]

  unchanged :
      (a : Action) (o : Option User) (d : Directory)
      → IsDrawn a
      → ((u : User) → o ≡ some u → u.totp_secret ≡ none)
      → call_of a o d ≡ d
  unfolding enable_totp verify_enable_totp
  unchanged a none d w h = refl
  unchanged (enabling id secret codes) (some u) d w h = elim (Bool-cases u.totp_enabled) [
    | inl e ↦ rw (enable_totp, e) refl
    | inr e ↦
        let k : leb (count secret) 32 ≡ false = ground (arith, w) in
        let refused : enable_totp sha secret codes u d ≡ (fail server_error, d) =
          rw (enable_totp, e, k) refl in
        ap (λ (x : Reply (String × List Text) × Directory). x.1) refused
  ]
  unchanged (confirming id now code) (some u) d w h = elim (Bool-cases u.totp_enabled) [
    | inl e ↦ rw (verify_enable_totp, e) refl
    | inr e ↦ rw (verify_enable_totp, e, h u refl) refl
  ]

  secrets_of :
      (a : Action) (d : Directory) (u : User)
      → All (λ (x : User). x.totp_secret ≡ none) d.users
      → caller a d ≡ some u
      → u.totp_secret ≡ none
  secrets_of (enabling id secret codes) d u h f = found_secret _ u d.users h f
  secrets_of (confirming id now code) d u h f = found_secret _ u d.users h f

  -- Where no user has a secret, no calls that ask for a second factor, each with a drawn secret
  -- of 40 characters, and that confirm one, in any order and of any users, change anything: the
  -- secret does not fit its column, and nobody ever gets a second factor.
  pub performed_unchanged :
      (actions : List Action) (d : Directory)
      → All IsDrawn actions
      → All (λ (x : User). x.totp_secret ≡ none) d.users
      → performed actions d ≡ d
  unfolding performed
  performed_unchanged [] d w h = refl
  performed_unchanged (a ∷ actions) d w h =
      let e = unchanged a (caller a d) d w.0 (λ u f. secrets_of a d u h f) in
      ap (performed actions) e ∙ performed_unchanged actions d w.1 h
