-- ===== src/Identity/Security/Lockout.antt =====
-- The brute-force protection of `authenticate_user`.
use text.Mathlib.Text.{◌==◌ as str_eq}
use async_fastapi_template.Prelude.{
  ◌&&◌, ℕ, String, ◌+◌, ◌*◌, ◌<◌, ◌≤◌, ◌≡◌, refl, true, false, none, some, List, [], ◌∷◌, arith,
  length, find-holds, All,
}
use async_fastapi_template.Identity.Model.{in_tenant, User, Directory, get_by_email}
use async_fastapi_template.Identity.Model.Rows.{find-put_row}
use async_fastapi_template.Identity.Security.{
  Settings, Crypto, fail, locked, minute, is_locked, failed_row, authenticate_found,
  authenticate_user,
}

module _ (crypto : Crypto) (c : Settings) (email : String) where
  -- Sign-ins with the address, each at its time and with its password
  pub attempts : List (ℕ × String) → Directory → Directory
  attempts [] d = d
  attempts ((now, password) ∷ tries) d =
      attempts tries (authenticate_user crypto c now email password d).1

  abbrev pub last_time : ℕ → List (ℕ × String) → ℕ
  last_time t [] = t
  last_time t ((now, password) ∷ tries) = last_time now tries

  abbrev pub AreWrong : User → List (ℕ × String) → Type 0
  AreWrong u = All (λ (x : ℕ × String). crypto.verify_password x.1 u.hashed_password ≡ false)

  wrong_password :
      (now : ℕ) (password : String) (u : User) (d : Directory)
      → get_by_email d email ≡ some u
      → is_locked crypto c now u ≡ false
      → crypto.verify_password password u.hashed_password ≡ false
      → get_by_email (authenticate_user crypto c now email password d).1 email
        ≡ some (failed_row crypto c now u)
  unfolding authenticate_user authenticate_found failed_row
  wrong_password now password u d f l w =
      let p = λ (x : User). str_eq x.email email && in_tenant d.tenant x in
      rw (authenticate_user, f, authenticate_found, l, w)
        (find-put_row p u (failed_row crypto c now u) d.users f refl (find-holds p u d.users f))

  locked_out :
      (t : ℕ) (password : String) (u : User) (d : Directory)
      → get_by_email d email ≡ some u
      → is_locked crypto c t u ≡ true
      → ((authenticate_user crypto c t email password d).0 ≡ fail locked)
        × ((authenticate_user crypto c t email password d).1.users ≡ d.users)
  unfolding authenticate_user authenticate_found
  locked_out t password u d f l = rw (authenticate_user, f, authenticate_found, l) (refl, refl)

  -- The state after the last wrong password that the limit allows
  exhausted :
      (tries : List (ℕ × String)) (now t : ℕ) (u : User) (d : Directory)
      → get_by_email d email ≡ some u
      → u.locked_until ≡ none
      → AreWrong u tries
      → 1 ≤ length tries
      → u.failed_login_attempts + length tries ≡ c.max_login_attempts
      → t < last_time now tries + c.login_lockout_minutes * minute
      → (v : User) × (get_by_email (attempts tries d) email ≡ some v)
        × (is_locked crypto c t v ≡ true)
  unfolding attempts is_locked failed_row
  exhausted [] now t u d f l w n m lt = absurd (omega arith)
  exhausted ((at, password) ∷ []) now t u d f l w n m lt = (
    failed_row crypto c at u,
    wrong_password at password u d f (rw l refl) w.0,
    ground (arith, m, lt),
  )
  exhausted ((at, password) ∷ next ∷ tries) now t u d f l w n m lt =
      exhausted (next ∷ tries) at t (failed_row crypto c at u)
        (authenticate_user crypto c at email password d).1
        (wrong_password at password u d f (rw l refl) w.0) (ground (arith, l, m)) w.1 (omega arith)
        (omega arith) lt

  -- Once an account that is not locked has seen as many wrong passwords as are left to it, each
  -- later attempt within the lockout time of the last one is refused as locked, with the right
  -- password too, and changes no user.
  pub attempts_lock :
      (tries : List (ℕ × String)) (t : ℕ) (password : String) (u : User) (d : Directory)
      → get_by_email d email ≡ some u
      → u.locked_until ≡ none
      → AreWrong u tries
      → 1 ≤ length tries
      → u.failed_login_attempts + length tries ≡ c.max_login_attempts
      → t < last_time t tries + c.login_lockout_minutes * minute
      → let d' = attempts tries d in
        ((authenticate_user crypto c t email password d').0 ≡ fail locked)
        × ((authenticate_user crypto c t email password d').1.users ≡ d'.users)
  attempts_lock tries t password u d f l w n m lt =
      let (v, found, is) = exhausted tries t t u d f l w n m lt in
      locked_out t password v (attempts tries d) found is
