-- ===== src/Identity/Call.antt =====
-- The state and the errors of a sign-in call: the directory of users, and the Redis keys of each.
use async_fastapi_template.Prelude.{ℕ, ◌==◌, Bool, Option, none, some, if◌then◌else◌}
use async_fastapi_template.Identity.Model.{Directory}
use async_fastapi_template.Identity.Security.{Reply, ok, fail, Fault}
use async_fastapi_template.Identity.Sessions.{RedisSessions, Keys}

module _ (redis : RedisSessions) where
  pub record World : Type 0 where
    pub directory : Directory
    pub keys : ℕ → Keys redis

  abbrev pub M : Type 0 → Type 0
  M A = World → Reply A × World

  -- A change of the keys of one user
  abbrev pub put_keys : ℕ → (Keys redis → Keys redis) → World → World
  put_keys id f w = record w { keys = λ i. if i == id then f (w.keys i) else w.keys i }

  abbrev pub write : (Directory → Directory) → World → World
  write f w = record w { directory = f w.directory }

  module _ {A : Type 0} where
    abbrev pub pure : A → M A
    pure a w = (ok a, w)

    abbrev pub raise : Fault → M A
    raise e w = (fail e, w)

    abbrev pub lift : Reply A → M A
    lift r w = (r, w)

    -- `raise` where a value is `None`
    abbrev pub or_raise : Option A → Fault → M A
    or_raise none e = raise e
    or_raise (some a) e = pure a

  abbrev pub raise_if : Bool → Fault → M (Unit {0})
  raise_if b e w = (if b then fail e else ok tt, w)

  abbrev pub get_world : M World
  get_world w = (ok w, w)

  abbrev pub modify : (World → World) → M (Unit {0})
  modify f w = (ok tt, f w)

  -- A call on the directory alone
  abbrev pub on_directory : {A : Type 0} → (Directory → Reply A × Directory) → M A
  on_directory f w = let (r, d) = f w.directory in (r, record w { directory = d })

infixl 5 ◌>>=◌ ◌>>◌
abbrev pub ◌>>=◌ : {redis : RedisSessions} {A B : Type 0} → M redis A → (A → M redis B) → M redis B
◌>>=◌ m f w = let (r, w') = m w in elim r [ ok a ↦ f a w' | fail e ↦ (fail e, w') ]

abbrev pub ◌>>◌ : {redis : RedisSessions} {A B : Type 0} → M redis A → M redis B → M redis B
m >> k = m >>= λ _. k
