-- ===== src/Websocket/History.antt =====
-- The registry after any sequence of locked steps, against the history of them.
use async_fastapi_template.Prelude.{
  ℕ, ◌==◌, ◌≡◌, refl, ap, ◌∙◌, Bool, true, false, ◌&&◌, List, [], ◌∷◌, any, arith, if◌then◌else◌,
}
use async_fastapi_template.Websocket.{
  Registry, contains, sockets, connect, disconnect, reap, reap_pairs,
}
use async_fastapi_template.Websocket.Registered.{
  IsClean, connect-IsClean, connect-sockets, reap-IsClean, reap-sockets, disconnect_reaps,
  pairs-IsClean, pairs-sockets,
}

-- The steps that hold the lock: a call, or the end of one that sent
pub data Action : Type 0 where
  connected disconnected : (ws u : ℕ) → Action
  reaped : (dead : List ℕ) (u : ℕ) → Action
  reaped_pairs : (dead : List (ℕ × ℕ)) → Action

abbrev pub perform : Action → Registry → Registry
perform (connected ws u) r = connect ws u r
perform (disconnected ws u) r = disconnect ws u r
perform (reaped dead u) r = reap dead u r
perform (reaped_pairs dead) r = reap_pairs dead r

-- The registry after actions, the latest of which stands first
abbrev pub performed : List Action → Registry
performed [] = []
performed (a ∷ history) = perform a (performed history)

-- Whether a history leaves a socket registered for a user, by its latest action about the two
unfoldable pub is_live : ℕ → ℕ → List Action → Bool
is_live ws u [] = false
is_live ws u (connected ws' u' ∷ history) =
    let rest = is_live ws u history in if u' == u && ws' == ws then true else rest
is_live ws u (disconnected ws' u' ∷ history) =
    let rest = is_live ws u history in if u' == u && ws' == ws then false else rest
is_live ws u (reaped dead u' ∷ history) =
    let rest = is_live ws u history in if u' == u && contains ws dead then false else rest
is_live ws u (reaped_pairs dead ∷ history) =
    let rest = is_live ws u history in
    if any (λ (x : ℕ × ℕ). x.0 == u && x.1 == ws) dead then false else rest

-- Whatever the calls and however they interleave, each user has at most one entry in the registry,
-- and no entry is empty.
pub performed-IsClean : (history : List Action) → IsClean (performed history)
performed-IsClean [] = tt
performed-IsClean (connected ws u ∷ history) =
    connect-IsClean ws u (performed history) (performed-IsClean history)
performed-IsClean (disconnected ws u ∷ history) =
    let h = performed-IsClean history in
    rw (disconnect_reaps ws u (performed history) h)
      (reap-IsClean (ws ∷ []) u (performed history) h)
performed-IsClean (reaped dead u ∷ history) =
    reap-IsClean dead u (performed history) (performed-IsClean history)
performed-IsClean (reaped_pairs dead ∷ history) =
    pairs-IsClean dead (performed history) (performed-IsClean history)

-- After any history of calls, however they interleave, a socket is registered for a user if and
-- only if the latest action about the two was its connection.
pub performed-sockets :
    (ws u : ℕ) (history : List Action)
    → contains ws (sockets u (performed history)) ≡ is_live ws u history
unfolding is_live sockets
performed-sockets ws u [] = refl
performed-sockets ws u (connected ws' u' ∷ history) =
    connect-sockets ws' u' ws u (performed history)
    ∙ rw (performed-sockets ws u history) (ground arith)
performed-sockets ws u (disconnected ws' u' ∷ history) =
    let h = performed-IsClean history in
    ap (λ r. contains ws (sockets u r)) (disconnect_reaps ws' u' (performed history) h)
    ∙ reap-sockets (ws' ∷ []) u' ws u (performed history) h
    ∙ rw (performed-sockets ws u history) (ground arith)
performed-sockets ws u (reaped dead u' ∷ history) =
    reap-sockets dead u' ws u (performed history) (performed-IsClean history)
    ∙ rw (performed-sockets ws u history) (ground arith)
performed-sockets ws u (reaped_pairs dead ∷ history) =
    pairs-sockets dead ws u (performed history) (performed-IsClean history)
    ∙ rw (performed-sockets ws u history) (ground arith)
