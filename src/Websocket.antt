-- ===== src/Websocket.antt =====
-- app/websocket/manager.py: the registry of live sockets. A set of sockets is a list in which each
-- occurs once, a dictionary a list of its entries in their order. A call holds the lock except
-- while it sends, so a message takes two steps: the snapshot that it is sent to, and the removal of
-- the sockets that raised, which may find a changed registry. Users and sockets are numbers.
pub mod Registered
pub mod History
mod Tests
use async_fastapi_template.Prelude.{
  ℕ, ◌==◌, Bool, true, false, not, ◌&&◌, ◌||◌, List, [], ◌∷◌, ◌++◌, any, select, map, if◌then◌else◌,
}

abbrev pub Registry : Type 0
Registry = List (ℕ × List ℕ)

abbrev pub contains : ℕ → List ℕ → Bool
contains ws conns = any (λ x. x == ws) conns

-- `conns.add(ws)`
abbrev pub add_socket : ℕ → List ℕ → List ℕ
add_socket ws conns = if contains ws conns then conns else ws ∷ conns

-- `discard` of each
abbrev pub without : List ℕ → List ℕ → List ℕ
without dead conns = select (λ x. not (contains x dead)) conns

abbrev pub is_nil : {A : Type 0} → List A → Bool
is_nil [] = true
is_nil (x ∷ xs) = false

-- `active_connections.get(user_id, set())`
unfoldable pub sockets : ℕ → Registry → List ℕ
sockets u [] = []
sockets u ((v, conns) ∷ r) = let rest = sockets u r in if v == u then conns else rest

-- `connect`
unfoldable pub connect : ℕ → ℕ → Registry → Registry
connect ws u [] = (u, ws ∷ []) ∷ []
connect ws u ((v, conns) ∷ r) =
    let rest = connect ws u r in if v == u then (v, add_socket ws conns) ∷ r else (v, conns) ∷ rest

-- `disconnect`: an entry that becomes empty goes.
unfoldable pub disconnect : ℕ → ℕ → Registry → Registry
disconnect ws u [] = []
disconnect ws u ((v, conns) ∷ r) =
    let rest = disconnect ws u r in
    let left = without (ws ∷ []) conns in
    if v == u then (if is_nil left then r else (v, left) ∷ r) else (v, conns) ∷ rest

-- The removal at the end of `send_personal_message`
unfoldable pub reap : List ℕ → ℕ → Registry → Registry
reap dead u [] = []
reap dead u ((v, conns) ∷ r) =
    let rest = reap dead u r in
    let left = without dead conns in
    if v == u
    then (if is_nil conns then (v, conns) ∷ r else if is_nil left then r else (v, left) ∷ r)
    else (v, conns) ∷ rest

-- `send_personal_message` when nothing happens in between: the sockets that raise go. Without one
-- the lock is not taken again.
unfoldable pub send_personal_message : (ℕ → Bool) → ℕ → Registry → Registry
unfolding sockets reap
send_personal_message raises u r =
    let dead = select raises (sockets u r) in if is_nil dead then r else reap dead u r

-- The snapshot of `broadcast`
abbrev pub pairs_of : Registry → List (ℕ × ℕ)
pairs_of [] = []
pairs_of ((u, conns) ∷ r) = map (λ ws. (u, ws)) conns ++ pairs_of r

-- The removal at the end of `broadcast`
unfoldable pub reap_pairs : List (ℕ × ℕ) → Registry → Registry
unfolding reap
reap_pairs [] r = r
reap_pairs ((u, ws) ∷ dead) r = reap_pairs dead (reap (ws ∷ []) u r)

-- `broadcast` when nothing happens in between
unfoldable pub broadcast : (ℕ → Bool) → Registry → Registry
unfolding reap_pairs
broadcast raises r = reap_pairs (select (λ (x : ℕ × ℕ). raises x.1) (pairs_of r)) r
