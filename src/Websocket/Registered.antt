-- ===== src/Websocket/Registered.antt =====
-- Keys and sets of the registry under its operations.
use mathlib.Core.Path.{subst}
use async_fastapi_template.Prelude.{
  ℕ, ◌==◌, ◌≡◌, refl, ◌∙◌, Bool, true, false, not, ◌&&◌, ◌||◌, List, [], ◌∷◌, any, arith,
  Bool-cases, inl, inr,
}
use async_fastapi_template.Websocket.{
  Registry, contains, add_socket, without, is_nil, sockets, connect, disconnect, reap, reap_pairs,
}

abbrev has_key : ℕ → Registry → Bool
has_key u r = any (λ (x : ℕ × List ℕ). x.0 == u) r

-- Each user has one entry, and none is empty.
abbrev pub IsClean : Registry → Type 0
IsClean [] = Unit
IsClean ((u, conns) ∷ r) = (is_nil conns ≡ false) × (has_key u r ≡ false) × IsClean r

no_key : (u : ℕ) (r : Registry) → has_key u r ≡ false → sockets u r ≡ []
unfolding sockets
no_key u [] h = refl
no_key u ((v, conns) ∷ r) h = ground (arith, h, no_key u r)

add-contains :
    (ws x : ℕ) (conns : List ℕ) → contains x (add_socket ws conns) ≡ (ws == x || contains x conns)
add-contains ws x conns = elim (Bool-cases (contains ws conns)) [
  | inl e ↦ rw e (elim (Bool-cases (ws == x)) [
    | inl f ↦
        let q : ws ≡ x = ground (arith, f) in
        subst (λ y. contains y conns ≡ (ws == y || contains y conns)) q (rw e (ground arith))
    | inr f ↦ rw f refl
  ])
  | inr e ↦ rw e refl
]

without-contains :
    (dead : List ℕ) (x : ℕ) (conns : List ℕ)
    → contains x (without dead conns) ≡ (not (contains x dead) && contains x conns)
without-contains dead x [] = ground arith
without-contains dead x (c ∷ conns) = elim (Bool-cases (c == x)) [
  | inl e ↦
      let q : c ≡ x = ground (arith, e) in
      subst
        (λ y.
          contains y (without dead (c ∷ conns)) ≡ (not (contains y dead) && contains y (c ∷ conns)))
        q
        (elim (Bool-cases (contains c dead)) [
          | inl f ↦ rw f (rw f at (without-contains dead c conns))
          | inr f ↦ rw f (ground arith)
        ])
  | inr e ↦ elim (Bool-cases (contains c dead)) [
    | inl f ↦ rw (e, f) (without-contains dead x conns)
    | inr f ↦ rw (e, f) (rw e (without-contains dead x conns))
  ]
]

add-is_nil : (ws : ℕ) (conns : List ℕ) → is_nil conns ≡ false → is_nil (add_socket ws conns) ≡ false
add-is_nil ws conns h = elim (Bool-cases (contains ws conns)) [ inl e ↦ rw e h | inr e ↦ rw e refl ]

is_nil-contains : (x : ℕ) (conns : List ℕ) → is_nil conns ≡ true → contains x conns ≡ false
is_nil-contains x [] e = refl
is_nil-contains x (c ∷ conns) e = absurd cc

-- What `connect` does to keys and sets
connect-has_key : (ws u v : ℕ) (r : Registry) → has_key v (connect ws u r) ≡ (u == v || has_key v r)
unfolding connect
connect-has_key ws u v [] = ground arith
connect-has_key ws u v ((w, conns) ∷ r) = elim (Bool-cases (w == u)) [
  | inl e ↦ rw e (ground (arith, e))
  | inr e ↦ rw (e, connect-has_key ws u v r) (ground arith)
]

pub connect-IsClean : (ws u : ℕ) (r : Registry) → IsClean r → IsClean (connect ws u r)
unfolding connect
connect-IsClean ws u [] h = (refl, refl, tt)
connect-IsClean ws u ((w, conns) ∷ r) h = elim (Bool-cases (w == u)) [
  | inl e ↦ rw e (add-is_nil ws conns h.0, h.1, h.2)
  | inr e ↦
      rw e (h.0, connect-has_key ws u w r ∙ ground (arith, e, h.1), connect-IsClean ws u r h.2)
]

pub connect-sockets :
    (ws u x v : ℕ) (r : Registry)
    → contains x (sockets v (connect ws u r)) ≡ ((u == v && ws == x) || contains x (sockets v r))
unfolding connect sockets
connect-sockets ws u x v [] = ground arith
connect-sockets ws u x v ((w, conns) ∷ r) = elim (Bool-cases (w == u)) [
  | inl e ↦ elim (Bool-cases (w == v)) [
    | inl f ↦ rw (e, f) (ground (arith, e, f, add-contains ws x conns))
    | inr f ↦ rw (e, f) (ground (arith, e, f))
  ]
  | inr e ↦ elim (Bool-cases (w == v)) [
    | inl f ↦ rw (e, f) (ground (arith, e, f))
    | inr f ↦ rw (e, f) (connect-sockets ws u x v r)
  ]
]

-- What `reap` does to them
reap-has_key :
    (dead : List ℕ) (u v : ℕ) (r : Registry)
    → has_key v r ≡ false
    → has_key v (reap dead u r) ≡ false
unfolding reap
reap-has_key dead u v [] h = refl
reap-has_key dead u v ((w, conns) ∷ r) h = ground (arith, h, reap-has_key dead u v r)

pub reap-IsClean : (dead : List ℕ) (u : ℕ) (r : Registry) → IsClean r → IsClean (reap dead u r)
unfolding reap
reap-IsClean dead u [] h = tt
reap-IsClean dead u ((w, conns) ∷ r) h = elim (Bool-cases (w == u)) [
  | inl e ↦ elim (Bool-cases (is_nil (without dead conns))) [
    | inl f ↦ rw (e, h.0, f) h.2
    | inr f ↦ rw (e, h.0, f) (f, h.1, h.2)
  ]
  | inr e ↦ rw e (h.0, reap-has_key dead u w r h.1, reap-IsClean dead u r h.2)
]

gone : (w v : ℕ) (r : Registry) → has_key w r ≡ false → (w == v) ≡ true → sockets v r ≡ []
gone w v r h g = let q : w ≡ v = ground (arith, g) in subst (λ y. sockets y r ≡ []) q (no_key w r h)

pub reap-sockets :
    (dead : List ℕ) (u x v : ℕ) (r : Registry)
    → IsClean r
    → contains x (sockets v (reap dead u r))
      ≡ (not (u == v && contains x dead) && contains x (sockets v r))
unfolding reap sockets
reap-sockets dead u x v [] h = ground arith
reap-sockets dead u x v ((w, conns) ∷ r) h =
    let k = without-contains dead x conns in
    let n = is_nil-contains x (without dead conns) in
    elim (Bool-cases (w == u)) [
      | inl e ↦ elim (Bool-cases (is_nil (without dead conns))) [
        | inl f ↦
            rw (e, h.0, f)
              (elim (Bool-cases (w == v)) [
                | inl g ↦ rw (g, gone w v r h.1 g) (ground (arith, e, g, k, n f))
                | inr g ↦ rw g (ground (arith, e, g))
              ])
        | inr f ↦
            rw (e, h.0, f)
              (elim (Bool-cases (w == v)) [
                | inl g ↦ rw g (ground (arith, e, g, k))
                | inr g ↦ rw g (ground (arith, e, g))
              ])
      ]
      | inr e ↦ elim (Bool-cases (w == v)) [
        | inl f ↦ rw (e, f) (ground (arith, e, f))
        | inr f ↦ rw (e, f) (reap-sockets dead u x v r h.2)
      ]
    ]

-- `disconnect` is the removal of one socket.
pub disconnect_reaps :
    (ws u : ℕ) (r : Registry) → IsClean r → disconnect ws u r ≡ reap (ws ∷ []) u r
unfolding disconnect reap
disconnect_reaps ws u [] h = refl
disconnect_reaps ws u ((w, conns) ∷ r) h = rw (h.0, disconnect_reaps ws u r h.2) refl

pub pairs-IsClean : (dead : List (ℕ × ℕ)) (r : Registry) → IsClean r → IsClean (reap_pairs dead r)
unfolding reap_pairs
pairs-IsClean [] r h = h
pairs-IsClean ((u, ws) ∷ dead) r h =
    pairs-IsClean dead (reap (ws ∷ []) u r) (reap-IsClean (ws ∷ []) u r h)

pub pairs-sockets :
    (dead : List (ℕ × ℕ)) (x v : ℕ) (r : Registry)
    → IsClean r
    → contains x (sockets v (reap_pairs dead r))
      ≡ (not (any (λ (p : ℕ × ℕ). p.0 == v && p.1 == x) dead) && contains x (sockets v r))
unfolding reap_pairs
pairs-sockets [] x v r h = refl
pairs-sockets ((u, ws) ∷ dead) x v r h =
    pairs-sockets dead x v (reap (ws ∷ []) u r) (reap-IsClean (ws ∷ []) u r h)
    ∙ rw (reap-sockets (ws ∷ []) u x v r h) (ground arith)
