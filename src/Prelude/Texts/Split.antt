-- ===== src/Prelude/Texts/Split.antt =====
-- Splitting a joined list of texts gives the list back, and stripping is idempotent.
use async_fastapi_template.Prelude.{
  ℕ, ◌≡◌, refl, ap, ◌∙◌, Bool, true, false, ◌&&◌, List, [], ◌∷◌, ◌++◌, arith, inl, inr, ◌==◌,
  if◌then◌else◌, any, All, Bool-cases,
}
use async_fastapi_template.Prelude.Texts.{
  Text, is_empty, is_space, lstrip, rstrip, strip, split_comma, join_comma, to_first,
}

abbrev pub has_comma : Text → Bool
has_comma = any (λ c. c == 44)

-- A text that is empty or starts with no space
abbrev pub starts_solid : Text → Bool
starts_solid [] = true
starts_solid (c ∷ cs) = if is_space c then false else true

lstrip-starts_solid : (s : Text) → starts_solid (lstrip s) ≡ true
unfolding lstrip
lstrip-starts_solid [] = refl
lstrip-starts_solid (c ∷ cs) = elim (Bool-cases (is_space c)) [
  | inl e ↦ rw (lstrip, e) (lstrip-starts_solid cs)
  | inr e ↦ rw (lstrip, e) (rw e refl)
]

pub lstrip_solid : (s : Text) → starts_solid s ≡ true → lstrip s ≡ s
unfolding lstrip
lstrip_solid [] h = refl
lstrip_solid (c ∷ cs) h = elim (Bool-cases (is_space c)) [
  | inl e ↦ absurd (cc (h, e))
  | inr e ↦ rw (lstrip, e) refl
]

rstrip-starts_solid : (s : Text) → starts_solid s ≡ true → starts_solid (rstrip s) ≡ true
unfolding rstrip
rstrip-starts_solid [] h = refl
rstrip-starts_solid (c ∷ cs) h = elim (Bool-cases (is_space c)) [
  | inl e ↦ absurd (cc (h, e))
  | inr e ↦ rw (rstrip, e) (rw e refl)
]

rstrip_idem : (s : Text) → rstrip (rstrip s) ≡ rstrip s
unfolding rstrip
rstrip_idem [] = refl
rstrip_idem (c ∷ cs) = elim (Bool-cases (is_space c && is_empty (rstrip cs))) [
  | inl e ↦ rw (rstrip, e) refl
  | inr e ↦ rw e (rw (rstrip_idem cs, e) refl)
]

pub strip_idem : (s : Text) → strip (strip s) ≡ strip s
strip_idem s =
    ap rstrip
      (lstrip_solid (rstrip (lstrip s)) (rstrip-starts_solid (lstrip s) (lstrip-starts_solid s)))
    ∙ rstrip_idem (lstrip s)

comma_free :
    (c : ℕ) (s : Text) → has_comma (c ∷ s) ≡ false → ((c == 44) ≡ false) × (has_comma s ≡ false)
comma_free c s h = ground (arith, h)

lstrip-has_comma : (s : Text) → has_comma s ≡ false → has_comma (lstrip s) ≡ false
unfolding lstrip
lstrip-has_comma [] h = refl
lstrip-has_comma (c ∷ cs) h = elim (Bool-cases (is_space c)) [
  | inl e ↦ rw (lstrip, e) (lstrip-has_comma cs (comma_free c cs h).1)
  | inr e ↦ rw (lstrip, e) h
]

rstrip-has_comma : (s : Text) → has_comma s ≡ false → has_comma (rstrip s) ≡ false
unfolding rstrip
rstrip-has_comma [] h = refl
rstrip-has_comma (c ∷ cs) h = ground (arith, h, rstrip-has_comma cs (comma_free c cs h).1)

pub strip-has_comma : (s : Text) → has_comma s ≡ false → has_comma (strip s) ≡ false
strip-has_comma s h = rstrip-has_comma (lstrip s) (lstrip-has_comma s h)

to_first-has_comma :
    (c : ℕ) (ps : List Text)
    → (c == 44) ≡ false
    → All (λ p. has_comma p ≡ false) ps
    → All (λ p. has_comma p ≡ false) (to_first c ps)
to_first-has_comma c [] e h = (ground (arith, e), tt)
to_first-has_comma c (p ∷ ps) e h = (ground (arith, e, h.0), h.1)

pub split_comma-has_comma : (s : Text) → All (λ p. has_comma p ≡ false) (split_comma s)
unfolding split_comma
split_comma-has_comma [] = (refl, tt)
split_comma-has_comma (c ∷ cs) = elim (Bool-cases (c == 44)) [
  | inl e ↦ rw e (refl, split_comma-has_comma cs)
  | inr e ↦ rw e (to_first-has_comma c (split_comma cs) e (split_comma-has_comma cs))
]

pub split-piece : (p r : Text) → has_comma p ≡ false → split_comma (p ++ 44 ∷ r) ≡ p ∷ split_comma r
unfolding split_comma
split-piece [] r h = refl
split-piece (c ∷ p) r h = let (e, k) = comma_free c p h in rw (e, split-piece p r k) refl

pub split-last : (p : Text) → has_comma p ≡ false → split_comma p ≡ p ∷ []
unfolding split_comma
split-last [] h = refl
split-last (c ∷ p) h = let (e, k) = comma_free c p h in rw (e, split-last p k) refl

-- The pieces of a joined list that is not empty are the texts joined, if they hold no comma.
pub split_comma-join_comma :
    (p : Text) (ps : List Text)
    → All (λ t. has_comma t ≡ false) (p ∷ ps)
    → split_comma (join_comma (p ∷ ps)) ≡ p ∷ ps
unfolding join_comma
split_comma-join_comma p [] h = split-last p h.0
split_comma-join_comma p (q ∷ ps) h =
    split-piece p (join_comma (q ∷ ps)) h.0 ∙ ap (λ l. p ∷ l) (split_comma-join_comma q ps h.1)
