-- ===== src/Prelude/Texts.antt =====
-- Texts that the code takes apart, as lists of character codes.
pub mod Split
use Prim.Native.Nat.{ℕ}
use mathlib.Core.Path.{◌≡◌, refl}
use mathlib.Core.Bool.{Bool, true, false, ◌&&◌, ◌||◌}
use mathlib.Core.List.{List, [], ◌∷◌, ◌++◌, map}
use native.Mathlib.Omega.{arith}
use async_fastapi_template.Prelude.Tests.{if◌then◌else◌, leb, ◌==◌}

abbrev pub Text : Type 0
Text = List ℕ

-- `==` of texts, and `hmac.compare_digest`
abbrev pub same_text : Text → Text → Bool
same_text [] [] = true
same_text [] (b ∷ bs) = false
same_text (a ∷ cs) [] = false
same_text (a ∷ cs) (b ∷ bs) = a == b && same_text cs bs

abbrev pub is_empty : Text → Bool
is_empty [] = true
is_empty (a ∷ cs) = false

pub same_text_self : (a : Text) → same_text a a ≡ true
same_text_self [] = refl
same_text_self (a ∷ cs) = ground (arith, same_text_self cs)

pub same_text→≡ : (a b : Text) → same_text a b ≡ true → a ≡ b
same_text→≡ [] [] e = refl
same_text→≡ [] (b ∷ bs) e = absurd cc
same_text→≡ (a ∷ cs) [] e = absurd cc
same_text→≡ (a ∷ cs) (b ∷ bs) e = ground (arith, same_text→≡ cs bs)

-- What `str.isspace` accepts
unfoldable pub is_space : ℕ → Bool
is_space c =
    (leb 9 c && leb c 13)
    || (leb 28 c && leb c 32)
    || c == 133
    || c == 160
    || c == 5760
    || (leb 8192 c && leb c 8202)
    || c == 8232
    || c == 8233
    || c == 8239
    || c == 8287
    || c == 12288

-- The left half of `s.strip()`
unfoldable pub lstrip : Text → Text
lstrip [] = []
lstrip (c ∷ cs) = let rest = lstrip cs in if is_space c then rest else c ∷ cs

-- The right half of `s.strip()`
unfoldable pub rstrip : Text → Text
rstrip [] = []
rstrip (c ∷ cs) = let rest = rstrip cs in if is_space c && is_empty rest then [] else c ∷ rest

abbrev pub strip : Text → Text
strip s = rstrip (lstrip s)

-- A character goes to the piece that is being read.
abbrev pub to_first : ℕ → List Text → List Text
to_first c [] = (c ∷ []) ∷ []
to_first c (p ∷ ps) = (c ∷ p) ∷ ps

-- `s.split(",")`
unfoldable pub split_comma : Text → List Text
split_comma [] = [] ∷ []
split_comma (c ∷ cs) = let rest = split_comma cs in if c == 44 then [] ∷ rest else to_first c rest

-- `",".join(parts)`
unfoldable pub join_comma : List Text → Text
join_comma [] = []
join_comma (p ∷ []) = p
join_comma (p ∷ q ∷ ps) = p ++ 44 ∷ join_comma (q ∷ ps)
