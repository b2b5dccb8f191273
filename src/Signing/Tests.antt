-- ===== src/Signing/Tests.antt =====
-- Whole numbers in unary notation, and a hash of lengths, in the place of Python's.
use async_fastapi_template.Prelude.{
  ◌≡◌, refl, ap, ℕ, zero, suc, true, Option, none, some, [], ◌∷◌, Text, length, is_empty, is_space,
  false, ◌==◌, if◌then◌else◌, ℤ, pos, negsuc, All, arith,
}
use async_fastapi_template.Signing.{is_plain, Python}

abbrev units : ℕ → Text
units zero = []
units (suc n) = 49 ∷ units n

plain-units : (n : ℕ) → All (λ c. is_plain c ≡ true) (units n)
unfolding is_space
plain-units zero = tt
plain-units (suc n) = (refl, plain-units n)

abbrev str : ℤ → Text
str (pos n) = 43 ∷ units n
str (negsuc n) = 45 ∷ units n

abbrev int : Text → Option ℤ
int [] = none
int (c ∷ cs) = some (if c == 43 then pos (length cs) else negsuc (length cs))

length-units : (n : ℕ) → length (units n) ≡ n
length-units zero = refl
length-units (suc n) = omega (arith, length-units n)

pub int_str : (n : ℤ) → int (str n) ≡ some n
int_str (pos n) = ap (λ k. some (pos k)) (length-units n)
int_str (negsuc n) = ap (λ k. some (negsuc k)) (length-units n)

pub str_plain : (n : ℤ) → All (λ c. is_plain c ≡ true) (str n)
unfolding is_space
str_plain (pos n) = (refl, plain-units n)
str_plain (negsuc n) = (refl, plain-units n)

pub str_solid : (n : ℤ) → is_empty (str n) ≡ false
str_solid (pos n) = refl
str_solid (negsuc n) = refl

abbrev hash : Text → Text → Text
hash k m = 97 ∷ units (length m)

pub hash_plain : (k m : Text) → All (λ c. is_plain c ≡ true) (hash k m)
unfolding is_space
hash_plain k m = (refl, plain-units (length m))

abbrev pub python : Python
python = record {
  hexdigest = hash;
  str = str;
  int = int;
  int_str = int_str;
  str_plain = str_plain;
  str_solid = str_solid;
  hex_plain = hash_plain;
  hex_solid = λ k m. refl;
}
