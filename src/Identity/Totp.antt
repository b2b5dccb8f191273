-- ===== src/Identity/Totp.antt =====
-- The backup codes of app/identity/auth/totp.py. The column holds the hashes, separated by commas.
-- SHA-256 is a parameter.
pub mod Once
use async_fastapi_template.Prelude.{
  Text, same_text, is_empty, strip, split_comma, join_comma, ℕ, Bool, true, false, not, ◌&&◌,
  Option, none, some, List, [], ◌∷◌, map, select, find,
}

-- `hash_backup_code`
abbrev pub Sha : Type 0
Sha = Text → Text

-- `[h.strip() for h in codes.split(",") if h.strip()]`
unfoldable pub entries : Text → List Text
entries codes = select (λ h. not (is_empty h)) (map strip (split_comma codes))

-- `verify_backup_code`; an empty column counts as none.
unfoldable pub verify_backup_code : Sha → Text → Option Text → Option Text
unfolding entries
verify_backup_code sha code none = none
verify_backup_code sha code (some []) = none
verify_backup_code sha code (some (c ∷ cs)) =
    find (λ stored. same_text (sha code) stored) (entries (c ∷ cs))

-- `",".join(remaining) if remaining else None`
abbrev pub joined : List Text → Option Text
joined [] = none
joined (h ∷ hs) = some (join_comma (h ∷ hs))

-- `remove_used_backup_code`
unfoldable pub remove_used_backup_code : Text → Option Text → Option Text
unfolding entries
remove_used_backup_code used none = none
remove_used_backup_code used (some []) = none
remove_used_backup_code used (some (c ∷ cs)) =
    joined (select (λ h. not (same_text h used)) (entries (c ∷ cs)))
