-- ===== src/Identity/Totp/Once.antt =====
-- A backup code works once, and its use leaves the others.
use async_fastapi_template.Prelude.{
  Text, same_text, same_text→≡, is_empty, strip, lstrip, rstrip, split_comma, join_comma, ℕ, ◌≡◌,
  refl, sym, ◌∙◌, Bool, true, false, not, Option, none, some, List, [], ◌∷◌, map, select, find,
  find-holds, All, inl, inr, Bool-cases, if◌then◌else◌,
}
use async_fastapi_template.Prelude.Texts.Split.{
  has_comma, strip_idem, strip-has_comma, split_comma-has_comma, split_comma-join_comma,
}
use async_fastapi_template.Identity.Totp.{
  Sha, entries, verify_backup_code, joined, remove_used_backup_code,
}

-- A hash as the column holds it: no comma, stripped, not empty
abbrev pub IsEntry : Text → Type 0
IsEntry h = (has_comma h ≡ false) × (strip h ≡ h) × (is_empty h ≡ false)

kept_entries :
    (ps : List Text)
    → All (λ p. has_comma p ≡ false) ps
    → All IsEntry (select (λ h. not (is_empty h)) (map strip ps))
kept_entries [] h = tt
kept_entries (p ∷ ps) h = elim (Bool-cases (is_empty (strip p))) [
  | inl e ↦ rw e (kept_entries ps h.1)
  | inr e ↦ rw e ((strip-has_comma p h.0, strip_idem p, e), kept_entries ps h.1)
]

entries-IsEntry : (codes : Text) → All IsEntry (entries codes)
unfolding entries
entries-IsEntry codes = kept_entries (split_comma codes) (split_comma-has_comma codes)

All-select : (p : Text → Bool) (hs : List Text) → All IsEntry hs → All IsEntry (select p hs)
All-select p [] h = tt
All-select p (x ∷ hs) h = elim (Bool-cases (p x)) [
  | inl e ↦ rw e (h.0, All-select p hs h.1)
  | inr e ↦ rw e (All-select p hs h.1)
]

free : (hs : List Text) → All IsEntry hs → All (λ t. has_comma t ≡ false) hs
free [] h = tt
free (x ∷ hs) h = (h.0.0, free hs h.1)

kept_whole : (hs : List Text) → All IsEntry hs → select (λ h. not (is_empty h)) (map strip hs) ≡ hs
kept_whole [] h = refl
kept_whole (x ∷ hs) h = rw (h.0.1, h.0.2, kept_whole hs h.1) refl

entries-join_comma :
    (h : Text) (hs : List Text) → All IsEntry (h ∷ hs) → entries (join_comma (h ∷ hs)) ≡ h ∷ hs
unfolding entries
entries-join_comma h hs a =
    rw (split_comma-join_comma h hs (free (h ∷ hs) a)) (kept_whole (h ∷ hs) a)

no_entries : entries [] ≡ []
unfolding entries split_comma lstrip rstrip
no_entries = refl

verify-some :
    (sha : Sha) (code codes : Text)
    → verify_backup_code sha code (some codes)
      ≡ find (λ stored. same_text (sha code) stored) (entries codes)
unfolding verify_backup_code
verify-some sha code [] = sym (rw no_entries refl)
verify-some sha code (c ∷ cs) = refl

-- Looking a code up in a joined list is looking it up in the list.
pub verify-joined :
    (sha : Sha) (code : Text) (hs : List Text)
    → All IsEntry hs
    → verify_backup_code sha code (joined hs) ≡ find (λ stored. same_text (sha code) stored) hs
unfolding verify_backup_code
verify-joined sha code [] a = refl
verify-joined sha code (h ∷ hs) a =
    verify-some sha code (join_comma (h ∷ hs)) ∙ rw (entries-join_comma h hs a) refl

removed : (x used : Text) → same_text x used ≡ true → (y : Text) → same_text y x ≡ same_text y used
removed x used e y = rw (same_text→≡ x used e) refl

absorbed :
    (b : Bool) (h : Text) (o : Option Text)
    → (if b then none else o) ≡ (if b then none else if b then some h else o)
absorbed true h o = refl
absorbed false h o = refl

find-select :
    (x used : Text) (hs : List Text)
    → find (λ h. same_text x h) (select (λ h. not (same_text h used)) hs)
      ≡ (if same_text x used then none else find (λ h. same_text x h) hs)
find-select x used [] = elim (Bool-cases (same_text x used)) [
  | inl e ↦ rw e refl
  | inr e ↦ rw e refl
]
find-select x used (h ∷ hs) = elim (Bool-cases (same_text h used)) [
  | inl e ↦ rw (e, removed h used e x) (find-select x used hs ∙ absorbed (same_text x used) h _)
  | inr e ↦ rw e (elim (Bool-cases (same_text x h)) [
    | inl f ↦ rw (f, same_text→≡ x h f, e) refl
    | inr f ↦ rw f (find-select x used hs)
  ])
]

remaining :
    (sha : Sha) (x : Text) (c : ℕ) (h : Text) (cs : Text)
    → verify_backup_code sha x (remove_used_backup_code h (some (c ∷ cs)))
      ≡ (if same_text (sha x) h then none else verify_backup_code sha x (some (c ∷ cs)))
unfolding remove_used_backup_code
remaining sha x c h cs =
    rw
      (
        verify-joined sha x (select (λ y. not (same_text y h)) (entries (c ∷ cs)))
            (All-select (λ y. not (same_text y h)) (entries (c ∷ cs)) (entries-IsEntry (c ∷ cs))),
        verify-some sha x (c ∷ cs),
      )
      (find-select (sha x) h (entries (c ∷ cs)))

-- After a backup code is used, the code is refused, and every code with another hash is accepted
-- exactly if it was before.
pub remove_used_backup_code-verify :
    (sha : Sha) (code other : Text) (codes : Option Text) {h : Text}
    → verify_backup_code sha code codes ≡ some h
    → let left = remove_used_backup_code h codes in
      (verify_backup_code sha code left ≡ none)
      × (verify_backup_code sha other left
          ≡ (if same_text (sha other) (sha code) then none else verify_backup_code sha other codes))
unfolding verify_backup_code
remove_used_backup_code-verify sha code other none e = absurd cc
remove_used_backup_code-verify sha code other (some []) e = absurd cc
remove_used_backup_code-verify sha code other (some (c ∷ cs)) {h} e =
    let same = find-holds (λ stored. same_text (sha code) stored) h (entries (c ∷ cs)) e in
    let is : sha code ≡ h = same_text→≡ (sha code) h same in
    (remaining sha code c h cs ∙ rw same refl, remaining sha other c h cs ∙ rw is refl)
