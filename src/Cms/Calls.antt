-- ===== src/Cms/Calls.antt =====
-- The endpoints keep the site tidy.
pub mod Visits
use mathlib.Core.Path.{subst}
use text.Mathlib.Text.{◌==◌ as str_eq}
use text.Mathlib.TextEquality.{eq_iff}
use async_fastapi_template.Prelude.{
  ℕ, String, ◌+◌, ◌≤◌, ◌<◌, ◌==◌, ◌≡◌, ◌⊎◌, refl, sym, ap, ◌∙◌, Bool, true, false, not, ◌&&◌, ◌||◌,
  Option, none, some, is_some, some_injective, List, [], ◌∷◌, select, find, find-holds, count_if,
  arith, if◌then◌else◌, Bool-cases, Option-cases, inl, inr,
}
use async_fastapi_template.Identity.Model.{User}
use async_fastapi_template.Identity.Security.{Reply, ok, fail}
use async_fastapi_template.Crud.{put, get, delete, is_visible}
use async_fastapi_template.Crud.Deletion.{Columns, delete_soft}
use async_fastapi_template.Cms.{
  Content, ContentCreate, ContentUpdate, content_model, Site, is_seen, get_by_slug, collides,
  create_with_relations, updated, update_with_relations, create_page, renames, is_taken, found_in,
  or_old, slug_or, update_page, delete_page,
}
use async_fastapi_template.Cms.Slugs.{
  IsBelow, live, IsTidy, get_by_slug-IsTidy, none_found, put-count, put-IsBelow, IsBelow-later,
}

abbrev content_columns : Columns content_model
content_columns = record { id_set = λ o a. refl; deleted_set = λ o a. refl; set_set = λ o a. refl }

-- The schema admits no empty slug.
abbrev pub is_valid : ContentUpdate → Bool
is_valid body = elim body.new_slug [ none ↦ true | some x ↦ not (str_eq x "") ]

module _ (cur : Option ℕ) (render : Option String → Option String) where
  added-live :
      (slug : String) (p : Content) (rows : List Content)
      → live cur p.slug rows ≡ 0
      → live cur slug rows ≤ 1
      → live cur slug (p ∷ rows) ≤ 1
  added-live slug p rows z h = elim (Bool-cases (str_eq p.slug slug)) [
    | inl e ↦
        let k = subst (λ x. live cur x rows ≡ 0) ((eq_iff p.slug slug).0 e) z in
        ground (arith, k, e)
    | inr e ↦ ground (arith, h, e)
  ]

  create_with_relations-IsTidy :
      (body : ContentCreate) (tenant_id : Option ℕ) (author_id : ℕ) (s : Site)
      → IsTidy cur s
      → live cur body.slug s.rows ≡ 0
      → IsTidy cur (create_with_relations render body tenant_id author_id s).1
  unfolding create_with_relations
  create_with_relations-IsTidy body tenant_id author_id s h z =
      let p : Content = record {
        id = s.next_id;
        tenant_id = tenant_id;
        author_id = some author_id;
        title = body.title;
        slug = body.slug;
        body_md = body.body_md;
        body_html = render body.body_md;
        is_published = body.is_published;
        categories = found_in s.category_ids body.category_ids;
        tags = found_in s.tag_ids body.tag_ids;
        deleted_at = none;
      } in
      elim (Bool-cases (collides p s.rows)) [
        | inl e ↦ rw e h
        | inr e ↦ rw e (record {
          newest = (omega arith, h.newest);
          single = λ slug. added-live slug p s.rows z (h.single slug);
        })
      ]

  pub create_page-IsTidy :
      (u : User) (body : ContentCreate) (s : Site)
      → IsTidy cur s
      → IsTidy cur (create_page render cur u body s).1
  unfolding create_page
  create_page-IsTidy u body s h = elim (Option-cases (find (is_seen cur body.slug) s.rows)) [
    | inl f ↦
        rw (create_page, get_by_slug-IsTidy cur s body.slug h, f)
          (create_with_relations-IsTidy body u.tenant_id u.id s h
            (none_found (is_seen cur body.slug) s.rows f))
    | inr (p, f) ↦ rw (create_page, get_by_slug-IsTidy cur s body.slug h, f) h
  ]

  -- A row in the place of a live cur one of its slug, or of a slug that no row had
  put-IsTidy :
      (q : Content → Bool) (p x : Content) (s : Site)
      → IsTidy cur s
      → find q s.rows ≡ some p
      → x.id ≡ p.id
      → ((t : String) → is_seen cur t x ≡ true → (is_seen cur t p ≡ true) ⊎ (live cur t s.rows ≡ 0))
      → IsTidy cur (record s { rows = put content_model x s.rows })
  put-IsTidy q p x s h f i keeps = record {
    newest = put-IsBelow s.next_id x s.rows h.newest;
    single = λ t.
        let c = put-count s.next_id q (is_seen cur t) p x s.rows h.newest f i in
        elim (Bool-cases (is_seen cur t x)) [
          | inl e ↦ elim (keeps t e) [
            | inl k ↦ ground (arith, c, e, k, h.single t)
            | inr k ↦ ground (arith, c, e, k, h.single t)
          ]
          | inr e ↦ ground (arith, c, e, h.single t)
        ];
  }

  -- The new slug of an update that goes on is the old one, or that of no live content.
  abbrev IsFree : String → ContentUpdate → Site → Type 0
  IsFree slug body s =
      (new : String) → body.new_slug ≡ some new → (new ≡ slug) ⊎ (live cur new s.rows ≡ 0)

  is_taken-cases :
      (slug : String) (body : ContentUpdate) (s : Site)
      → is_valid body ≡ true
      → IsTidy cur s
      → (is_taken cur slug body s.rows ≡ ok true)
        ⊎ ((is_taken cur slug body s.rows ≡ ok false) × IsFree slug body s)
  unfolding is_taken
  is_taken-cases slug body s v h = elim (Option-cases body.new_slug) [
    | inl e ↦ inr (rw e refl, λ new f. absurd cc)
    | inr (new, e) ↦
        let looked =
          subst
            (λ (o : Option String).
              get_by_slug cur (slug_or body.new_slug) none s.rows
              ≡ ok (find (is_seen cur (slug_or o)) s.rows))
            e (get_by_slug-IsTidy cur s (slug_or body.new_slug) h) in
        let filled : str_eq new "" ≡ false = ground (arith, v, e) in
        elim (Bool-cases (str_eq new slug)) [
          | inl b ↦ inr (
            rw (is_taken, e, b, filled) refl,
            λ x f.
                inl (
                  subst (λ y. y ≡ slug) (some_injective new x (sym e ∙ f)) ((eq_iff new slug).0 b)),
          )
          | inr b ↦ elim (Option-cases (find (is_seen cur new) s.rows)) [
            | inl g ↦ inr (
              rw (is_taken, e, b, filled, looked, g) refl,
              λ x f. inr (
                  subst (λ y. live cur y s.rows ≡ 0) (some_injective new x (sym e ∙ f))
                    (none_found (is_seen cur new) s.rows g)),
            )
            | inr (a, g) ↦ inl (rw (is_taken, e, b, filled, looked, g) refl)
          ]
        ]
  ]

  new_live :
      (q : Bool) (new t : String) (d : Option ℕ)
      → (q && (str_eq new t && not (is_some d))) ≡ true
      → (new ≡ t) × (is_some d ≡ false)
  new_live q new t d g = elim (Bool-cases (str_eq new t)) [
    | inl e ↦ ((eq_iff new t).0 e, ground (arith, g, e))
    | inr e ↦ absurd (ground (arith, g, e))
  ]

  update_with_relations-IsTidy :
      (slug : String) (p : Content) (body : ContentUpdate) (s : Site)
      → IsTidy cur s
      → find (is_seen cur slug) s.rows ≡ some p
      → IsFree slug body s
      → IsTidy cur (update_with_relations render p body s).1
  unfolding update_with_relations updated
  update_with_relations-IsTidy slug p body s h f free =
      elim (Bool-cases (collides (updated render body s p) s.rows)) [
        | inl e ↦ rw e h
        | inr e ↦ rw e (
            put-IsTidy (is_seen cur slug) p (updated render body s p) s h f refl (λ t g.
              elim (Option-cases body.new_slug) [
                | inl n ↦ inl (rw n at g)
                | inr (new, n) ↦
                    let k = new_live _ new t p.deleted_at (rw n at g) in
                    elim (free new n) [
                      | inl same ↦ inl (
                          subst (λ y. is_seen cur y p ≡ true) (sym same ∙ k.0)
                            (find-holds (is_seen cur slug) p s.rows f))
                      | inr z ↦ inr (subst (λ y. live cur y s.rows ≡ 0) k.0 z)
                    ]
              ]))
      ]

  pub delete_page-IsTidy :
      (now : ℕ) (slug : String) (s : Site)
      → IsTidy cur s
      → IsTidy cur (delete_page cur now slug s).1
  unfolding delete_page delete get
  delete_page-IsTidy now slug s h = elim (Option-cases (find (is_seen cur slug) s.rows)) [
    | inl f ↦ rw (delete_page, get_by_slug-IsTidy cur s slug h, f) h
    | inr (p, f) ↦
        rw (delete_page, get_by_slug-IsTidy cur s slug h, f)
          (elim (Option-cases (get content_model s.rows p.id false)) [
            | inl g ↦ rw (delete, g) h
            | inr (a, g) ↦ rw (delete_soft content_model content_columns refl now p.id s.rows a g) (
                put-IsTidy (λ r. r.id == p.id && is_visible content_model false r) a
                  (content_model.set_deleted_at (some now) a) s h g refl
                  (λ t e. absurd (ground (arith, e))))
          ])
  ]

  pub update_page-IsTidy :
      (slug : String) (body : ContentUpdate) (s : Site)
      → is_valid body ≡ true
      → IsTidy cur s
      → IsTidy cur (update_page render cur slug body s).1
  unfolding update_page
  update_page-IsTidy slug body s v h = elim (Option-cases (find (is_seen cur slug) s.rows)) [
    | inl f ↦ rw (update_page, get_by_slug-IsTidy cur s slug h, f) h
    | inr (p, f) ↦
        rw (update_page, get_by_slug-IsTidy cur s slug h, f)
          (elim (is_taken-cases slug body s v h) [
            | inl e ↦ rw e h
            | inr (e, free) ↦ rw e (update_with_relations-IsTidy slug p body s h f free)
          ])
  ]
