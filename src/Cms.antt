-- ===== src/Cms.antt =====
-- app/crud/cms.py and app/api/endpoints/cms.py. Pages and posts share their code, up to the
-- columns of an excerpt and a cover and a filter of the list of posts: a `Content` is either. The
-- table is kept newest first, the order of its lists. Markdown is a parameter; meta texts are
-- left out.
pub mod Slugs
pub mod Calls
mod Tests
use text.Mathlib.Text.{◌==◌ as str_eq}
use async_fastapi_template.Prelude.{
  ℕ, String, ◌+◌, ◌==◌, opt_eq, Bool, true, false, not, ◌&&◌, ◌||◌, Option, none, some, is_some,
  List, [], ◌∷◌, any, select, find, take, drop, length, map, count_if, if◌then◌else◌,
}
use async_fastapi_template.Identity.Model.{User}
use async_fastapi_template.Identity.Security.{Reply, ok, fail, not_found, conflict, server_error}
use async_fastapi_template.Crud.{Model, put, delete}

pub record Content : Type 0 where
  pub id : ℕ
  pub tenant_id : Option ℕ
  pub author_id : Option ℕ
  pub title : String
  pub slug : String
  pub body_md : Option String
  pub body_html : Option String
  pub is_published : Bool
  pub categories : List ℕ
  pub tags : List ℕ
  pub deleted_at : Option ℕ

abbrev pub content_model : Model Content
content_model = record {
  id = λ p. p.id;
  deleted_at = λ p. p.deleted_at;
  set_deleted_at = λ t p. record p { deleted_at = t };
  has_soft_delete = true;
}

-- The tables: the contents, and the ids of the categories and tags
pub record Site : Type 0 where
  pub rows : List Content
  pub category_ids : List ℕ
  pub tag_ids : List ℕ
  pub next_id : ℕ

-- `PageCreate` and `PostCreate`
pub record ContentCreate : Type 0 where
  pub title : String
  pub slug : String
  pub body_md : Option String
  pub is_published : Bool
  pub category_ids : List ℕ
  pub tag_ids : List ℕ

-- `PageUpdate` and `PostUpdate`: a field that the body leaves out is `none`. An explicit `null` for
-- a column that may not be null is left out.
pub record ContentUpdate : Type 0 where
  pub new_title : Option String
  pub new_slug : Option String
  pub new_body_md : Option (Option String)
  pub new_is_published : Option Bool
  pub new_category_ids : Option (List ℕ)
  pub new_tag_ids : Option (List ℕ)

-- `Page.slug == slug, Page.deleted_at.is_(None)`, and the tenant if there is one
abbrev pub is_live : String → Content → Bool
is_live slug p = str_eq p.slug slug && not (is_some p.deleted_at)

abbrev pub of_tenant : Option ℕ → Content → Bool
of_tenant tenant_id p = not (is_some tenant_id) || opt_eq p.tenant_id tenant_id

-- A live content of a slug that the tenant filter of the engine (`cur` is the tenant of the
-- request) lets a query see
abbrev pub is_seen : Option ℕ → String → Content → Bool
is_seen cur slug p = of_tenant cur p && is_live slug p

-- `scalar_one_or_none`, which raises on several rows
abbrev pub one_or_none : {A : Type 0} → List A → Reply (Option A)
one_or_none [] = ok none
one_or_none (x ∷ []) = ok (some x)
one_or_none (x ∷ y ∷ xs) = fail server_error

-- `get_by_slug`
unfoldable pub get_by_slug : Option ℕ → String → Option ℕ → List Content → Reply (Option Content)
get_by_slug cur slug tenant_id rows =
    one_or_none (select (λ p. of_tenant cur p && (of_tenant tenant_id p && is_live slug p)) rows)

-- `get_multi_with_relations`
unfoldable pub get_multi_with_relations :
    Option ℕ → ℕ → ℕ → Option ℕ → Bool → List Content → List Content
get_multi_with_relations cur skip limit tenant_id published_only rows = take limit (
    drop skip (
      select
        (λ p.
          of_tenant cur p
          && (not (is_some p.deleted_at)
              && (of_tenant tenant_id p && (not published_only || p.is_published))))
        rows))

-- `count`
unfoldable pub count_content : Option ℕ → Option ℕ → List Content → ℕ
count_content cur tenant_id rows =
    length
      (select (λ p. of_tenant cur p && (not (is_some p.deleted_at) && of_tenant tenant_id p)) rows)

-- `select(Category).where(Category.id.in_(ids))`
abbrev pub found_in : List ℕ → List ℕ → List ℕ
found_in table ids = select (λ x. any (λ y. y == x) ids) table

-- The unique index on tenant and slug, which counts deleted rows too, and none without a tenant
abbrev pub collides : Content → List Content → Bool
collides p rows =
    any
      (λ (x : Content).
        not (x.id == p.id)
        && (is_some p.tenant_id && (opt_eq x.tenant_id p.tenant_id && str_eq x.slug p.slug)))
      rows

abbrev pub or_old : {A : Type 0} → Option A → A → A
or_old none a = a
or_old (some b) a = b

-- `page_in.slug and page_in.slug != slug`
abbrev pub renames : String → Option String → Bool
renames slug none = false
renames slug (some new) = not (str_eq new "") && not (str_eq new slug)

abbrev pub slug_or : Option String → String
slug_or none = ""
slug_or (some x) = x

-- Whether the new slug is free: the second look-up of `update_page`
unfoldable pub is_taken : Option ℕ → String → ContentUpdate → List Content → Reply Bool
unfolding get_by_slug
is_taken cur slug body rows =
    if not (renames slug body.new_slug)
    then ok false
    else elim (get_by_slug cur (slug_or body.new_slug) none rows) [
      | fail e ↦ fail e
      | ok none ↦ ok false
      | ok (some p) ↦ ok true
    ]

module _ (render_markdown : Option String → Option String) where
  -- `create_with_relations`; the flush raises if the index refuses the row.
  unfoldable pub create_with_relations : ContentCreate → Option ℕ → ℕ → Site → Reply Content × Site
  create_with_relations body tenant_id author_id s =
      let p : Content = record {
        id = s.next_id;
        tenant_id = tenant_id;
        author_id = some author_id;
        title = body.title;
        slug = body.slug;
        body_md = body.body_md;
        body_html = render_markdown body.body_md;
        is_published = body.is_published;
        categories = found_in s.category_ids body.category_ids;
        tags = found_in s.tag_ids body.tag_ids;
        deleted_at = none;
      } in
      if collides p s.rows
      then (fail server_error, s)
      else (ok p, record s { rows = p ∷ s.rows; next_id = s.next_id + 1 })

  -- The assignments of `update_with_relations`
  unfoldable pub updated : ContentUpdate → Site → Content → Content
  updated body s p = record p {
    title = or_old body.new_title p.title;
    slug = or_old body.new_slug p.slug;
    body_md = or_old body.new_body_md p.body_md;
    body_html = elim body.new_body_md [ none ↦ p.body_html | some md ↦ render_markdown md ];
    is_published = or_old body.new_is_published p.is_published;
    categories = elim body.new_category_ids [
      | none ↦ p.categories
      | some ids ↦ found_in s.category_ids ids
    ];
    tags = elim body.new_tag_ids [ none ↦ p.tags | some ids ↦ found_in s.tag_ids ids ];
  }

  -- `update_with_relations`
  unfoldable pub update_with_relations : Content → ContentUpdate → Site → Reply Content × Site
  unfolding updated
  update_with_relations p body s =
      let p' = updated body s p in
      if collides p' s.rows
      then (fail server_error, s)
      else (ok p', record s { rows = put content_model p' s.rows })

  -- `create_page`, `create_post`
  unfoldable pub create_page : Option ℕ → User → ContentCreate → Site → Reply Content × Site
  unfolding get_by_slug create_with_relations
  create_page cur u body s = elim (get_by_slug cur body.slug none s.rows) [
    | fail e ↦ (fail e, s)
    | ok (some p) ↦ (fail conflict, s)
    | ok none ↦ create_with_relations body u.tenant_id u.id s
  ]

  -- `update_page`, `update_post`
  unfoldable pub update_page : Option ℕ → String → ContentUpdate → Site → Reply Content × Site
  unfolding get_by_slug is_taken update_with_relations
  update_page cur slug body s = elim (get_by_slug cur slug none s.rows) [
    | fail e ↦ (fail e, s)
    | ok none ↦ (fail not_found, s)
    | ok (some p) ↦ elim (is_taken cur slug body s.rows) [
      | fail e ↦ (fail e, s)
      | ok true ↦ (fail conflict, s)
      | ok false ↦ update_with_relations p body s
    ]
  ]

-- `delete_page`, `delete_post`
unfoldable pub delete_page : Option ℕ → ℕ → String → Site → Reply (Unit {0}) × Site
unfolding get_by_slug delete
delete_page cur now slug s = elim (get_by_slug cur slug none s.rows) [
  | fail e ↦ (fail e, s)
  | ok none ↦ (fail not_found, s)
  | ok (some p) ↦ (ok tt, record s { rows = (delete content_model now s.rows p.id).1 })
]
