-- ===== src/Cms/Calls/Visits.antt =====
-- What the endpoints of app/api/endpoints/cms.py lead to: every site that calls reach from an
-- empty one.
use async_fastapi_template.Prelude.{ℕ, String, ◌≡◌, true, Option, none, List, [], find, arith}
use async_fastapi_template.Identity.Model.{User}
use async_fastapi_template.Identity.Security.{ok}
use async_fastapi_template.Cms.{
  ContentCreate, ContentUpdate, Site, is_seen, get_by_slug, create_page, update_page, delete_page,
}
use async_fastapi_template.Cms.Slugs.{IsTidy, get_by_slug-IsTidy}
use async_fastapi_template.Cms.Calls.{
  is_valid, create_page-IsTidy, update_page-IsTidy, delete_page-IsTidy,
}

abbrev pub empty_site : List ℕ → List ℕ → Site
empty_site category_ids tag_ids = record {
  rows = [];
  category_ids = category_ids;
  tag_ids = tag_ids;
  next_id = 1;
}

module _ (cur : Option ℕ) (render : Option String → Option String)
    (category_ids tag_ids : List ℕ) where
  pub data IsReachable : Site → Type 0 where
    start : IsReachable (empty_site category_ids tag_ids)
    creates :
        (s : Site) (u : User) (body : ContentCreate)
        → IsReachable s
        → IsReachable (create_page render cur u body s).1
    updates :
        (s : Site) (slug : String) (body : ContentUpdate)
        → is_valid body ≡ true
        → IsReachable s
        → IsReachable (update_page render cur slug body s).1
    deletes :
        (s : Site) (now : ℕ) (slug : String)
        → IsReachable s
        → IsReachable (delete_page cur now slug s).1

  reachable-IsTidy : (s : Site) → IsReachable s → IsTidy cur s
  reachable-IsTidy _ start = record { newest = tt; single = λ slug. omega arith }
  reachable-IsTidy _ (creates s u body r) =
      create_page-IsTidy cur render u body s (reachable-IsTidy s r)
  reachable-IsTidy _ (updates s slug body v r) =
      update_page-IsTidy cur render slug body s v (reachable-IsTidy s r)
  reachable-IsTidy _ (deletes s now slug r) =
      delete_page-IsTidy cur render now slug s (reachable-IsTidy s r)

  -- If all requests come under one tenant, or all without one: on every site that creations,
  -- deletions, and updates that give no empty slug, reach from the empty one, a look-up by a slug
  -- does not raise. It answers with the first live content of the slug that the tenant sees, and
  -- with nothing if there is none.
  pub get_by_slug-IsReachable :
      (s : Site) (slug : String)
      → IsReachable s
      → get_by_slug cur slug none s.rows ≡ ok (find (is_seen cur slug) s.rows)
  get_by_slug-IsReachable s slug r = get_by_slug-IsTidy cur s slug (reachable-IsTidy s r)
