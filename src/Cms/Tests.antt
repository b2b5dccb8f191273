-- ===== src/Cms/Tests.antt =====
-- A site on which a page was created, renamed and deleted.
use async_fastapi_template.Prelude.{ℕ, String, ◌≡◌, refl, true, Option, none, some, [], find}
use async_fastapi_template.Identity.Security.{ok}
use async_fastapi_template.Identity.Tests.Fixtures.{ada}
use async_fastapi_template.Cms.{
  ContentCreate, ContentUpdate, Site, is_seen, get_by_slug, create_page, update_page,
}
use async_fastapi_template.Cms.Calls.Visits.{
  empty_site, IsReachable, start, creates, updates, get_by_slug-IsReachable,
}

abbrev render : Option String → Option String
render o = o

abbrev tenant : Option ℕ
tenant = some 7

abbrev about : ContentCreate
about = record {
  title = "About";
  slug = "about";
  body_md = none;
  is_published = true;
  category_ids = [];
  tag_ids = [];
}

abbrev renamed : ContentUpdate
renamed = record {
  new_title = none;
  new_slug = some "who-we-are";
  new_body_md = none;
  new_is_published = none;
  new_category_ids = none;
  new_tag_ids = none;
}

abbrev visited : Site
visited =
    (create_page render tenant ada about
      (update_page render tenant "about" renamed
        (create_page render tenant ada about (empty_site [] [])).1).1).1

visited-IsReachable : IsReachable tenant render [] [] visited
visited-IsReachable =
    creates _ ada about (updates _ "about" renamed refl (creates _ ada about start))

get_by_slug-IsReachable_example :
    get_by_slug tenant "about" none visited.rows ≡ ok (find (is_seen tenant "about") visited.rows)
get_by_slug-IsReachable_example =
    get_by_slug-IsReachable tenant render [] [] visited "about" visited-IsReachable
