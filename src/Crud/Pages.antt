-- ===== src/Crud/Pages.antt =====
-- app/utils/pagination.py: the pages that the endpoints answer. The JSON and the base64 of a cursor
-- are parameters.
use async_fastapi_template.Prelude.{
  is_empty, ℕ, Text, ◌+◌, ◌-◌, ◌*◌, ◌/◌, ◌≡◌, Bool, false, Option, none, some, List, ltb, length,
  take, if◌then◌else◌,
}
use async_fastapi_template.Crud.{last}

-- `json` and `base64` over texts; `none` is an answer that is no number.
pub record Codec : Type 0 where
  pub dumps : ℕ → Text
  pub loads : Text → Option ℕ
  pub urlsafe_b64encode : Text → Text
  pub urlsafe_b64decode : Text → Text
  pub loads_dumps : (n : ℕ) → loads (dumps n) ≡ some n
  pub dumps_solid : (n : ℕ) → is_empty (urlsafe_b64encode (dumps n)) ≡ false
  pub decode_encode : (s : Text) → urlsafe_b64decode (urlsafe_b64encode s) ≡ s

-- `encode_cursor`
unfoldable pub encode_cursor : Codec → ℕ → Text
encode_cursor py value = py.urlsafe_b64encode (py.dumps value)

-- `decode_cursor`
unfoldable pub decode_cursor : Codec → Text → Option ℕ
decode_cursor py cursor = py.loads (py.urlsafe_b64decode cursor)

-- `Params`
pub record Params : Type 0 where
  pub page : ℕ
  pub size : ℕ

-- `Params.skip`
abbrev pub skip : Params → ℕ
skip p = (p.page - 1) * p.size

-- `Page`
pub record Page (T : Type 0) : Type 0 where
  pub items : List T
  pub total : ℕ
  pub page : ℕ
  pub size : ℕ
  pub pages : ℕ

-- `CursorPage`
pub record CursorPage (T : Type 0) : Type 0 where
  pub items : List T
  pub next_cursor : Option Text
  pub has_more : Bool
  pub size : ℕ

module _ {T : Type 0} where
  -- `Page.create`; the ceiling is that of a whole number over a positive size.
  unfoldable pub create_page : List T → ℕ → Params → Page T
  create_page items total p = record {
    items = items;
    total = total;
    page = p.page;
    size = p.size;
    pages = if ltb 0 total then (total + p.size - 1) / p.size else 0;
  }

  -- `CursorPage.create`, of what the rows' `id` is
  unfoldable pub create_cursor_page : Codec → (T → ℕ) → List T → ℕ → CursorPage T
  unfolding encode_cursor
  create_cursor_page py id items size =
      let page_items = take size items in
      let has_more = ltb size (length items) in
      record {
        items = page_items;
        next_cursor =
            if has_more
            then elim (last page_items) [ none ↦ none | some a ↦ some (encode_cursor py (id a)) ]
            else none;
        has_more = has_more;
        size = length page_items;
      }
