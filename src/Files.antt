-- ===== src/Files.antt =====
-- app/api/endpoints/files.py and app/crud/file.py over the local storage, app/storage/local.py. The
-- methods of paths, SHA-256 and the thumbnails of an image are parameters. The table is kept newest
-- first, the order of its list; the column `metadata_`, which nothing here writes, is left out.
pub mod Uploads
mod Tests
use text.Mathlib.Text.{◌==◌ as str_eq}
use async_fastapi_template.Prelude.{
  Text, ℕ, String, ◌+◌, ◌-◌, ◌*◌, ◌==◌, opt_eq, Bool, true, false, not, ◌&&◌, Option, none, some,
  List, [], ◌∷◌, any, select, find, find_last, take, drop, length, ltb, if◌then◌else◌,
}
use async_fastapi_template.Identity.Security.{Reply, ok, fail, bad_request, not_found, server_error}
use async_fastapi_template.Crud.{Model, get, delete}

pub record File : Type 0 where
  pub id : ℕ
  pub filename : String
  pub original_filename : String
  pub mime_type : String
  pub size_bytes : ℕ
  pub storage_path : String
  pub checksum_sha256 : String
  pub uploader_id : Option ℕ
  pub thumbnail_path_small : Option String
  pub thumbnail_path_medium : Option String
  pub thumbnail_path_large : Option String

-- `File` has no soft deletion.
abbrev pub file_model : Model File
file_model = record {
  id = λ f. f.id;
  deleted_at = λ f. none;
  set_deleted_at = λ t f. f;
  has_soft_delete = false;
}

-- The contents by their paths
abbrev pub Disk : Type 0
Disk = String → Option Text

-- The table and the disk
pub record Shelf : Type 0 where
  pub rows : List File
  pub next_id : ℕ
  pub disk : Disk

-- `Path(filename).name`, `path.split("/")[-1]`, the hash, whether a type is that of an image, the
-- thumbnails of a content by the names of their sizes, which are none if no size is set and may
-- raise, and the file name of a thumbnail
pub record Python : Type 0 where
  pub base_name : String → String
  pub last_part : String → String
  pub sha256 : Text → String
  pub is_image_mime : String → Bool
  pub generate_all_thumbnails : Text → Option (List (String × Text))
  pub thumb_filename : String → String → String

-- `LocalStorage.upload_bytes`
unfoldable pub upload_bytes : Python → Text → String → Disk → String × Disk
upload_bytes py bytes name disk =
    let path = py.base_name name in (path, λ p. if str_eq p path then some bytes else disk p)

-- `LocalStorage.download`; `none` is a file that is not there.
unfoldable pub download : String → Disk → Option Text
download path disk = disk path

-- `LocalStorage.delete`
unfoldable pub delete_path : String → Disk → Disk
delete_path path disk p = if str_eq p path then none else disk p

-- The loop of `_generate_thumbnails`: the path of each size, and the disk
unfoldable pub store_thumbnails :
    Python → String → List (String × Text) → Disk → List (String × String) × Disk
unfolding upload_bytes
store_thumbnails py path [] disk = ([], disk)
store_thumbnails py path ((size, bytes) ∷ thumbs) disk =
    let (p, disk') = upload_bytes py bytes (py.thumb_filename path size) disk in
    let (paths, disk'') = store_thumbnails py path thumbs disk' in ((size, p) ∷ paths, disk'')

-- `thumbs.get(size)`
abbrev pub thumb_at : String → List (String × String) → Option String
thumb_at size paths = elim (find_last (λ (p : String × String). str_eq p.0 size) paths) [
  | none ↦ none
  | some p ↦ some p.1
]

-- The thumbnails that `_generate_thumbnails` makes
abbrev pub thumbnails_of : Python → Text → String → Option (List (String × Text))
thumbnails_of py content mime_type =
    if py.is_image_mime mime_type then py.generate_all_thumbnails content else some []

-- The row of `create_from_upload`
abbrev pub file_row :
    Python → ℕ → String → String → String → Text → ℕ → List (String × String) → File
file_row py id path name mime_type content uploader_id paths = record {
  id = id;
  filename = py.last_part path;
  original_filename = name;
  mime_type = mime_type;
  size_bytes = length content;
  storage_path = path;
  checksum_sha256 = py.sha256 content;
  uploader_id = some uploader_id;
  thumbnail_path_small = thumb_at "small" paths;
  thumbnail_path_medium = thumb_at "medium" paths;
  thumbnail_path_large = thumb_at "large" paths;
}

-- `storage_path` is unique.
abbrev pub is_used : String → List File → Bool
is_used path rows = any (λ (f : File). str_eq f.storage_path path) rows

-- `create_from_upload`, whose commit the unique index may refuse
unfoldable pub create_from_upload : File → Disk → Shelf → Reply File × Shelf
create_from_upload f disk s =
    if is_used f.storage_path s.rows
    then (fail server_error, record s { disk = disk })
    else (ok f, record { rows = f ∷ s.rows; next_id = s.next_id + 1; disk = disk })

-- `_MAX_FILE_SIZE_MB * 1024 * 1024`
abbrev pub max_bytes : ℕ
max_bytes = 52428800

-- `file.content_type or "application/octet-stream"`
abbrev pub mime_or : Option String → String
mime_or none = "application/octet-stream"
mime_or (some t) = if str_eq t "" then "application/octet-stream" else t

-- `upload_file`
unfoldable pub upload_file : Python → ℕ → String → Option String → Text → Shelf → Reply File × Shelf
unfolding upload_bytes store_thumbnails create_from_upload
upload_file py user_id name content_type content s =
    if str_eq name ""
    then (fail bad_request, s)
    else if ltb max_bytes (length content)
    then (fail bad_request, s)
    else (let mime_type = mime_or content_type in
        let (path, disk) = upload_bytes py content name s.disk in
        elim (thumbnails_of py content mime_type) [
          | none ↦ (fail server_error, record s { disk = disk })
          | some thumbs ↦
              let (paths, disk') = store_thumbnails py path thumbs disk in
              create_from_upload (file_row py s.next_id path name mime_type content user_id paths)
                disk' s
        ])

-- `get_multi_by_uploader`: a page and the number of all
unfoldable pub list_files : ℕ → ℕ → ℕ → Shelf → List File × ℕ
list_files user_id page per_page s =
    let mine = select (λ (f : File). opt_eq f.uploader_id (some user_id)) s.rows in
    (take per_page (drop ((page - 1) * per_page) mine), length mine)

-- `get_file`
unfoldable pub get_file : ℕ → Shelf → Reply File
unfolding get
get_file id s = elim (get file_model s.rows id false) [ none ↦ fail not_found | some f ↦ ok f ]

-- `if file_obj.thumbnail_path_…: await storage.delete(…)`
abbrev pub delete_thumbnail : Option String → Disk → Disk
delete_thumbnail none disk = disk
delete_thumbnail (some path) disk = if str_eq path "" then disk else delete_path path disk

-- `delete_file`
unfoldable pub delete_file : ℕ → ℕ → Shelf → Reply (Unit {0}) × Shelf
unfolding get delete
delete_file now id s = elim (get file_model s.rows id false) [
  | none ↦ (fail not_found, s)
  | some f ↦
      let disk = delete_path f.storage_path s.disk in
      let disk' =
        delete_thumbnail f.thumbnail_path_large (
          delete_thumbnail f.thumbnail_path_medium
            (delete_thumbnail f.thumbnail_path_small disk)) in
      (ok tt, record s { rows = (delete file_model now s.rows id).1; disk = disk' })
]

-- `download_file`
unfoldable pub download_file : String → Shelf → Reply Text
unfolding download
download_file path s = elim (download path s.disk) [ none ↦ fail not_found | some c ↦ ok c ]
