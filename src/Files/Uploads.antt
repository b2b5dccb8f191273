-- ===== src/Files/Uploads.antt =====
-- What an upload leaves on the disk.
use mathlib.Core.Path.{subst}
use text.Mathlib.Text.{◌==◌ as str_eq}
use text.Mathlib.TextPositions.{eq_refl}
use async_fastapi_template.Prelude.{
  Text, ℕ, String, ◌+◌, ◌==◌, ◌≡◌, refl, sym, ◌∙◌, true, false, ◌&&◌, Option, some, List, [], ◌∷◌,
  length, ltb, All, arith, Bool-cases, ◌⊎◌, inl, inr,
}
use async_fastapi_template.Identity.Security.{Reply, ok, fail, server_error}
use async_fastapi_template.Crud.{get}
use async_fastapi_template.Files.{
  File, Disk, Shelf, Python, upload_bytes, store_thumbnails, mime_or, thumbnails_of, is_used,
  max_bytes, file_row, create_from_upload, upload_file, get_file, download, download_file,
}

module _ (py : Python) (user_id : ℕ) (name : String) (content_type : Option String)
    (content : Text) where
  abbrev path : String
  path = py.base_name name

  -- No thumbnail is written under the path.
  abbrev pub Avoids : String → List (String × Text) → Type 0
  Avoids p thumbs =
      All (λ (t : String × Text). str_eq p (py.base_name (py.thumb_filename path t.0)) ≡ false)
        thumbs

  kept :
      (p : String) (thumbs : List (String × Text)) (disk : Disk)
      → Avoids p thumbs
      → (store_thumbnails py path thumbs disk).1 p ≡ disk p
  unfolding store_thumbnails upload_bytes
  kept p [] disk a = refl
  kept p ((size, bytes) ∷ thumbs) disk a =
      kept p thumbs (upload_bytes py bytes (py.thumb_filename path size) disk).1 a.1 ∙ rw a.0 refl

  written : (disk : Disk) → (upload_bytes py content name disk).1 path ≡ some content
  unfolding upload_bytes
  written disk = rw (eq_refl path) refl

  -- What an upload comes to: a download of its path returns the content. Without a row of that path
  -- the answer is a row that a look-up finds; with one, an error, and the table is as before.
  abbrev pub Stored : Shelf → Reply File × Shelf → Type 0
  Stored s out =
      (download_file path out.1 ≡ ok content)
      × (((is_used path s.rows ≡ true) × (out.0 ≡ fail server_error) × (out.1.rows ≡ s.rows))
          ⊎ ((is_used path s.rows ≡ false)
              × ((f : File) × (out.0 ≡ ok f)
                  × (get_file s.next_id out.1 ≡ ok f)
                  × (f.storage_path ≡ path)
                  × (f.size_bytes ≡ length content)
                  × (f.checksum_sha256 ≡ py.sha256 content))))

  downloads : (s : Shelf) → s.disk path ≡ some content → download_file path s ≡ ok content
  unfolding download_file download
  downloads s e = rw (download_file, e) refl

  found :
      (f : File) (s : Shelf) (disk : Disk)
      → f.id ≡ s.next_id
      → get_file s.next_id (record { rows = f ∷ s.rows; next_id = s.next_id + 1; disk = disk })
        ≡ ok f
  unfolding get_file get
  found f s disk e =
      let same : (f.id == s.next_id && true) ≡ true = ground (arith, e) in rw (get_file, same) refl

  created :
      (paths : List (String × String)) (disk : Disk) (s : Shelf)
      → disk path ≡ some content
      → let f = file_row py s.next_id path name (mime_or content_type) content user_id paths in
        Stored s (create_from_upload f disk s)
  unfolding create_from_upload
  created paths disk s e =
      let f = file_row py s.next_id path name (mime_or content_type) content user_id paths in
      elim (Bool-cases (is_used path s.rows)) [
        | inl b ↦ rw b (downloads (record s { disk = disk }) e, inl (refl, refl, refl))
        | inr b ↦ rw b (
          downloads (record { rows = f ∷ s.rows; next_id = s.next_id + 1; disk = disk }) e,
          inr (refl, (f, refl, found f s disk refl, refl, refl, refl)),
        )
      ]

  -- An upload with a name and within the size, whose thumbnails are made and are not written over
  -- it: if no row has its path, the answer is a row that a look-up finds, with the size and the
  -- hash of the content, and a download of its path returns the content. If a row has its path,
  -- the upload fails with a server error and leaves the table alone, but a download of that row's
  -- path returns the new content: the old one is lost.
  pub upload_file-download :
      (thumbs : List (String × Text)) (s : Shelf)
      → str_eq name "" ≡ false
      → ltb max_bytes (length content) ≡ false
      → thumbnails_of py content (mime_or content_type) ≡ some thumbs
      → Avoids path thumbs
      → Stored s (upload_file py user_id name content_type content s)
  unfolding upload_file upload_bytes
  upload_file-download thumbs s n l t a =
      let disk = (upload_bytes py content name s.disk).1 in
      let out = store_thumbnails py path thumbs disk in
      let f = file_row py s.next_id path name (mime_or content_type) content user_id out.0 in
      let same : upload_file py user_id name content_type content s ≡ create_from_upload f out.1 s =
        rw (upload_file, n, l, t) refl in
      subst (Stored s) (sym same) (created out.0 out.1 s (kept path thumbs disk a ∙ written s.disk))
