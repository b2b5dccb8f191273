-- ===== src/Files/Tests.antt =====
-- A second upload under the name of a stored file.
use async_fastapi_template.Prelude.{refl, none, some, [], ◌∷◌}
use async_fastapi_template.Files.{File, Shelf, Python, upload_file}
use async_fastapi_template.Files.Uploads.{Stored, upload_file-download}
use text.Mathlib.Text.{◌==◌ as str_eq}
use async_fastapi_template.Prelude.{if◌then◌else◌}

abbrev python : Python
python = record {
  base_name = λ s. s;
  last_part = λ s. s;
  sha256 = λ t. "hash";
  is_image_mime = λ m. str_eq m "image/png";
  generate_all_thumbnails = λ t. some (("small", t) ∷ []);
  thumb_filename = λ p size. "thumbnails/a_small.webp";
}

abbrev old : File
old = record {
  id = 1;
  filename = "a.png";
  original_filename = "a.png";
  mime_type = "image/png";
  size_bytes = 1;
  storage_path = "a.png";
  checksum_sha256 = "old";
  uploader_id = some 7;
  thumbnail_path_small = none;
  thumbnail_path_medium = none;
  thumbnail_path_large = none;
}

abbrev shelf : Shelf
shelf = record {
  rows = old ∷ [];
  next_id = 2;
  disk = λ p. if str_eq p "a.png" then some (1 ∷ []) else none;
}

upload_file-download_example :
    Stored python 8 "a.png"
      (some "image/png")
      (2 ∷ 3 ∷ [])
      shelf
      (upload_file python 8 "a.png" (some "image/png") (2 ∷ 3 ∷ []) shelf)
upload_file-download_example =
    upload_file-download python 8 "a.png" (some "image/png") (2 ∷ 3 ∷ [])
      (("small", 2 ∷ 3 ∷ []) ∷ []) shelf refl refl refl (refl, tt)
