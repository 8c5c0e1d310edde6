-- ===== src/Protocol/MimeType.antt =====
-- `mime_type_from_extension` of src/protocol/http_mime_type.cpp.
pub mod Parameters
mod Runs
use libnhttp.Base.{ℕ, List, [], ◌∷◌, map, Bytes, ◌==◌, Option, some, none, if◌then◌else◌, codes}
use libnhttp.Base.Text.{bytes_eq}
use libnhttp.Protocol.HttpHeader.{lower}

abbrev pub mime_table : List (Bytes × Bytes)
mime_table =
    (codes "html", codes "text/html")
    ∷ (codes "htm", codes "text/html")
    ∷ (codes "txt", codes "text/plain")
    ∷ (codes "css", codes "text/css")
    ∷ (codes "csv", codes "text/csv")
    ∷ (codes "json", codes "application/json")
    ∷ (codes "js", codes "application/javascript")
    ∷ (codes "mjs", codes "application/javascript")
    ∷ (codes "xml", codes "application/xml")
    ∷ (codes "pdf", codes "application/pdf")
    ∷ (codes "png", codes "image/png")
    ∷ (codes "jpg", codes "image/jpeg")
    ∷ (codes "jpeg", codes "image/jpeg")
    ∷ (codes "gif", codes "image/gif")
    ∷ (codes "svg", codes "image/svg+xml")
    ∷ (codes "ico", codes "image/x-icon")
    ∷ (codes "bin", codes "application/octet-stream")
    ∷ (codes "wasm", codes "application/wasm")
    ∷ (codes "woff", codes "font/woff")
    ∷ (codes "woff2", codes "font/woff2")
    ∷ (codes "mp4", codes "video/mp4")
    ∷ (codes "mp3", codes "audio/mpeg")
    ∷ (codes "wav", codes "audio/wav")
    ∷ (codes "zip", codes "application/zip")
    ∷ []

-- `find_last_of`: what stands behind the last such character.
unfoldable pub behind_last : ℕ → Bytes → Option Bytes
behind_last c [] = none
behind_last c (x ∷ xs) = elim (behind_last c xs) [
  | some later ↦ some later
  | none ↦ if x == c then some xs else none
]

abbrev pub filename_of : Bytes → Option Bytes → Bytes
filename_of path none = path
filename_of path (some name) = name

unfoldable pub mime_in : Bytes → List (Bytes × Bytes) → Bytes
mime_in ext [] = codes "application/octet-stream"
mime_in ext ((e, mime) ∷ rest) = if bytes_eq e ext then mime else mime_in ext rest

unfoldable pub mime_of : Option Bytes → Bytes
unfolding mime_in
mime_of none = codes "application/octet-stream"
mime_of (some ext) = mime_in (map lower ext) mime_table

unfoldable pub mime_type_from_extension : Bytes → Bytes
unfolding mime_of behind_last
mime_type_from_extension path = mime_of (behind_last 46 (filename_of path (behind_last 47 path)))
