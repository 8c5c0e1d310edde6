-- ===== src/Protocol/MimeType/Runs.antt =====
-- Concrete runs of the types of files.
use libnhttp.Base.{◌≡◌, refl, codes}
use libnhttp.Base.Text.{bytes_eq}
use libnhttp.Protocol.MimeType.{behind_last, mime_in, mime_of, mime_type_from_extension}

html_run : mime_type_from_extension (codes "/srv/a.b/index.HTML") ≡ codes "text/html"
unfolding mime_type_from_extension mime_of mime_in behind_last bytes_eq
html_run = refl

no_extension_run :
    mime_type_from_extension (codes "/srv/a.css/file") ≡ codes "application/octet-stream"
unfolding mime_type_from_extension mime_of mime_in behind_last bytes_eq
no_extension_run = refl
