-- ===== src/Server/Extensions/SingleFile/Runs.antt =====
-- Concrete runs of `single_file`.
use libnhttp.Base.{ℕ, ◌≡◌, refl, [], Bytes, true, false, Option, some, none, codes}
use libnhttp.Base.Int.{ℤ, pos}
use libnhttp.Base.Text.{bytes_eq}
use libnhttp.Io.Memory.{Memory, memory_stream}
use libnhttp.Protocol.HttpDate.{Tm}
use libnhttp.Protocol.HttpMethod.{find_known, http_method}
use libnhttp.Server.Response.{Response}
use libnhttp.Server.StaticContent.Serve.{Body}
use libnhttp.Server.Extensions.Overlay.{FileKind, regular_file, directory, FileInfo}
use libnhttp.Server.Extensions.SingleFile.{
  FileRequest, SingleFile, stat_file, wants, answer_info, answer_open, handle,
}

abbrev file : SingleFile
file = record { instance_id = 1; path = codes "/srv/a"; mime_override = none }

abbrev info : FileKind → Bytes → FileInfo
info k p = record { kind = k; size = pos 3; mtime = pos 0 }

abbrev request : Bytes → FileRequest
request name = record {
  asked = record { method = http_method name; headers = [] };
  cache = record { owner = none; computed = false; value = none };
}

directory_run : (wants (info directory) file (request (codes "GET"))).0 ≡ false
unfolding wants stat_file find_known bytes_eq
directory_run = refl

head_run : (wants (info regular_file) file (request (codes "HEAD"))).0 ≡ true
unfolding wants stat_file find_known bytes_eq
head_run = refl

post_run : (wants (info regular_file) file (request (codes "POST"))).0 ≡ false
unfolding wants stat_file find_known bytes_eq
post_run = refl

abbrev status_of : Option (Response (Body Memory)) → ℕ
status_of none = 0
status_of (some r) = r.status

gone_run :
    (gmtime : ℤ → Tm) (timegm : Tm → ℤ)
    → status_of
        (handle
          (info regular_file)
          memory_stream
          (λ p n. none)
          gmtime
          timegm
          file
          (request (codes "GET"))).0
      ≡ 404
unfolding handle answer_info answer_open stat_file
gone_run gmtime timegm = refl
