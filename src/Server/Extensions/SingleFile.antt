-- ===== src/Server/Extensions/SingleFile.antt =====
-- `single_file` of src/server/extensions/single_file.cpp, with the parameters of Overlay.
mod Runs
use libnhttp.Base.{
  ℕ, Bytes, ◌==◌, Bool, true, false, ◌&&◌, ◌||◌, Option, some, none, if◌then◌else◌, codes,
}
use libnhttp.Base.Int.{ℤ}
use libnhttp.Base.Text.{bytes_eq}
use libnhttp.Io.Stream.{Stream}
use libnhttp.Protocol.HttpDate.{Tm}
use libnhttp.Protocol.MimeType.{mime_type_from_extension}
use libnhttp.Server.Response.{Response, make_status}
use libnhttp.Server.StaticContent.Serve.{Asked, Body, make_etag, serve_stream_conditionally}
use libnhttp.Server.Extensions.Overlay.{
  FileKind, not_found, regular_file, directory, other, FileInfo,
}

pub record StatCache : Type 0 where
  pub owner : Option ℕ
  pub computed : Bool
  pub value : Option FileInfo

pub record FileRequest : Type 0 where
  pub asked : Asked
  pub cache : StatCache

pub record SingleFile : Type 0 where
  pub instance_id : ℕ
  pub path : Bytes
  pub mime_override : Option Bytes

abbrev pub is_mine : ℕ → Option ℕ → Bool
is_mine n none = false
is_mine n (some m) = m == n

abbrev pub only_regular : FileInfo → FileKind → Option FileInfo
only_regular info regular_file = some info
only_regular info not_found = none
only_regular info directory = none
only_regular info other = none

abbrev pub mime_or : Bytes → Option Bytes → Bytes
mime_or path none = mime_type_from_extension path
mime_or path (some mime) = mime

module _ (stat : Bytes → FileInfo) where
  unfoldable pub stat_file : SingleFile → FileRequest → Option FileInfo × FileRequest
  stat_file f req =
      let found = only_regular (stat f.path) (stat f.path).kind in
      if req.cache.computed && is_mine f.instance_id req.cache.owner
      then (req.cache.value, req)
      else (
        found,
        record req {
          cache = record { owner = some f.instance_id; computed = true; value = found };
        },
      )

  abbrev pub is_there : Option FileInfo → Bool
  is_there none = false
  is_there (some info) = true

  unfoldable pub wants : SingleFile → FileRequest → Bool × FileRequest
  unfolding stat_file
  wants f req =
      let found = stat_file f req in
      if bytes_eq req.asked.method.method_name (codes "GET")
        || bytes_eq req.asked.method.method_name (codes "HEAD")
      then (is_there found.0, found.1)
      else (false, req)

  module _ {S : Type 0} (i : Stream S) (open_file : Bytes → ℤ → Option S) (gmtime : ℤ → Tm)
      (timegm : Tm → ℤ) where
    unfoldable pub answer_open :
        SingleFile → Asked → FileInfo → Option S → Option (Response (Body S))
    answer_open f req info none = some (make_status 404)
    answer_open f req info (some file) =
        serve_stream_conditionally i file info.size (mime_or f.path f.mime_override) gmtime timegm
          req info.mtime (make_etag info.mtime info.size)

    unfoldable pub answer_info : SingleFile → Asked → Option FileInfo → Option (Response (Body S))
    unfolding answer_open
    answer_info f req none = some (make_status 404)
    answer_info f req (some info) = answer_open f req info (open_file f.path info.size)

    unfoldable pub handle : SingleFile → FileRequest → Option (Response (Body S)) × FileRequest
    unfolding answer_info stat_file
    handle f req = let found = stat_file f req in (answer_info f req.asked found.0, found.1)
