-- ===== src/Server/Extensions/Overlay.antt =====
-- `overlay` of src/server/extensions/overlay.cpp. `stat_file` is the operating system's, and a file that can be opened
-- is a stream; both are parameters. The cache among the request's tags is a field of the request; an
-- instance, which the source tells by its address, has a number.
pub mod Inside
mod Runs
use libnhttp.Base.{
  ℕ, [], ◌∷◌, ◌++◌, Bytes, ltb, ◌==◌, Bool, true, false, not, ◌&&◌, ◌||◌, Option, some, none,
  length, if◌then◌else◌, codes,
}
use libnhttp.Base.Int.{ℤ}
use libnhttp.Base.Text.{bytes_eq}
use libnhttp.Io.Stream.{Stream}
use libnhttp.Protocol.HttpDate.{Tm}
use libnhttp.Protocol.MimeType.{mime_type_from_extension}
use libnhttp.Server.Response.{Response, make_status}
use libnhttp.Server.StaticContent.QualifyPath.{slash, qualify_relative_path}
use libnhttp.Server.StaticContent.Serve.{Asked, Body, make_etag, serve_stream_conditionally}

pub data FileKind : Type 0 where
  not_found : FileKind
  regular_file : FileKind
  directory : FileKind
  other : FileKind

pub record FileInfo : Type 0 where
  pub kind : FileKind
  pub size : ℤ
  pub mtime : ℤ

pub record ResolveCache : Type 0 where
  pub owner : Option ℕ
  pub computed : Bool
  pub value : Option (Bytes × FileInfo)

pub record Request : Type 0 where
  pub asked : Asked
  pub subpath : Bytes
  pub cache : ResolveCache

pub record Overlay : Type 0 where
  pub instance_id : ℕ
  pub base_dir : Bytes
  pub index_file : Bytes

-- Whether a name ends in a slash.
unfoldable pub ends_in_slash : Bytes → Bool
ends_in_slash [] = false
ends_in_slash (c ∷ []) = c == slash
ends_in_slash (c ∷ d ∷ cs) = ends_in_slash (d ∷ cs)

unfoldable pub pop_back : Bytes → Bytes
pop_back [] = []
pop_back (c ∷ []) = []
pop_back (c ∷ d ∷ cs) = c ∷ pop_back (d ∷ cs)

-- The constructor.
unfoldable pub overlay : ℕ → Bytes → Bytes → Overlay
unfolding ends_in_slash pop_back
overlay n base_dir index_file = record {
  instance_id = n;
  base_dir =
      if ltb 1 (length base_dir) && ends_in_slash base_dir then pop_back base_dir else base_dir;
  index_file = index_file;
}

abbrev pub is_owner : ℕ → Option ℕ → Bool
is_owner n none = false
is_owner n (some m) = m == n

-- The path of a name that is not empty.
abbrev pub below : Bytes → Bytes → Bytes
below base [] = base
below base (c ∷ cs) = base ++ slash ∷ c ∷ cs

unfoldable pub index_path : Bytes → Bytes → Bytes
unfolding ends_in_slash
index_path [] index = index
index_path (c ∷ cs) index =
    if ends_in_slash (c ∷ cs) then (c ∷ cs) ++ index else (c ∷ cs) ++ slash ∷ index

-- What a file that is there is cached as.
unfoldable pub regular : Bytes → FileInfo → FileKind → Option (Bytes × FileInfo)
regular path info regular_file = some (path, info)
regular path info not_found = none
regular path info directory = none
regular path info other = none

module _ (stat_file : Bytes → FileInfo) where
  -- A directory stands for its index.
  unfoldable pub find_file : Overlay → Bytes → FileKind → Option (Bytes × FileInfo)
  unfolding regular index_path
  find_file o path directory =
      let index = index_path path o.index_file in
      regular index (stat_file index) (stat_file index).kind
  find_file o path regular_file = regular path (stat_file path) regular_file
  find_file o path not_found = regular path (stat_file path) not_found
  find_file o path other = regular path (stat_file path) other

  unfoldable pub resolve_path : Overlay → Option Bytes → Option (Bytes × FileInfo)
  unfolding find_file
  resolve_path o none = none
  resolve_path o (some qualified) =
      let path = below o.base_dir qualified in find_file o path (stat_file path).kind

  unfoldable pub resolve : Overlay → Request → Option (Bytes × FileInfo) × Request
  unfolding resolve_path
  resolve o req =
      let found = resolve_path o (qualify_relative_path req.subpath) in
      if req.cache.computed && is_owner o.instance_id req.cache.owner
      then (req.cache.value, req)
      else (
        found,
        record req {
          cache = record { owner = some o.instance_id; computed = true; value = found };
        },
      )

  abbrev pub is_get_or_head : Request → Bool
  is_get_or_head req =
      bytes_eq req.asked.method.method_name (codes "GET")
      || bytes_eq req.asked.method.method_name (codes "HEAD")

  abbrev pub is_some : {A : Type 0} → Option A → Bool
  is_some none = false
  is_some (some a) = true

  -- A path that leaves the directory is accepted, for `handle` to refuse it.
  unfoldable pub wants : Overlay → Request → Bool × Request
  unfolding resolve
  wants o req =
      let found = resolve o req in
      if not (is_get_or_head req)
      then (false, req)
      else if not (is_some (qualify_relative_path req.subpath))
      then (true, req)
      else (is_some found.0, found.1)

  module _ {S : Type 0} (i : Stream S) (open_file : Bytes → ℤ → Option S) (gmtime : ℤ → Tm)
      (timegm : Tm → ℤ) where
    unfoldable pub answer_file : Asked → Bytes → FileInfo → Option S → Option (Response (Body S))
    answer_file req path info none = some (make_status 404)
    answer_file req path info (some file) =
        serve_stream_conditionally i file info.size (mime_type_from_extension path) gmtime timegm
          req info.mtime (make_etag info.mtime info.size)

    unfoldable pub answer_resolved : Asked → Option (Bytes × FileInfo) → Option (Response (Body S))
    unfolding answer_file
    answer_resolved req none = some (make_status 404)
    answer_resolved req (some (path, info)) = answer_file req path info (open_file path info.size)

    unfoldable pub handle : Overlay → Request → Option (Response (Body S)) × Request
    unfolding answer_resolved resolve
    handle o req =
        let found = resolve o req in
        if not (is_some (qualify_relative_path req.subpath))
        then (some (make_status 403), req)
        else (answer_resolved req.asked found.0, found.1)
