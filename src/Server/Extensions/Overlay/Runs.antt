-- ===== src/Server/Extensions/Overlay/Runs.antt =====
-- A concrete overlay, and its theorem at it.
use libnhttp.Base.{◌≡◌, refl, [], Bytes, true, false, some, none, if◌then◌else◌, codes}
use libnhttp.Base.Int.{pos}
use libnhttp.Base.Text.{bytes_eq}
use libnhttp.Protocol.HttpMethod.{find_known, http_method}
use libnhttp.Server.StaticContent.QualifyPath.{
  segments, prepend_to_first, pop_last, visit, visit_all, join_loop, qualify_relative_path,
}
use libnhttp.Server.Extensions.Overlay.{
  FileKind, not_found, regular_file, directory, FileInfo, Request, Overlay, ends_in_slash, pop_back,
  overlay, index_path, regular, find_file, resolve_path, resolve, wants,
}
use libnhttp.Server.Extensions.Overlay.Inside.{IsServed, resolve-IsServed}

abbrev info : FileKind → FileInfo
info k = record { kind = k; size = pos 3; mtime = pos 0 }

-- A directory with an index.
abbrev stat_file : Bytes → FileInfo
stat_file p =
    if bytes_eq p (codes "/srv/d")
    then info directory
    else if bytes_eq p (codes "/srv/d/index.html")
    then info regular_file
    else info not_found

abbrev site : Overlay
site = record { instance_id = 1; base_dir = codes "/srv"; index_file = codes "index.html" }

site_run : overlay 1 (codes "/srv/") (codes "index.html") ≡ site
unfolding overlay ends_in_slash pop_back
site_run = refl

abbrev request : Bytes → Request
request path = record {
  asked = record { method = http_method (codes "GET"); headers = [] };
  subpath = path;
  cache = record { owner = none; computed = false; value = none };
}

index_run :
    (resolve stat_file site (request (codes "/./d/"))).0
    ≡ some (codes "/srv/d/index.html", info regular_file)
unfolding resolve resolve_path find_file regular index_path ends_in_slash qualify_relative_path
    segments prepend_to_first pop_last visit visit_all join_loop bytes_eq
index_run = refl

climbing_run : (wants stat_file site (request (codes "/../etc/passwd"))).0 ≡ true
unfolding wants qualify_relative_path segments prepend_to_first pop_last visit visit_all join_loop
    bytes_eq find_known
climbing_run = refl

-- A file system without files.
abbrev emptied : Bytes → FileInfo
emptied p = info not_found

resolve-IsServed_example :
    ((resolve stat_file site (request (codes "/d"))).0
      ≡ resolve_path stat_file site (qualify_relative_path (codes "/d")))
    × ((p : Bytes) (i : FileInfo)
        → (resolve stat_file site (request (codes "/d"))).0 ≡ some (p, i)
        → IsServed stat_file site p i)
    × ((resolve emptied site
          (record (resolve stat_file site (request (codes "/d"))).1 { subpath = codes "/" })).0
        ≡ (resolve stat_file site (request (codes "/d"))).0)
resolve-IsServed_example =
    resolve-IsServed stat_file site emptied (codes "/") (request (codes "/d")) refl
