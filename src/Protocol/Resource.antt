-- ===== src/Protocol/Resource.antt =====
-- `http_resource` of src/protocol/http_resource.cpp: the request line.
mod Runs
use libnhttp.Base.{
  ℕ, ◌+◌, ◌-◌, List, [], Bytes, leb, ◌==◌, Bool, not, ◌&&◌, ◌||◌, Option, some, none, length, take,
  get_or, if◌then◌else◌, codes,
}
use libnhttp.Base.Text.{
  bytes_eq, bytes_lt, bytes_eq_refl, eq-of_bytes_eq, bytes_eq_iff, bytes_lt_irrefl, bytes_lt_trans,
  bytes_lt_total,
}
use libnhttp.Protocol.HttpHeader.{cut, strip_cr}
use libnhttp.Protocol.HttpMethod.{HttpMethod, http_method}
use libnhttp.Protocol.QueryString.{parse_query}
use libnhttp.Protocol.UrlEncode.{url_decode}

pub record HttpResource : Type 0 where
  pub method : HttpMethod
  pub path : Bytes
  pub raw_path : Bytes
  pub query : List (Bytes × Bytes)
  pub http_major : ℕ
  pub http_minor : ℕ

-- The results 0, -1, and the number of bytes with the resource.
pub data ParsedLine : Type 0 where
  wants_more : ParsedLine
  malformed : ParsedLine
  parsed : ℕ → HttpResource → ParsedLine

abbrev pub is_digit : ℕ → Bool
is_digit c = leb 48 c && leb c 57

-- The digits of "HTTP/x.y".
abbrev pub version_of : Bytes → Option (ℕ × ℕ)
version_of version =
    let major = get_or version 5 0 in
    let minor = get_or version 7 0 in
    if not (length version == 8)
      || not (bytes_eq (take 5 version) (codes "HTTP/"))
      || not (get_or version 6 0 == 46)
    then none
    else if not (is_digit major) || not (is_digit minor)
    then none
    else some (major - 48, minor - 48)

abbrev pub target_of : Bytes → Option (Bytes × Bytes) → Bytes × Bytes
target_of target none = (target, [])
target_of target (some (raw_path, query)) = (raw_path, query)

abbrev pub resource_of : ℕ → Bytes → Bytes × Bytes → Option (ℕ × ℕ) → ParsedLine
resource_of n method target none = malformed
resource_of n method target (some (major, minor)) = parsed n (record {
  method = http_method method;
  path = url_decode target.0;
  raw_path = target.0;
  query = parse_query target.1;
  http_major = major;
  http_minor = minor;
})

abbrev pub parse_target : ℕ → Bytes → Option (Bytes × Bytes) → ParsedLine
parse_target n method none = malformed
parse_target n method (some (target, version)) =
    resource_of n method (target_of target (cut 63 target)) (version_of version)

abbrev pub parse_method : ℕ → Option (Bytes × Bytes) → ParsedLine
parse_method n none = malformed
parse_method n (some (method, rest)) = parse_target n method (cut 32 rest)

abbrev pub parse_first_line : Option (Bytes × Bytes) → ParsedLine
parse_first_line none = wants_more
parse_first_line (some (line, rest)) = parse_method (length line + 1) (cut 32 (strip_cr line))

-- `http_resource::try_parse`.
abbrev pub parse_resource : Bytes → ParsedLine
parse_resource bytes = parse_first_line (cut 10 bytes)
