-- ===== src/Server/StaticContent/Serve.antt =====
-- `make_etag` and `serve_stream_conditionally` of src/server/extensions/static_content.cpp, over any
-- stream. An overflow of an int64_t in the range header is undefined, and ends the model with `none`.
pub mod Answers
pub mod Ranged
pub mod Partial
mod Runs
use libnhttp.Base.{
  ℕ, ◌+◌, ◌-◌, ◌%◌, ◌^◌, List, [], ◌∷◌, ◌++◌, u64, Bytes, ◌==◌, Bool, true, false, not, ◌&&◌, ◌||◌,
  Option, some, none, ◌>>=◌, if◌then◌else◌, codes,
}
use libnhttp.Base.Int.{ℤ, pos, negsuc, pos_part, neg_part, ◌-ℤ◌, ltb_ℤ}
use libnhttp.Base.Text.{bytes_eq}
use libnhttp.Base.Decimal.{to_string}
use libnhttp.Io.Stream.{Stream}
use libnhttp.Io.Range.{Range, range_stream, get_length}
use libnhttp.Protocol.Chunked.{hex_loop, reverse}
use libnhttp.Protocol.HttpDate.{Tm, parse_http_date, format_http_date}
use libnhttp.Protocol.HttpHeader.{HttpHeader, get_header, set_header, isset}
use libnhttp.Protocol.HttpMethod.{HttpMethod}
use libnhttp.Server.Response.{Response, to_string_ℤ, make_status, make_streamed}
use libnhttp.Server.StaticContent.Etags.{etag_list_contains}
use libnhttp.Server.StaticContent.RangeHeader.{RangeRequest, parse_range_header}

-- `%llx`
abbrev pub hexadecimal : ℕ → Bytes
hexadecimal n = if n == 0 then 48 ∷ [] else reverse (hex_loop 16 n [])

-- The cast of a time_t and an int64_t to unsigned.
abbrev pub unsigned : ℤ → ℕ
unsigned (pos n) = u64 n
unsigned (negsuc n) = 2 ^ 64 - 1 - n % 2 ^ 64

pub make_etag : ℤ → ℤ → Bytes
make_etag mtime size =
    codes "\"nh-"
    ++ hexadecimal (unsigned mtime)
    ++ codes "-"
    ++ hexadecimal (unsigned size)
    ++ codes "\""

-- The body of an answer: the stream, or a range of it.
pub data Body (S : Type 0) : Type 0 where
  whole : S → Body S
  ranged : Range S → Body S

pub record Asked : Type 0 where
  pub method : HttpMethod
  pub headers : List HttpHeader

abbrev pub is_method : Bytes → Asked → Bool
is_method name req = bytes_eq req.method.method_name name

abbrev pub is_head : Asked → Bool
is_head req = is_method (codes "HEAD") req

pub if_match_fails : Bytes → Option Bytes → Bool
if_match_fails etag none = false
if_match_fails etag (some v) = not (bytes_eq v (codes "*")) && not (etag_list_contains v etag)

pub data Verdict : Type 0 where
  modified : Verdict
  not_modified : Verdict
  failed : Verdict

-- Whether a time_t is -1.
abbrev pub is_error : ℤ → Bool
is_error (pos n) = false
is_error (negsuc n) = n == 0

pub modified_since : (Bytes → ℤ) → ℤ → Option Bytes → Verdict
modified_since parse_date mtime none = modified
modified_since parse_date mtime (some ims) =
    if not (is_error (parse_date ims)) && not (ltb_ℤ (parse_date ims) mtime)
    then not_modified
    else modified

-- `If-None-Match`, and only without it `If-Modified-Since`.
pub verdict : (Bytes → ℤ) → Bytes → ℤ → Asked → Option Bytes → Verdict
verdict parse_date etag mtime req none =
    modified_since parse_date mtime (get_header (codes "If-Modified-Since") req.headers)
verdict parse_date etag mtime req (some inm) =
    if bytes_eq inm (codes "*") || etag_list_contains inm etag
    then (if is_method (codes "GET") req || is_head req then not_modified else failed)
    else modified

abbrev pub starts_quoted : Bytes → Bool
starts_quoted [] = false
starts_quoted (c ∷ cs) = c == 34

pub if_range_ok : (Bytes → ℤ) → Bytes → ℤ → Option Bytes → Bool
if_range_ok parse_date etag mtime none = true
if_range_ok parse_date etag mtime (some ifr) =
    if starts_quoted ifr
    then bytes_eq ifr etag
    else not (is_error (parse_date ifr)) && not (ltb_ℤ (parse_date ifr) mtime)

pub use_range : (Bytes → ℤ) → Bytes → ℤ → Asked → Option Bytes → Bool
use_range parse_date etag mtime req none = false
use_range parse_date etag mtime req (some range) =
    if_range_ok parse_date etag mtime (get_header (codes "If-Range") req.headers)

-- The lambda `finalize`.
pub finalize : {B : Type 0} → Asked → Bytes → Bytes → Response B → Response B
finalize req etag last_modified r =
    let cache =
      if isset (codes "Authorization") req.headers
      then codes "private, must-revalidate"
      else codes "public, must-revalidate" in
    record r {
      headers = set_header (codes "Cache-Control") cache (
          set_header (codes "Last-Modified") last_modified (
            set_header (codes "ETag") etag
              (set_header (codes "Accept-Ranges") (codes "bytes") r.headers)));
      body = if is_head req then none else r.body;
    }

abbrev pub content_range : ℕ → ℕ → ℤ → Bytes
content_range first last size =
    codes "bytes " ++ to_string first ++ 45 ∷ (to_string last ++ 47 ∷ to_string_ℤ size)

module _ {S : Type 0} (i : Stream S) (content : S) (size : ℤ) (mime : Bytes) where
  abbrev pub body_length : Body S → ℤ
  body_length (whole s) = i.get_length s
  body_length (ranged r) = get_length i r

  pub partial_answer : RangeRequest → Response (Body S)
  partial_answer rr =
      let r =
        make_streamed body_length
          (some (ranged (range_stream i content (pos rr.first) (pos (rr.last + 1))))) mime
          (pos (rr.last + 1) -ℤ pos rr.first) in
      record r {
        status = 206;
        headers =
            set_header (codes "Content-Range") (content_range rr.first rr.last size) r.headers;
      }

  pub refused_answer : Response (Body S)
  refused_answer = record (make_status 416) {
    headers = set_header (codes "Content-Range") (codes "bytes */" ++ to_string_ℤ size) [];
  }

  pub range_answer : RangeRequest → Response (Body S)
  range_answer rr = if not rr.satisfiable then refused_answer else partial_answer rr

  pub whole_answer : Response (Body S)
  whole_answer = make_streamed body_length (some (whole content)) mime size

  -- The answer before `finalize`.
  pub answer : Bool → Option Bytes → Bool → Verdict → Option (Response (Body S))
  answer true range ranges v = some (make_status 412)
  answer false range ranges failed = some (make_status 412)
  answer false range ranges not_modified = some (make_status 304)
  answer false range false modified = some whole_answer
  answer false range true modified = parse_range_header range size >>= λ rr. some (range_answer rr)

  pub serve_stream_conditionally :
      (ℤ → Tm) → (Tm → ℤ) → Asked → ℤ → Bytes → Option (Response (Body S))
  serve_stream_conditionally gmtime timegm req mtime etag =
      let range = get_header (codes "Range") req.headers in
      answer (if_match_fails etag (get_header (codes "If-Match") req.headers)) range
        (use_range (parse_http_date timegm) etag mtime req range)
        (verdict (parse_http_date timegm) etag mtime req
          (get_header (codes "If-None-Match") req.headers))
      >>= λ r. some (finalize req etag (format_http_date gmtime mtime) r)
