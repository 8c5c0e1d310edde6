-- ===== src/Server/StaticContent/Serve/Runs.antt =====
-- Concrete answers, and the theorems at them.
use libnhttp.Base.{
  arith, false, ℕ, ◌≡◌, refl, List, [], ◌∷◌, Bytes, true, Option, some, none, codes,
}
use libnhttp.Base.Int.{ℤ, pos}
use libnhttp.Base.Text.{bytes_eq}
use libnhttp.Io.Memory.{Memory, memory_stream}
use libnhttp.Protocol.Chunked.{hex_loop, reverse}
use libnhttp.Protocol.HttpDate.{Tm, format_http_date}
use libnhttp.Protocol.HttpHeader.{HttpHeader, cut, get_header, header_name_equals, same_letters}
use libnhttp.Protocol.HttpMethod.{find_known, http_method}
use libnhttp.Server.Response.{Response}
use libnhttp.Server.StaticContent.Etags.{
  trim_front, trim_back, token_round, contains_loop, etag_list_contains,
}
use libnhttp.Server.StaticContent.RangeHeader.{
  judged, last_of, bounded_range, first_range, dash_range, parse_digits, range_of_value,
  parse_range_header,
}
use libnhttp.Server.StaticContent.Serve.{
  make_etag, Body, Asked, is_head, if_match_fails, modified_since, verdict, if_range_ok, use_range,
  finalize, partial_answer, refused_answer, range_answer, answer, serve_stream_conditionally,
}
use libnhttp.Server.StaticContent.Serve.Answers.{is_bodiless, serve_stream_conditionally-headers}
use libnhttp.Server.StaticContent.Serve.Partial.{
  WantsRange, closed, Partial, serve_stream_conditionally-range,
}
use libnhttp.Io.Memory.Laws.{IsValid, memory_stream-IsSeekable}
use libnhttp.Base.Decimal.{to_string, decimal}

abbrev stored : Memory
stored = record { bytes = 1 ∷ 2 ∷ 3 ∷ 4 ∷ []; position = 0 }

abbrev gmtime : ℤ → Tm
gmtime time = record {
  wday = 0;
  mday = 6;
  mon = 10;
  year = pos 94;
  hour = 8;
  minute = 49;
  second = 37;
}

abbrev timegm : Tm → ℤ
timegm tm = pos 784111777

abbrev field : Bytes → Bytes → HttpHeader
field n v = record { name = n; value = v }

abbrev requests : Bytes → List HttpHeader → Asked
requests name hs = record { method = http_method name; headers = hs }

abbrev served : Asked → Option (Response (Body Memory))
served req =
    serve_stream_conditionally memory_stream stored (pos 4) (codes "text/plain") gmtime timegm req
      (pos 784111777) (codes "\"nh-1-4\"")

etag_run : make_etag (pos 784111777) (pos 4) ≡ codes "\"nh-2ebc98a1-4\""
unfolding make_etag hex_loop reverse
etag_run = refl

abbrev status_of : Option (Response (Body Memory)) → ℕ
status_of none = 0
status_of (some r) = r.status

abbrev asks_part : Asked
asks_part = requests (codes "GET") (field (codes "range") (codes "bytes=1-2") ∷ [])

unchanged_run :
    status_of
      (served (requests (codes "GET") (field (codes "If-None-Match") (codes "\"nh-1-4\"") ∷ [])))
    ≡ 304
unfolding serve_stream_conditionally answer finalize if_match_fails verdict use_range get_header
    header_name_equals same_letters bytes_eq etag_list_contains contains_loop token_round trim_front
    trim_back cut find_known
unchanged_run = refl

changed_run :
    status_of (served (requests (codes "PUT") (field (codes "If-Match") (codes "\"nh-0-4\"") ∷ [])))
    ≡ 412
unfolding serve_stream_conditionally answer finalize if_match_fails verdict use_range get_header
    header_name_equals same_letters bytes_eq etag_list_contains contains_loop token_round trim_front
    trim_back cut find_known
changed_run = refl

outside_run :
    status_of (served (requests (codes "GET") (field (codes "Range") (codes "bytes=9-") ∷ [])))
    ≡ 416
unfolding serve_stream_conditionally answer finalize if_match_fails verdict modified_since use_range
    if_range_ok range_answer refused_answer get_header header_name_equals same_letters bytes_eq
    find_known parse_range_header range_of_value dash_range first_range bounded_range last_of
    parse_digits judged cut
outside_run = refl

-- A range header that is not understood is answered with the first byte, under the status 206.
unit_run :
    status_of (served (requests (codes "GET") (field (codes "Range") (codes "items=0-1") ∷ [])))
    ≡ 206
unfolding serve_stream_conditionally answer finalize if_match_fails verdict modified_since use_range
    if_range_ok range_answer partial_answer get_header header_name_equals same_letters bytes_eq
    find_known parse_range_header range_of_value
unit_run = refl

abbrev part : Response (Body Memory)
part = finalize asks_part (codes "\"nh-1-4\"") (format_http_date gmtime (pos 784111777)) (
    partial_answer memory_stream stored (pos 4) (codes "text/plain")
      (record { present = true; satisfiable = true; first = 1; last = 2 }))

part_run : served asks_part ≡ some part
unfolding serve_stream_conditionally answer finalize if_match_fails verdict modified_since use_range
    if_range_ok range_answer get_header header_name_equals same_letters bytes_eq find_known
    parse_range_header range_of_value dash_range first_range bounded_range last_of parse_digits
    judged cut
part_run = refl

status_lem : part.status ≡ 206
unfolding finalize partial_answer
status_lem = refl

serve_stream_conditionally-headers_example :
    (get_header (codes "ETag") part.headers ≡ some (codes "\"nh-1-4\""))
    × (get_header (codes "Last-Modified") part.headers
        ≡ some (format_http_date gmtime (pos 784111777)))
    × (is_head asks_part ≡ true → part.body ≡ none)
    × (is_bodiless part.status ≡ true → part.body ≡ none)
serve_stream_conditionally-headers_example =
    serve_stream_conditionally-headers memory_stream stored (pos 4) (codes "text/plain") gmtime
      timegm asks_part (pos 784111777) (codes "\"nh-1-4\"") part part_run

stored-IsValid : IsValid stored
stored-IsValid = record { inside = omega arith; fits = omega arith }

asked_lem : get_header (codes "Range") asks_part.headers ≡ some (codes "bytes=1-2")
unfolding get_header header_name_equals same_letters
asked_lem = refl

wants_lem : WantsRange 4 (codes "bytes=1-2") 1 2
unfolding to_string decimal
wants_lem = closed {a = 1} {b = 2} (omega arith) (omega arith) (omega arith) (omega arith)

get_lem : is_head asks_part ≡ false
unfolding find_known bytes_eq
get_lem = refl

serve_stream_conditionally-range_example :
    Partial memory_stream memory_stream-IsSeekable stored (codes "text/plain") 1 2 part
serve_stream_conditionally-range_example =
    serve_stream_conditionally-range memory_stream memory_stream-IsSeekable stored
      (codes "text/plain") gmtime timegm asks_part (pos 784111777) (codes "\"nh-1-4\"")
      (codes "bytes=1-2") 1 2 part stored-IsValid (omega arith) asked_lem wants_lem get_lem part_run
      status_lem
