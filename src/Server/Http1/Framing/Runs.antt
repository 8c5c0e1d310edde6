-- ===== src/Server/Http1/Framing/Runs.antt =====
-- Concrete runs of the framing, and its theorem at a concrete response.
use libnhttp.Base.{Option, none, ℕ, ◌≡◌, refl, [], ◌∷◌, Bytes, false, some, codes}
use libnhttp.Base.Int.{pos}
use libnhttp.Base.Decimal.{decimal, to_string}
use libnhttp.Protocol.HttpHeader.{
  HttpHeader, get_header, set_header, isset, header_name_equals, same_letters,
}
use libnhttp.Protocol.HttpHeader.Tokens.{starts_with, contains}
use libnhttp.Protocol.HttpStatus.{phrase_in, reason_phrase, write_status_line}
use libnhttp.Server.Response.{Response, make_status}
use libnhttp.Server.Http1.Framing.{
  chunked, sized, malformed, sized_by, framing_by_length, framing_of, make_body_stream,
  response_headers, body_text, write_response,
}
use libnhttp.Io.Memory.{Memory}

abbrev field : Bytes → Bytes → HttpHeader
field n v = record { name = n; value = v }

chunked_run :
    make_body_stream (
      field (codes "transfer-encoding") (codes "gzip, Chunked")
      ∷ field (codes "Content-Length") (codes "3")
      ∷ [])
    ≡ chunked
unfolding framing_of get_header header_name_equals same_letters contains starts_with
chunked_run = refl

malformed_run : make_body_stream (field (codes "Content-Length") (codes "+3") ∷ []) ≡ malformed
unfolding framing_of framing_by_length sized_by get_header header_name_equals same_letters
malformed_run = refl

empty_run : make_body_stream (field (codes "Content-Length") [] ∷ []) ≡ sized 0
unfolding framing_of framing_by_length sized_by get_header header_name_equals same_letters
empty_run = refl

abbrev nothing : ℕ → ℕ → Bytes × ℕ
nothing n s = ([], s)

refused_run :
    write_response nothing (λ n s. none) 1 (codes "nhttp") (codes "now") (make_status 404) false
    ≡ some (
        codes
          "HTTP/1.1 404 Not Found\r\nServer: nhttp\r\nDate: now\r\nConnection: close\r\nContent-Length: 0\r\n\r\n")
unfolding write_response body_text response_headers set_header isset header_name_equals same_letters
    write_status_line reason_phrase phrase_in to_string decimal
refused_run = refl

abbrev stored : Memory
stored = record { bytes = codes "abc"; position = 0 }

abbrev text : Response Memory
text = record {
  status = 200;
  headers = [];
  body = some stored;
  content_length = pos 2;
  upgrades = false;
}

abbrev by_reads : ℕ → Memory → Option (Bytes × Memory)
by_reads n s = none
