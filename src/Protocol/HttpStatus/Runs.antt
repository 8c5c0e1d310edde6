-- ===== src/Protocol/HttpStatus/Runs.antt =====
-- Concrete runs of the status lines, and their round trip at a concrete code.
use libnhttp.Base.{◌≡◌, refl, [], ◌++◌, arith, length, codes}
use libnhttp.Base.Text.{bytes_eq}
use libnhttp.Base.Decimal.{decimal, to_string}
use libnhttp.Protocol.HttpHeader.{cut, strip_cr}
use libnhttp.Protocol.HttpStatus.{
  phrase_in, reason_phrase, write_status_line, refused, need_more, consumed, read_code, with_code,
  parse_code, parse_line, parse_cut, try_parse,
}
use libnhttp.Protocol.HttpStatus.RoundTrip.{try_parse-write_status_line}

write_run : write_status_line 404 1 [] ≡ codes "HTTP/1.1 404 Not Found\r\n"
unfolding write_status_line reason_phrase phrase_in to_string decimal
write_run = refl

short_run : try_parse (codes "HTTP/1.1 99 \n") ≡ refused
unfolding try_parse parse_cut parse_line parse_code with_code read_code cut strip_cr bytes_eq
short_run = refl

open_run : try_parse (codes "HTTP/1.1 200 OK") ≡ need_more
unfolding try_parse parse_cut cut
open_run = refl

bare_run :
    try_parse (codes "HTTP/1.0 204\n")
    ≡ consumed 13 (record { code = 204; http_major = 1; http_minor = 0 })
unfolding try_parse parse_cut parse_line parse_code with_code read_code cut strip_cr bytes_eq
bare_run = refl

try_parse-write_status_line_example :
    try_parse (write_status_line 206 1 [] ++ codes "x")
    ≡ consumed
        (length (write_status_line 206 1 []))
        (record { code = 206; http_major = 1; http_minor = 1 })
try_parse-write_status_line_example =
    try_parse-write_status_line 206 1 (codes "x") (omega arith) (omega arith) (omega arith)
