-- ===== src/Server/Http1/Headers/Runs.antt =====
-- Concrete runs of `read_headers`, and its theorem at a concrete block.
use libnhttp.Base.{◌≡◌, refl, [], ◌∷◌, arith, some, none, codes}
use libnhttp.Protocol.HttpHeader.{HttpHeader, cut, strip_cr, trim_front, trim_back}
use libnhttp.Protocol.HttpHeader.RoundTrip.{IsHeader}
use libnhttp.Server.Http1.Headers.{
  Wire, fill, line_round, line_loop, find_line, on_parsed, on_line, headers_loop, read_headers,
}
use libnhttp.Server.Http1.Headers.RoundTrip.{ReadBlock, read_headers-block}

abbrev host : HttpHeader
host = record { name = codes "Host"; value = codes "a" }

abbrev wire : Wire
wire = record { read_buffer = codes "Host: a\r"; incoming = codes "\n\r\nbo" ∷ codes "dy" ∷ [] }

block_run :
    read_headers 64 wire
    ≡ some (host ∷ [], record { read_buffer = codes "bo"; incoming = codes "dy" ∷ [] })
unfolding read_headers headers_loop on_line on_parsed find_line line_loop line_round fill cut
    strip_cr trim_front trim_back
block_run = refl

-- Only a line that has not come to its end is held against the limit.
long_run : read_headers 4 wire ≡ none
unfolding read_headers headers_loop on_line on_parsed find_line line_loop line_round fill cut
    strip_cr trim_front trim_back
long_run = refl

host-IsHeader : IsHeader host
unfolding trim_front trim_back
host-IsHeader = record {
  named = λ e. cc;
  no_colon = (omega arith, (omega arith, (omega arith, (omega arith, tt))));
  name_in_line = (omega arith, (omega arith, (omega arith, (omega arith, tt))));
  value_in_line = (omega arith, tt);
  front = refl;
  back = refl;
}

read_headers-block_example : ReadBlock (host ∷ []) (codes "body") (read_headers 64 wire)
read_headers-block_example =
    read_headers-block 64 wire (host ∷ []) (codes "body") (host-IsHeader, tt) (omega arith, tt)
      (omega arith) refl
