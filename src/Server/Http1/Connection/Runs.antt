-- ===== src/Server/Http1/Connection/Runs.antt =====
-- Concrete runs of the connection, and its theorem at a concrete wire.
use libnhttp.Base.{
  none, ℕ, ◌≡◌, refl, [], ◌∷◌, ◌++◌, Bytes, ◌==◌, true, false, Option, some, length, if◌then◌else◌,
  codes,
}
use libnhttp.Protocol.HttpHeader.{cut}
use libnhttp.Protocol.HttpHeader.Tokens.{contains}
use libnhttp.Server.Http1.Headers.{Wire, available}
use libnhttp.Server.Http1.Framing as Framing
use libnhttp.Server.Http1.Connection.{host_of, keep_alive_by, body_of, Params, run, Incoming}
use libnhttp.Server.Http1.Connection.Sized.{body_of-sized}
use libnhttp.Server.Response.{Response, make_status}

abbrev wire : Wire
wire = record { read_buffer = codes "ab"; incoming = codes "cdGET" ∷ [] }

body_of-sized_example :
    (w' : Wire) × (body_of wire (Framing.sized 4) ≡ some (codes "abcd", w'))
    × (available w' ≡ codes "GET")
body_of-sized_example = body_of-sized wire (codes "abcd") (codes "GET") refl

host_run : host_of (codes "a.b:80") ≡ codes "a.b"
unfolding host_of cut
host_run = refl

bracket_run : host_of (codes "[::1]:80") ≡ codes "[::1]"
unfolding host_of cut
bracket_run = refl

keep_run : keep_alive_by 1 (some (codes "close")) ≡ false
unfolding keep_alive_by contains
keep_run = refl

old_run : keep_alive_by 0 (some (codes "upgrade, Keep-Alive")) ≡ true
unfolding keep_alive_by contains
old_run = refl

abbrev no_reads : ℕ → Bytes → Bytes × Bytes
no_reads n b = ([], b)

abbrev limits : Params
limits = record {
  max_request_line_size = 100;
  max_header_size = 100;
  server_header_value = codes "n";
}

abbrev answers : Incoming → Response Bytes
answers r = make_status (if length r.content == 2 then 404 else 500)

abbrev two_requests : Wire
two_requests = record {
  read_buffer = [];
  incoming =
      (codes "POST / HTTP/1.1"
        ++ 13 ∷ 10 ∷ codes "Content-Length: 2"
        ++ 13 ∷ 10 ∷ 13 ∷ 10 ∷ codes "hi")
      ∷ (codes "GET / HTTP/1.0" ++ 13 ∷ 10 ∷ 13 ∷ 10 ∷ [])
      ∷ [];
}

-- Two requests on a connection have an answer each, and the second one closes it.
pipeline_run : Option Bytes
unfolding run
pipeline_run = run no_reads (λ n b. none) limits (codes "D") 10 answers 5 two_requests []
