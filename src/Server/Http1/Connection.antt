-- ===== src/Server/Http1/Connection.antt =====
-- `connection` of src/server/connection.cpp, and the streams that src/server/http1_io.cpp makes of
-- its wire. The handler is a function of the request and of all the bytes of its body, which the
-- source reads in the handler and in the loop behind it.
pub mod Sized
mod Runs
use libnhttp.Base.{
  ℕ, zero, suc, ◌+◌, ◌-◌, List, [], ◌∷◌, ◌++◌, Bytes, leb, ltb, ◌==◌, Bool, true, false, not, ◌||◌,
  Option, some, none, ◌>>=◌, length, take, drop, if◌then◌else◌, max, codes,
}
use libnhttp.Base.Int.{ℤ, pos, negsuc}
use libnhttp.Io.Stream.{Stream}
use libnhttp.Io.Range as Range
use libnhttp.Io.ReadAll.{read_all}
use libnhttp.Protocol.Chunked.Decoder as Decoder
use libnhttp.Protocol.HttpHeader.{HttpHeader, cut, get_header}
use libnhttp.Protocol.HttpHeader.Tokens.{header_value_contains_token}
use libnhttp.Protocol.Resource.{
  HttpResource, ParsedLine, wants_more, malformed, parsed, parse_resource,
}
use libnhttp.Server.Response.{Response, make_status}
use libnhttp.Server.Http1.Headers.{Wire, fill, read_headers, available}
use libnhttp.Server.Http1.Framing as Framing
use libnhttp.Server.Http1.Framing.{Framing, write_response, make_body_stream}

pub record Params : Type 0 where
  pub max_request_line_size : ℕ
  pub max_header_size : ℕ
  pub server_header_value : Bytes

-- A round of `read_request_line`; the next round is `again`.
unfoldable pub on_request_line :
    (Wire → Option (HttpResource × Wire)) → ℕ → Wire → ParsedLine → Option (HttpResource × Wire)
on_request_line again max w (parsed n r) = some (r, record w { read_buffer = drop n w.read_buffer })
on_request_line again max w malformed = none
on_request_line again max w wants_more =
    if ltb max (length w.read_buffer) then none else fill w.incoming w >>= again

unfoldable pub request_line_loop : ℕ → ℕ → Wire → Option (HttpResource × Wire)
unfolding on_request_line
request_line_loop zero max w = none
request_line_loop (suc fuel) max w =
    on_request_line (request_line_loop fuel max) max w (parse_resource w.read_buffer)

-- As many rounds as reads are left, and one.
unfoldable pub read_request_line : ℕ → Wire → Option (HttpResource × Wire)
unfolding request_line_loop
read_request_line max w = request_line_loop (length w.incoming + 1) max w

abbrev pub before_or : Bytes → Option (Bytes × Bytes) → Bytes
before_or v none = v
before_or v (some (before, behind)) = before

-- In brackets up to the closing one, else up to the colon.
unfoldable pub host_of : Bytes → Bytes
host_of [] = []
host_of (c ∷ cs) =
    if c == 91
    then elim (cut 93 (c ∷ cs)) [ none ↦ c ∷ cs | some p ↦ p.0 ++ 93 ∷ [] ]
    else before_or (c ∷ cs) (cut 58 (c ∷ cs))

abbrev pub hostname_in : Option Bytes → Bytes
hostname_in none = []
hostname_in (some v) = host_of v

abbrev pub extract_hostname : List HttpHeader → Bytes
extract_hostname hs = hostname_in (get_header (codes "Host") hs)

unfoldable pub keep_alive_by : ℕ → Option Bytes → Bool
keep_alive_by http_minor none = leb 1 http_minor
keep_alive_by http_minor (some v) =
    if header_value_contains_token v (codes "close")
    then false
    else if header_value_contains_token v (codes "keep-alive")
    then true
    else leb 1 http_minor

abbrev pub wants_keep_alive : HttpResource → List HttpHeader → Bool
wants_keep_alive r hs = keep_alive_by r.http_minor (get_header (codes "Connection") hs)

-- `buffered_wire_stream`. A read of the wire that asks for fewer bytes than are there leaves the
-- others.
unfoldable pub read_wire : ℕ → List Bytes → Bytes × Wire
read_wire n [] = ([], record { read_buffer = []; incoming = [] })
read_wire n ([] ∷ more) = ([], record { read_buffer = []; incoming = more })
read_wire n ((b ∷ bs) ∷ more) =
    let kept = if ltb n (length (b ∷ bs)) then drop n (b ∷ bs) ∷ more else more in
    (take n (b ∷ bs), record { read_buffer = []; incoming = kept })

unfoldable pub buffered_read : ℕ → Wire → Bytes × Wire
unfolding read_wire
buffered_read n w =
    if length w.read_buffer == 0
    then read_wire n w.incoming
    else (take n w.read_buffer, record w { read_buffer = drop n w.read_buffer })

abbrev pub buffered_wire_stream : Stream Wire
buffered_wire_stream = record {
  get_length = λ w. negsuc 0;
  seek = λ offset origin w. (negsuc 0, w);
  read = buffered_read;
  write = λ bytes w. (0, w);
}

-- The reads of at most 4096 bytes that the buffer gives, and how many are left of the wire's own.
unfoldable pub pieces : ℕ → Bytes → List Bytes
pieces zero bytes = []
pieces (suc fuel) [] = []
pieces (suc fuel) (b ∷ bs) = take 4096 (b ∷ bs) ∷ pieces fuel (drop 4096 (b ∷ bs))

abbrev pub reads_of : Wire → List Bytes
reads_of w = pieces (length w.read_buffer) w.read_buffer ++ w.incoming

abbrev pub joined : List Bytes → Bytes
joined [] = []
joined (c ∷ cs) = c ++ joined cs

-- The wire that a decoder leaves: what it has in its own buffer is not given back.
abbrev pub wire_after : Wire → List Bytes → Wire
wire_after w rest =
    let extra = length rest - length w.incoming in
    record { read_buffer = joined (take extra rest); incoming = drop extra rest }

-- The body, to its end, and the wire behind it.
unfoldable pub body_of : Wire → Framing → Option (Bytes × Wire)
unfolding buffered_read pieces
body_of w Framing.chunked =
    read_all Decoder.read (length (available w) + 2) (Decoder.chunked_decoder (reads_of w)) []
    >>= λ r. some (r.0, wire_after w r.1.incoming)
body_of w (Framing.sized n) =
    read_all (λ k r. some (Range.read buffered_wire_stream k r)) (length (available w) + 2)
      (Range.range_stream buffered_wire_stream w (pos 0) (pos n)) []
    >>= λ r. some (r.0, r.1.inner)
body_of w Framing.absent = some ([], w)
body_of w Framing.malformed = none
body_of w Framing.overflow = none

pub record Incoming : Type 0 where
  pub resource : HttpResource
  pub headers : List HttpHeader
  pub hostname : Bytes
  pub content : Bytes

-- What a round comes to: the end of the connection, or the next round, with what is written.
pub data Round : Type 0 where
  closed : Bytes → Round
  next : Bytes → Wire → Round

module _ {S : Type 0} (read : ℕ → S → Bytes × S) (sendfile : ℕ → S → Option (Bytes × S))
    (params : Params) (date : Bytes) (fuel : ℕ) (handler : Incoming → Response S) where
  -- `none` is a body that ran out of its fuel.
  unfoldable pub refuse : Option Round
  refuse =
      write_response read sendfile fuel params.server_header_value date (make_status 400) false
      >>= λ text. some (closed text)

  unfoldable pub respond : HttpResource → List HttpHeader → Bytes × Wire → Option Round
  respond r hs (content, w) =
      let keep_alive = wants_keep_alive r hs in
      let resp = handler (record {
        resource = r;
        headers = hs;
        hostname = extract_hostname hs;
        content = content;
      }) in
      write_response read sendfile fuel params.server_header_value date resp keep_alive >>= λ text.
      some (if resp.upgrades || not keep_alive then closed text else next text w)

  -- A malformed length is refused; one that overflows is undefined.
  unfoldable pub on_framing : HttpResource → List HttpHeader → Wire → Framing → Option Round
  unfolding refuse respond body_of
  on_framing r hs w Framing.malformed = refuse
  on_framing r hs w Framing.overflow = none
  on_framing r hs w Framing.absent = respond r hs ([], w)
  on_framing r hs w Framing.chunked = body_of w Framing.chunked >>= respond r hs
  on_framing r hs w (Framing.sized n) = body_of w (Framing.sized n) >>= respond r hs

  unfoldable pub on_headers : HttpResource → Option (List HttpHeader × Wire) → Option Round
  unfolding on_framing
  on_headers r none = refuse
  on_headers r (some (hs, w)) = on_framing r hs w (make_body_stream hs)

  unfoldable pub on_resource : Option (HttpResource × Wire) → Option Round
  unfolding on_headers
  on_resource none = some (closed [])
  on_resource (some (r, w)) = on_headers r (read_headers params.max_header_size w)

  unfoldable pub round : Wire → Option Round
  unfolding on_resource read_request_line
  round w = on_resource (read_request_line params.max_request_line_size w)

  -- What a round leads to; the rounds behind it are `again`.
  unfoldable pub after_round : (Wire → Bytes → Option Bytes) → Bytes → Round → Option Bytes
  after_round again out (closed text) = some (out ++ text)
  after_round again out (next text w) = again w (out ++ text)

  -- `run`, with what is written on the wire.
  unfoldable pub run : ℕ → Wire → Bytes → Option Bytes
  unfolding round after_round
  run zero w out = none
  run (suc rounds) w out = round w >>= after_round (run rounds) out
