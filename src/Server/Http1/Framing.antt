-- ===== src/Server/Http1/Framing.antt =====
-- How a body is framed: `make_body_stream` of src/server/http1_io.cpp on the side that reads, `write_response` of
-- src/server/connection.cpp on the side that writes.
pub mod Agreement
pub mod Written
mod Runs
use libnhttp.Base.{
  ℕ, ◌+◌, ◌-◌, ◌*◌, ◌^◌, List, [], ◌∷◌, ◌++◌, Bytes, ltb, Bool, true, false, ◌&&◌, ◌||◌, Option,
  some, none, ◌>>=◌, length, if◌then◌else◌, codes,
}
use libnhttp.Base.Int.{ℤ, pos, negsuc, pos_part, ltb_ℤ, max_ℤ}
use libnhttp.Protocol.HttpHeader.{HttpHeader, get_header, set_header, isset, write_to}
use libnhttp.Protocol.HttpHeader.Tokens.{header_value_contains_token}
use libnhttp.Protocol.HttpStatus.{write_status_line}
use libnhttp.Server.Response.{Response, to_string_ℤ}
use libnhttp.Server.Http1.Body.{write_message_body}

-- Which stream `make_body_stream` makes: a decoder, a range of so many bytes, or an empty one. A malformed
-- length gives none, and one that overflows an int64_t is undefined.
pub data Framing : Type 0 where
  chunked : Framing
  sized : ℕ → Framing
  absent : Framing
  malformed : Framing
  overflow : Framing

unfoldable pub sized_by : Bytes → ℕ → Framing
sized_by [] length = sized length
sized_by (c ∷ cs) length =
    let next = length * 10 + (c - 48) in
    let rest = sized_by cs next in
    if ltb c 48 || ltb 57 c then malformed else if ltb next (2 ^ 63) then rest else overflow

unfoldable pub framing_by_length : Option Bytes → Framing
unfolding sized_by
framing_by_length none = absent
framing_by_length (some cl) = sized_by cl 0

unfoldable pub framing_of : Option Bytes → Option Bytes → Framing
unfolding framing_by_length
framing_of none cl = framing_by_length cl
framing_of (some te) cl =
    if header_value_contains_token te (codes "chunked") then chunked else framing_by_length cl

abbrev pub make_body_stream : List HttpHeader → Framing
make_body_stream hs =
    framing_of (get_header (codes "Transfer-Encoding") hs) (get_header (codes "Content-Length") hs)

abbrev pub has_body : {B : Type 0} → Option B → Bool
has_body none = false
has_body (some b) = true

abbrev pub use_chunked : {B : Type 0} → Response B → Bool
use_chunked r = has_body r.body && ltb_ℤ r.content_length (pos 0)

-- The headers that `write_response` sends: `server` is `params_.server_header_value`, `date` the current date.
abbrev pub with_server : Bytes → List HttpHeader → List HttpHeader
with_server [] hs = hs
with_server (c ∷ cs) hs =
    if isset (codes "Server") hs then hs else set_header (codes "Server") (c ∷ cs) hs

abbrev pub with_framing : {B : Type 0} → Response B → List HttpHeader → List HttpHeader
with_framing r hs =
    if use_chunked r
    then set_header (codes "Transfer-Encoding") (codes "chunked") hs
    else set_header (codes "Content-Length") (to_string_ℤ (max_ℤ (pos 0) r.content_length)) hs

unfoldable pub response_headers : {B : Type 0} → Bytes → Bytes → Bool → Response B → List HttpHeader
response_headers server date keep_alive r = with_framing r (
    set_header (codes "Connection") (if keep_alive then codes "keep-alive" else codes "close")
      (set_header (codes "Date") date (with_server server r.headers)))

abbrev pub head_text : ℕ → List HttpHeader → Bytes
head_text status hs = write_to hs (write_status_line status 1 []) ++ 13 ∷ 10 ∷ []

-- `write_response`: what is written, with the body; an upgrade sends its head alone, and hands the wire over.
module _ {S : Type 0} (read : ℕ → S → Bytes × S) (sendfile : ℕ → S → Option (Bytes × S)) where
  unfoldable pub body_text : ℕ → Response S → Option S → Option Bytes
  body_text fuel r none = some []
  body_text fuel r (some s) =
      write_message_body read sendfile fuel s (if use_chunked r then negsuc 0 else r.content_length)
        []
      >>= λ written. some written.0

  unfoldable pub write_response : ℕ → Bytes → Bytes → Response S → Bool → Option Bytes
  unfolding body_text
  write_response fuel server date r keep_alive =
      if r.upgrades
      then some (head_text r.status r.headers)
      else body_text fuel r r.body >>= λ body.
          some (head_text r.status (response_headers server date keep_alive r) ++ body)
