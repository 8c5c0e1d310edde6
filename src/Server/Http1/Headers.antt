-- ===== src/Server/Http1/Headers.antt =====
-- `read_headers` of src/server/http1_io.cpp. The wire is the list of the results of its reads, and an empty one,
-- or none, is its end.
pub mod Lines
pub mod RoundTrip
mod Runs
use libnhttp.Base.{
  ℕ, zero, suc, ◌+◌, List, [], ◌∷◌, ◌++◌, Bytes, ltb, ◌==◌, Option, some, none, ◌>>=◌, length, drop,
  if◌then◌else◌,
}
use libnhttp.Protocol.HttpHeader.{
  HttpHeader, cut, strip_cr, Parsed, need_more, refused, consumed, try_parse, add_header,
}

-- What is read ahead, and what comes.
pub record Wire : Type 0 where
  pub read_buffer : Bytes
  pub incoming : List Bytes

-- A read that is appended to the buffer; `none` is the end.
pub fill : List Bytes → Wire → Option Wire
fill [] w = none
fill ([] ∷ more) w = none
fill ((b ∷ bs) ∷ more) w = some (record { read_buffer = w.read_buffer ++ b ∷ bs; incoming = more })

-- The inner loop: a round with what the first line of the buffer is; the next round is `again`.
pub line_round : (Wire → Option Wire) → ℕ → Wire → Option (Bytes × Bytes) → Option Wire
unfolding fill
line_round again max_header_size w (some found) = some w
line_round again max_header_size w none =
    if ltb max_header_size (length w.read_buffer) then none else fill w.incoming w >>= again

-- As many rounds as reads are left, and one.
pub line_loop : ℕ → ℕ → Wire → Option Wire
unfolding line_round
line_loop zero max_header_size w = none
line_loop (suc fuel) max_header_size w =
    line_round (line_loop fuel max_header_size) max_header_size w (cut 10 w.read_buffer)

pub find_line : ℕ → Wire → Option Wire
unfolding line_loop
find_line max_header_size w = line_loop (length w.incoming + 1) max_header_size w

-- A header that is parsed; `again` is the next round of the outer loop.
pub on_parsed :
    (Wire → List HttpHeader → Option (List HttpHeader × Wire))
    → Wire
    → List HttpHeader
    → Parsed
    → Option (List HttpHeader × Wire)
on_parsed again w out need_more = none
on_parsed again w out refused = none
on_parsed again w out (consumed n h) =
    again (record w { read_buffer = drop n w.read_buffer }) (add_header h.name h.value out)

-- The line is empty, or it is a header.
pub on_line :
    (Wire → List HttpHeader → Option (List HttpHeader × Wire))
    → Wire
    → List HttpHeader
    → Option (Bytes × Bytes)
    → Option (List HttpHeader × Wire)
unfolding on_parsed
on_line again w out none = none
on_line again w out (some (line, rest)) =
    if length (strip_cr line) == 0
    then some (out, record w { read_buffer = rest })
    else on_parsed again w out (try_parse w.read_buffer)

pub headers_loop : ℕ → ℕ → Wire → List HttpHeader → Option (List HttpHeader × Wire)
unfolding find_line on_line
headers_loop zero max_header_size w out = none
headers_loop (suc fuel) max_header_size w out = find_line max_header_size w >>= λ w'.
    on_line (headers_loop fuel max_header_size) w' out (cut 10 w'.read_buffer)

abbrev pub readable : List Bytes → Bytes
readable [] = []
readable ([] ∷ more) = []
readable ((b ∷ bs) ∷ more) = (b ∷ bs) ++ readable more

-- What can still be read.
abbrev pub available : Wire → Bytes
available w = w.read_buffer ++ readable w.incoming

-- A round for each byte that can come, since a line takes one at least.
pub read_headers : ℕ → Wire → Option (List HttpHeader × Wire)
unfolding headers_loop
read_headers max_header_size w = headers_loop (length (available w) + 1) max_header_size w []
