-- ===== src/Ws/Connection/Runs.antt =====
-- Concrete runs of the WebSocket connection, and its theorems at concrete inputs.
use libnhttp.Base.{◌≡◌, refl, [], ◌∷◌, arith, true, false, some, none, codes}
use libnhttp.Ws.Connection.{
  Connection, take_chunk, fill_more, fill_until, read_exact, read_length, read_key, unmask,
  read_payload, read_frame, frame_header, write_frame, send_text, send_binary,
}
use libnhttp.Ws.Connection.Feed.{available, read_exact_short}
use libnhttp.Ws.Connection.Lengths.{extension}
use libnhttp.Ws.Connection.Masking.{mask}
use libnhttp.Ws.Connection.RoundTrip.{read_frame-masked, read_frame-write_frame}

-- RFC 6455, 5.7: a masked text frame that holds "Hello", cut by the reads of the wire.
abbrev hello : Connection
hello = record {
  buffer = 0x81 ∷ [];
  eof = false;
  closed = false;
  incoming =
      (0x85 ∷ 0x37 ∷ 0xfa ∷ []) ∷ (0x21 ∷ 0x3d ∷ 0x7f ∷ 0x9f ∷ 0x4d ∷ 0x51 ∷ 0x58 ∷ 9 ∷ []) ∷ [];
  sent = [];
}

abbrev behind : Connection
behind = record hello { buffer = 9 ∷ []; incoming = [] }

read_run :
    read_frame hello ≡ (some (record { fin = true; opcode = 1; payload = codes "Hello" }), behind)
unfolding read_frame read_exact fill_until fill_more take_chunk read_length read_key read_payload
    unmask
read_run = refl

send_run :
    (send_binary (1 ∷ []) (send_text (codes "Hi") behind)).sent
    ≡ 0x81 ∷ 2 ∷ 72 ∷ 105 ∷ 0x82 ∷ 1 ∷ 1 ∷ []
unfolding send_text send_binary write_frame frame_header
send_run = refl

read_exact_short_example :
    (c' : Connection) × (read_exact 20 hello ≡ (none, c'))
    × (available c' ≡ available hello)
    × (c'.eof ≡ true)
read_exact_short_example = read_exact_short 20 hello (omega arith)

read_frame-masked_example :
    (c' : Connection) × (read_frame hello
      ≡ (some (record { fin = true; opcode = 1; payload = codes "Hello" }), c'))
    × (available c' ≡ 9 ∷ [])
unfolding mask extension
read_frame-masked_example =
    read_frame-masked true 1 (0x37 ∷ 0xfa ∷ 0x21 ∷ 0x3d ∷ []) (codes "Hello") (9 ∷ []) hello
      (omega arith) refl (omega arith) (omega arith) (omega arith) refl

abbrev reader : Connection
reader = record behind { buffer = 0x02 ∷ []; incoming = (2 ∷ 7 ∷ []) ∷ (8 ∷ []) ∷ [] }

read_frame-write_frame_example :
    (c' : Connection) × (read_frame reader
      ≡ (some (record { fin = false; opcode = 2; payload = 7 ∷ 8 ∷ [] }), c'))
    × (available c' ≡ [])
unfolding write_frame frame_header
read_frame-write_frame_example =
    read_frame-write_frame false 2 (7 ∷ 8 ∷ []) [] hello reader (omega arith) (omega arith)
      (omega arith) refl
