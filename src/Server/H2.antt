-- ===== src/Server/H2.antt =====
-- `connection_h2` of src/server/connection_h2.cpp: its state and the handlers of frames. A handler runs
-- to its end in one step: what it sends is appended to `sent`, a stream whose response is started to
-- `dispatched`, and a coroutine that it wakes to `resumed`.
pub mod Headers
pub mod Windows
pub mod Loop
pub mod Sender
pub mod Lock
pub mod Valid
pub mod Split
pub mod Progress
mod Runs
use libnhttp.Base.{
  ℕ, List, [], ◌∷◌, ◌++◌, u32, bit_and, Bytes, ltb, ◌==◌, Bool, true, false, not, ◌&&◌, ◌||◌,
  Option, some, none, ◌>>=◌, length, take, drop, if◌then◌else◌, max, codes,
}
use libnhttp.Base.Text.{bytes_eq}
use libnhttp.Base.Int.{ℤ, pos, ◌+ℤ◌, ltb_ℤ}
use libnhttp.Http2.Frame.{
  FrameHeader, SettingsParam, parse_settings_payload, parse_window_update_payload,
  write_goaway_payload, strip_padding,
}
use libnhttp.Http2.Hpack.Tables.{HeaderField}
use libnhttp.Protocol.HttpMethod.{HttpMethod, http_method}
use libnhttp.Protocol.UrlEncode.{url_decode}

-- `connection_h2::h2_stream`; `query` is what `http_query_string::parse` is given, and
-- `window_waiter` says that a coroutine waits.
pub record H2Stream : Type 0 where
  pub id : ℕ
  pub method : HttpMethod
  pub raw_path : Bytes
  pub query : Bytes
  pub path : Bytes
  pub http_major : ℕ
  pub headers : List HeaderField
  pub hostname : Bytes
  pub header_block : Bytes
  pub body_buffer : Bytes
  pub end_headers : Bool
  pub end_stream : Bool
  pub malformed : Bool
  pub send_window : ℤ
  pub window_waiter : Bool

abbrev pub new_stream : H2Stream
new_stream = record {
  id = 0;
  method = http_method [];
  raw_path = [];
  query = [];
  path = [];
  http_major = 1;
  headers = [];
  hostname = [];
  header_block = [];
  body_buffer = [];
  end_headers = false;
  end_stream = false;
  malformed = false;
  send_window = pos 65535;
  window_waiter = false;
}

-- `D` is the state of the header decoder.
pub record ConnectionH2 (D : Type 0) : Type 0 where
  pub hpack_decoder : D
  pub streams : List (ℕ × H2Stream)
  pub highest_stream_id : ℕ
  pub last_header_stream_id : ℕ
  pub expecting_continuation : Bool
  pub connection_send_window : ℤ
  pub peer_initial_window_size : ℕ
  pub peer_max_frame_size : ℕ
  pub max_request_body_size : ℕ
  pub sent : List (FrameHeader × Bytes)
  pub dispatched : List H2Stream
  pub resumed : List ℕ

-- The map of streams: `find`, `operator[]` and `erase`.
pub find_stream : ℕ → List (ℕ × H2Stream) → Option H2Stream
find_stream i [] = none
find_stream i ((k, s) ∷ streams) = if k == i then some s else find_stream i streams

pub put_stream : ℕ → H2Stream → List (ℕ × H2Stream) → List (ℕ × H2Stream)
put_stream i s [] = (i, s) ∷ []
put_stream i s ((k, t) ∷ streams) =
    let rest = put_stream i s streams in if k == i then (k, s) ∷ streams else (k, t) ∷ rest

pub erase_stream : ℕ → List (ℕ × H2Stream) → List (ℕ × H2Stream)
erase_stream i [] = []
erase_stream i ((k, t) ∷ streams) =
    let rest = erase_stream i streams in if k == i then rest else (k, t) ∷ rest

abbrev pub has_flag : FrameHeader → ℕ → Bool
has_flag fh bit = not (bit_and fh.flags bit == 0)

-- What the frame loop does next.
pub data Outcome (D : Type 0) : Type 0 where
  go_on : ConnectionH2 D → Outcome D
  close : ConnectionH2 D → Outcome D

-- The frame that `send_frame` writes.
abbrev pub frame : ℕ → ℕ → ℕ → Bytes → FrameHeader × Bytes
frame t f i payload =
    (record { payload_length = u32 (length payload); type = t; flags = f; stream_id = i }, payload)

module _ {D : Type 0} where
  abbrev pub send_frame : ℕ → ℕ → ℕ → Bytes → ConnectionH2 D → ConnectionH2 D
  send_frame t f i payload c = record c { sent = c.sent ++ frame t f i payload ∷ [] }

  abbrev pub send_settings_ack : ConnectionH2 D → ConnectionH2 D
  send_settings_ack c = send_frame 0x4 0x1 0 [] c

  abbrev pub send_goaway : ℕ → ConnectionH2 D → ConnectionH2 D
  send_goaway error c = send_frame 0x7 0 0 (write_goaway_payload [] c.highest_stream_id error []) c

  -- Another handler's coroutine starts here: the stream's headers are moved out of it.
  pub dispatch_stream : H2Stream → ConnectionH2 D → ConnectionH2 D
  dispatch_stream s c =
      let left : H2Stream = if s.malformed then s else record s { headers = [] } in
      record c { dispatched = c.dispatched ++ s ∷ []; streams = put_stream s.id left c.streams }

  -- The end of a dispatched stream.
  pub finish_dispatch : ℕ → ConnectionH2 D → ConnectionH2 D
  finish_dispatch i c = record c { streams = erase_stream i c.streams }
