-- ===== src/Server/H2/Runs.antt =====
-- The connection on small inputs, and instances of its theorems.
use libnhttp.Base.{
  ◌≤◌, ◌≡◌, ◌≢◌, refl, List, [], ◌∷◌, ◌++◌, arith, Bytes, true, false, Option, some, none, length,
  if◌then◌else◌, codes,
}
use libnhttp.Base.Int.{pos, negsuc, ltb_ℤ, ◌-ℤ◌}
use libnhttp.Http2.Frame.{FrameHeader}
use libnhttp.Http2.Hpack.Tables.{HeaderField}
use libnhttp.Http2.Hpack.Decoder.{Decoder, Decoded, new_decoder, decode}
use libnhttp.Server.H2.{new_stream, ConnectionH2, erase_stream, frame, send_frame, finish_dispatch}
use libnhttp.Server.H2.Headers.{handle_headers, handle_continuation, split_query}
use libnhttp.Server.H2.Windows.{handle_ping}
use libnhttp.Server.H2.Loop.{run, client_preface}
use libnhttp.Server.H2.Valid.{IsValid}
use libnhttp.Server.H2.Split.{handle_continuation-split}
use libnhttp.Server.H2.Progress.{run-IsValid}
use libnhttp.Server.H2.Sender.{
  Sender, is_blocked, allowed, start_frame, end_frame, send_chunk, flat,
}
use libnhttp.Server.H2.Sender.Flow.{
  unsent_yet, more, starts, ends, others_send, left_of, Flow-granted,
}
use libnhttp.Server.H2.Lock.{WriterLock, new_lock, lock, start, step, asks, locked-InOrder}

-- The header decoder of the connection.
abbrev hpack_result : Decoder → Option Decoded → Option (List HeaderField) × Decoder
hpack_result d none = (none, d)
hpack_result d (some r) = (if r.accepted then some r.out else none, r.decoder)

abbrev hpack_block : Decoder → Bytes → Option (List HeaderField) × Decoder
hpack_block d block = hpack_result d (decode d block [])

abbrev idle : ConnectionH2 Decoder
idle = record {
  hpack_decoder = new_decoder;
  streams = [];
  highest_stream_id = 0;
  last_header_stream_id = 0;
  expecting_continuation = false;
  connection_send_window = pos 65535;
  peer_initial_window_size = 65535;
  peer_max_frame_size = 16384;
  max_request_body_size = 16777216;
  sent = [];
  dispatched = [];
  resumed = [];
}

idle-IsValid : IsValid idle
idle-IsValid = record { streams_fit = tt; dispatched_fit = tt }

-- A PING is answered, and DATA for an unknown stream is passed over.
abbrev ping : FrameHeader
ping = record { payload_length = 8; type = 0x6; flags = 0; stream_id = 0 }

ping_run :
    handle_ping ping (1 ∷ 2 ∷ 3 ∷ 4 ∷ 5 ∷ 6 ∷ 7 ∷ 8 ∷ []) idle
    ≡ (true, send_frame 0x6 0x1 0 (1 ∷ 2 ∷ 3 ∷ 4 ∷ 5 ∷ 6 ∷ 7 ∷ 8 ∷ []) idle)
unfolding handle_ping
ping_run = refl

erase_run : finish_dispatch 1 (record idle { streams = (1, new_stream) ∷ [] }) ≡ idle
unfolding finish_dispatch erase_stream
erase_run = refl

split_query_run : split_query (codes "/a?b=c") ≡ (codes "/a", codes "b=c")
unfolding split_query
split_query_run = refl

run-IsValid_example :
    (d : ConnectionH2 Decoder) × (run hpack_block
        (client_preface ++ 0 ∷ 0 ∷ 1 ∷ 1 ∷ 5 ∷ 0 ∷ 0 ∷ 0 ∷ 1 ∷ 0x82 ∷ [])
        idle
      ≡ some d)
    × IsValid d
run-IsValid_example =
    run-IsValid hpack_block (client_preface ++ 0 ∷ 0 ∷ 1 ∷ 1 ∷ 5 ∷ 0 ∷ 0 ∷ 0 ∷ 1 ∷ 0x82 ∷ []) idle
      idle-IsValid

handle_continuation-split_example :
    (d : ConnectionH2 Decoder) × (handle_headers hpack_block
        (frame 0x1 5 1 (0x82 ∷ 0x84 ∷ [])).0
        (0x82 ∷ 0x84 ∷ [])
        idle
      ≡ (true, d))
    × ((handle_headers hpack_block (frame 0x1 1 1 (0x82 ∷ [])).0 (0x82 ∷ []) idle).0 ≡ true)
    × (handle_continuation hpack_block
          (frame 0x9 4 1 (0x84 ∷ [])).0
          (0x84 ∷ [])
          (handle_headers hpack_block (frame 0x1 1 1 (0x82 ∷ [])).0 (0x82 ∷ []) idle).1
        ≡ (true, record d { last_header_stream_id = 1 }))
handle_continuation-split_example =
    handle_continuation-split hpack_block 1 5 1 4 (0x82 ∷ []) (0x84 ∷ []) idle refl (omega arith)
      refl refl refl refl refl refl refl refl

abbrev chunk : Sender
chunk = record {
  stream_window = pos 2;
  connection_window = pos 10;
  max_frame_size = 16384;
  unsent = 1 ∷ 2 ∷ 3 ∷ [];
  frames = [];
  in_flight = none;
}

chunk_run : send_chunk chunk ≡ record chunk {
  stream_window = pos 0;
  connection_window = pos 8;
  unsent = 3 ∷ [];
  frames = (1 ∷ 2 ∷ []) ∷ [];
}
unfolding send_chunk start_frame end_frame allowed
chunk_run = refl

chunk_free : is_blocked chunk ≡ false
unfolding is_blocked
chunk_free = refl

some_unsent : chunk.unsent ≢ []
some_unsent e = cc

begun_run : (start_frame chunk).in_flight ≡ some (pos 2)
unfolding start_frame allowed
begun_run = refl

-- The chunk's frame is begun, another stream takes 9 bytes of the connection's 10, and the frame ends.
abbrev interleaved : Sender
interleaved = end_frame (pos 2) (record (start_frame chunk) {
  connection_window = (start_frame chunk).connection_window -ℤ pos 9;
})

-- The connection's window was looked at before and is taken from behind: it is negative.
overdrawn_run : interleaved.connection_window ≡ negsuc 0
unfolding end_frame start_frame
overdrawn_run = refl

Flow-granted_example :
    (length (flat interleaved.frames) ≤ 2)
    × (flat interleaved.frames ++ left_of interleaved ≡ 1 ∷ 2 ∷ 3 ∷ [])
    × (ltb_ℤ interleaved.stream_window (pos 0) ≡ false)
Flow-granted_example = Flow-granted 2 chunk 0 interleaved refl refl refl (
    more (more (more unsent_yet (starts refl some_unsent chunk_free)) (others_send 9))
      (ends (pos 2) begun_run))

abbrev two_asked : WriterLock
two_asked = lock 8 (lock 7 new_lock)

locked-InOrder_example :
    (two_asked.granted ++ two_asked.waiters ≡ two_asked.asked)
    × (two_asked.locked ≡ false → two_asked.waiters ≡ [])
locked-InOrder_example = locked-InOrder two_asked (step (step start (asks 7)) (asks 8))
