-- ===== src/Ws/Receive/Runs.antt =====
-- Concrete runs of `receive`, and its theorem at a concrete input.
use libnhttp.Base.{◌≡◌, refl, [], ◌∷◌, false, Option, some, codes}
use libnhttp.Ws.Connection.{
  Connection, take_chunk, fill_more, fill_until, read_exact, read_length, read_key, read_payload,
  read_frame, frame_header, write_frame,
}
use libnhttp.Ws.Receive.{
  MessageType, Message, finish, on_continuation, on_frame, receive_step, receive_loop, receive,
}
use libnhttp.Ws.Receive.Progress.{receive-total}

-- A fragment, a ping in between, and the last fragment.
abbrev pinged : Connection
pinged = record {
  buffer = 0x01 ∷ 1 ∷ 72 ∷ [];
  eof = false;
  closed = false;
  incoming = (0x89 ∷ 1 ∷ 7 ∷ 0x80 ∷ []) ∷ (1 ∷ 105 ∷ []) ∷ [];
  sent = [];
}

receive_run :
    receive pinged
    ≡ some (
      some (record { type = MessageType.text; payload = codes "Hi" }),
      record { buffer = []; eof = false; closed = false; incoming = []; sent = 0x8a ∷ 1 ∷ 7 ∷ [] },
    )
unfolding receive receive_loop receive_step on_frame on_continuation finish read_frame read_exact
    fill_until fill_more take_chunk read_length read_key read_payload write_frame frame_header
receive_run = refl

receive-total_example : (r : Option Message × Connection) × (receive pinged ≡ some r)
receive-total_example = receive-total pinged
