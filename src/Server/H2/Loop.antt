-- ===== src/Server/H2/Loop.antt =====
-- The frame loop of `connection_h2::run` in src/server/connection_h2.cpp.
use libnhttp.Base.{
  ℕ, zero, suc, List, [], ◌∷◌, ◌++◌, Bytes, ltb, ◌==◌, Bool, true, false, Option, some, none, ◌>>=◌,
  length, take, drop, if◌then◌else◌, codes,
}
use libnhttp.Base.Text.{bytes_eq}
use libnhttp.Http2.Frame.{FrameHeader, parse}
use libnhttp.Http2.Hpack.Tables.{HeaderField}
use libnhttp.Server.H2.{ConnectionH2, erase_stream, Outcome, go_on, close, send_frame, send_goaway}
use libnhttp.Server.H2.Headers.{handle_headers, handle_continuation}
use libnhttp.Server.H2.Windows.{handle_settings, handle_ping, handle_window_update, handle_data}

-- What follows the `switch`.
abbrev pub checked : {D : Type 0} → Bool × ConnectionH2 D → Outcome D
checked (true, c) = go_on c
checked (false, c) = close (send_goaway 0x1 c)

-- What `read_exact` takes: `n` bytes, if so many come before the end of the wire.
unfoldable pub read_exact : ℕ → Bytes → Option (Bytes × Bytes)
read_exact n wire = if ltb (length wire) n then none else some (take n wire, drop n wire)

-- `read_frame_header`, the cap, and the payload.
unfoldable pub read_frame : Bytes → Option (FrameHeader × Bytes × Bytes)
read_frame wire = do
  head ← read_exact 9 wire
  fh ← parse head.0
  body ← if ltb 16777216 fh.payload_length then none else read_exact fh.payload_length head.1
  some (fh, body.0, body.1)

abbrev pub client_preface : Bytes
client_preface = codes "PRI * HTTP/2.0" ++ 13 ∷ 10 ∷ 13 ∷ 10 ∷ codes "SM" ++ 13 ∷ 10 ∷ 13 ∷ 10 ∷ []

module _ {D : Type 0} (decode : D → Bytes → Option (List HeaderField) × D) where
  -- The `switch` on the frame's type.
  unfoldable pub on_frame : FrameHeader → Bytes → ConnectionH2 D → Outcome D
  on_frame fh payload c =
      if fh.type == 0x4
      then checked (handle_settings fh payload c)
      else if fh.type == 0x1
      then checked (handle_headers decode fh payload c)
      else if fh.type == 0x9
      then checked (handle_continuation decode fh payload c)
      else if fh.type == 0x0
      then checked (handle_data fh payload c)
      else if fh.type == 0x8
      then checked (handle_window_update fh payload c)
      else if fh.type == 0x3
      then go_on (record c { streams = erase_stream fh.stream_id c.streams })
      else if fh.type == 0x6
      then checked (handle_ping fh payload c)
      else if fh.type == 0x7
      then close c
      else go_on c

  -- The loop; a frame takes nine bytes at least. `none` means that `n` rounds did not suffice.
  unfoldable pub run_loop : ℕ → Bytes → ConnectionH2 D → Option (ConnectionH2 D)
  run_loop zero wire c = none
  run_loop (suc n) wire c = elim (read_frame wire) [
    | none ↦ some c
    | some (fh, payload, rest) ↦ elim (on_frame fh payload c) [
      | go_on d ↦ run_loop n rest d
      | close d ↦ some d
    ]
  ]

  unfoldable pub run : Bytes → ConnectionH2 D → Option (ConnectionH2 D)
  run wire c = elim (read_exact (length client_preface) wire) [
    | none ↦ some c
    | some (preface, rest) ↦
        if bytes_eq preface client_preface
        then run_loop (suc (length rest)) rest (send_frame 0x4 0 0 [] c)
        else some c
  ]
