-- ===== src/Server/H2/Windows.antt =====
-- SETTINGS, PING, WINDOW_UPDATE and DATA in src/server/connection_h2.cpp.
use libnhttp.Base.{
  ℕ, ◌+◌, List, [], ◌∷◌, ◌++◌, Bytes, ltb, ◌==◌, Bool, true, false, not, ◌&&◌, ◌||◌, Option, some,
  none, length, take, drop, if◌then◌else◌,
}
use libnhttp.Base.Int.{pos, ◌+ℤ◌, ltb_ℤ}
use libnhttp.Http2.Frame.{
  FrameHeader, SettingsParam, Content, parse_settings_payload, parse_window_update_payload,
  write_window_update_payload, strip_padding,
}
use libnhttp.Server.H2.{
  H2Stream, ConnectionH2, find_stream, put_stream, has_flag, send_frame, frame, send_settings_ack,
  dispatch_stream,
}

-- The waiters that an update of the connection's window wakes, in the order of the list; the order
-- of the source's map is not fixed.
abbrev pub wakes : H2Stream → Bool
wakes s = s.window_waiter && ltb_ℤ (pos 0) s.send_window

abbrev pub woken : List (ℕ × H2Stream) → List ℕ
woken [] = []
woken ((k, s) ∷ streams) = if wakes s then k ∷ woken streams else woken streams

abbrev pub clear_woken : List (ℕ × H2Stream) → List (ℕ × H2Stream)
clear_woken [] = []
clear_woken ((k, s) ∷ streams) =
    (k, if wakes s then record s { window_waiter = false } else s) ∷ clear_woken streams

-- What is sent behind data: both windows are replenished by what was consumed.
abbrev pub replenished : FrameHeader → List (FrameHeader × Bytes) → List (FrameHeader × Bytes)
replenished fh sent =
    if ltb 0 fh.payload_length
    then (sent ++ frame 0x8 0 fh.stream_id (write_window_update_payload [] fh.payload_length) ∷ [])
      ++ frame 0x8 0 0 (write_window_update_payload [] fh.payload_length) ∷ []
    else sent

module _ {D : Type 0} where
  unfoldable pub apply_settings : List SettingsParam → ConnectionH2 D → ConnectionH2 D
  apply_settings [] c = c
  apply_settings (p ∷ ps) c = apply_settings ps (
      if p.id == 4
      then record c { peer_initial_window_size = p.value }
      else if p.id == 5
      then record c {
        peer_max_frame_size = if p.value == 0 then c.peer_max_frame_size else p.value;
      }
      else c)

  abbrev pub settings_parsed : Option (List SettingsParam) → ConnectionH2 D → Bool × ConnectionH2 D
  settings_parsed none c = (false, c)
  settings_parsed (some ps) c = (true, send_settings_ack (apply_settings ps c))

  unfoldable pub handle_settings : FrameHeader → Bytes → ConnectionH2 D → Bool × ConnectionH2 D
  handle_settings fh payload c =
      if not (fh.stream_id == 0)
      then (false, c)
      else if has_flag fh 0x1
      then (true, c)
      else settings_parsed (parse_settings_payload payload) c

  unfoldable pub handle_ping : FrameHeader → Bytes → ConnectionH2 D → Bool × ConnectionH2 D
  handle_ping fh payload c =
      if not (fh.stream_id == 0) || not (length payload == 8)
      then (false, c)
      else if has_flag fh 0x1
      then (true, c)
      else (true, send_frame 0x6 0x1 0 payload c)

  abbrev pub widen_stream : ℕ → ℕ → Option H2Stream → ConnectionH2 D → ConnectionH2 D
  widen_stream i increment none c = c
  widen_stream i increment (some s) c =
      let wide : H2Stream = record s {
        send_window = s.send_window +ℤ pos increment;
        window_waiter = false;
      } in
      record c {
        streams = put_stream i wide c.streams;
        resumed = if s.window_waiter then c.resumed ++ i ∷ [] else c.resumed;
      }

  abbrev pub window_updated : FrameHeader → Option ℕ → ConnectionH2 D → Bool × ConnectionH2 D
  window_updated fh none c = (false, c)
  window_updated fh (some increment) c =
      if increment == 0
      then (false, c)
      else if fh.stream_id == 0
      then (
        true,
        record c {
          connection_send_window = c.connection_send_window +ℤ pos increment;
          streams = clear_woken c.streams;
          resumed = c.resumed ++ woken c.streams;
        },
      )
      else (true, widen_stream fh.stream_id increment (find_stream fh.stream_id c.streams) c)

  unfoldable pub handle_window_update : FrameHeader → Bytes → ConnectionH2 D → Bool × ConnectionH2 D
  handle_window_update fh payload c = window_updated fh (parse_window_update_payload payload) c

  abbrev pub take_data : FrameHeader → Bytes → H2Stream → ConnectionH2 D → ConnectionH2 D
  take_data fh content s c =
      let longer : H2Stream = record s { body_buffer = s.body_buffer ++ content } in
      let ended : H2Stream = record longer { end_stream = true } in
      if has_flag fh 0x1
      then (let last : ConnectionH2 D = record c {
        streams = put_stream fh.stream_id ended c.streams;
        sent = replenished fh c.sent;
      } in
          if s.end_headers then dispatch_stream ended last else last)
      else record c {
        streams = put_stream fh.stream_id longer c.streams;
        sent = replenished fh c.sent;
      }

  abbrev pub data_stripped :
      FrameHeader → Bytes → Option Content → H2Stream → ConnectionH2 D → Bool × ConnectionH2 D
  data_stripped fh payload none s c = (false, c)
  data_stripped fh payload (some content) s c =
      if ltb c.max_request_body_size (length s.body_buffer + content.content_len)
      then (false, c)
      else (true, take_data fh (take content.content_len (drop content.content_offset payload)) s c)

  abbrev pub data_for :
      FrameHeader → Bytes → Option H2Stream → ConnectionH2 D → Bool × ConnectionH2 D
  data_for fh payload none c = (true, c)
  data_for fh payload (some s) c =
      data_stripped fh payload (strip_padding payload (has_flag fh 0x8)) s c

  unfoldable pub handle_data : FrameHeader → Bytes → ConnectionH2 D → Bool × ConnectionH2 D
  handle_data fh payload c = data_for fh payload (find_stream fh.stream_id c.streams) c
