-- ===== src/Server/H2/Valid/Handlers.antt =====
-- The handlers keep a valid connection valid.
use libnhttp.Base.{
  ℕ, ◌<◌, ◌≡◌, refl, List, [], ◌∷◌, ◌++◌, arith, Bytes, ◌==◌, true, not, ◌||◌, Bool-cases, inl, inr,
  Option, some, none, length, max,
}
use libnhttp.Http2.Frame.{FrameHeader, SettingsParam, parse_settings_payload}
use libnhttp.Http2.Hpack.Tables.{HeaderField}
use libnhttp.Server.H2.{
  pos, H2Stream, new_stream, ConnectionH2, find_stream, put_stream, has_flag, dispatch_stream,
}
use libnhttp.Server.H2.Headers.{
  headers_read, finish_header_block, block_of, opened, handle_headers, continued,
  handle_continuation,
}
use libnhttp.Server.H2.Windows.{apply_settings, settings_parsed, handle_settings, handle_ping}
use libnhttp.Server.H2.Valid.{
  Fits, IsValid, find_stream-Fits, put_stream-Fits, Fits-higher, All-last, headers_read_kept,
}

module _ {D : Type 0} where
  pub dispatch_stream-IsValid :
      (s : H2Stream) (c : ConnectionH2 D)
      → IsValid c
      → Fits c.highest_stream_id c.max_request_body_size (s.id, s)
      → IsValid (dispatch_stream s c)
  unfolding dispatch_stream
  dispatch_stream-IsValid s c v fit = record {
    streams_fit =
        put_stream-Fits c.highest_stream_id c.max_request_body_size s.id _ c.streams v.streams_fit
          (elim (Bool-cases s.malformed) [ inl bad ↦ rw bad fit | inr good ↦ rw good fit ]);
    dispatched_fit = All-last _ c.dispatched s v.dispatched_fit fit.3;
  }

module _ {D : Type 0} (decode : D → Bytes → Option (List HeaderField) × D) where
  finish_header_block-IsValid :
      (s : H2Stream) (c : ConnectionH2 D)
      → IsValid c
      → Fits c.highest_stream_id c.max_request_body_size (s.id, s)
      → IsValid (finish_header_block decode s c)
  unfolding finish_header_block
  finish_header_block-IsValid s c v fit =
      let r = decode c.hpack_decoder s.header_block in
      let done : H2Stream = record (headers_read r.0 s) { end_headers = true } in
      let (same_id, same_body) = headers_read_kept r.0 s in
      let fits : Fits c.highest_stream_id c.max_request_body_size (done.id, done) =
        (refl, rw same_id (fit.1), rw same_id (fit.2), rw same_body (fit.3)) in
      let kept : IsValid
          (record c { hpack_decoder = r.1; streams = put_stream done.id done c.streams }) =
        record {
          streams_fit = put_stream-Fits _ _ done.id done c.streams v.streams_fit fits;
          dispatched_fit = v.dispatched_fit;
        } in
      elim (Bool-cases (done.end_stream || done.malformed)) [
        | inl ended ↦ rw ended (dispatch_stream-IsValid done _ kept fits)
        | inr more ↦ rw more kept
      ]

  opened-IsValid :
      (fh : FrameHeader) (o : Option Bytes) (c : ConnectionH2 D)
      → IsValid c
      → 0 < fh.stream_id
      → IsValid (opened decode fh o c).1
  opened-IsValid fh none c v positive = v
  opened-IsValid fh (some block) c v positive =
      let h : ℕ = max c.highest_stream_id fh.stream_id in
      let m : ℕ = c.max_request_body_size in
      let s : H2Stream = record new_stream {
        id = fh.stream_id;
        send_window = pos c.peer_initial_window_size;
        header_block = block;
        end_stream = has_flag fh 0x1;
      } in
      let fits : Fits h m (fh.stream_id, s) = (refl, positive, omega arith, omega arith) in
      let kept : IsValid
          (record c { streams = put_stream fh.stream_id s c.streams; highest_stream_id = h }) =
        record {
          streams_fit =
              put_stream-Fits h m fh.stream_id s c.streams
                (Fits-higher c.highest_stream_id h m c.streams (omega arith) v.streams_fit) fits;
          dispatched_fit = v.dispatched_fit;
        } in
      elim (Bool-cases (has_flag fh 0x4)) [
        | inl all_here ↦ rw all_here (finish_header_block-IsValid s _ kept fits)
        | inr more ↦
            rw more
              (record { streams_fit = kept.streams_fit; dispatched_fit = kept.dispatched_fit })
      ]

  pub handle_headers-IsValid :
      (fh : FrameHeader) (payload : Bytes) (c : ConnectionH2 D)
      → IsValid c
      → IsValid (handle_headers decode fh payload c).1
  unfolding handle_headers
  handle_headers-IsValid fh payload c v =
      elim (Bool-cases ((fh.stream_id == 0) || c.expecting_continuation)) [
        | inl refused ↦ rw refused v
        | inr taken ↦ rw taken (opened-IsValid fh (block_of fh payload) c v (ground arith))
      ]

  continued-IsValid :
      (fh : FrameHeader) (payload : Bytes) (o : Option H2Stream) (c : ConnectionH2 D)
      → IsValid c
      → ((s : H2Stream)
          → o ≡ some s
          → Fits c.highest_stream_id c.max_request_body_size (fh.stream_id, s))
      → IsValid (continued decode fh payload o c).1
  continued-IsValid fh payload none c v fits = v
  continued-IsValid fh payload (some s) c v fits =
      let fit = fits s refl in
      let longer : H2Stream = record s { header_block = s.header_block ++ payload } in
      let kept : IsValid (record c { streams = put_stream fh.stream_id longer c.streams }) =
        record {
          streams_fit = put_stream-Fits _ _ fh.stream_id longer c.streams v.streams_fit fit;
          dispatched_fit = v.dispatched_fit;
        } in
      let own : Fits c.highest_stream_id c.max_request_body_size (longer.id, longer) =
        (refl, rw fit.0 fit.1, rw fit.0 fit.2, fit.3) in
      elim (Bool-cases (has_flag fh 0x4)) [
        | inl all_here ↦ rw all_here (
            finish_header_block-IsValid longer _
              (record { streams_fit = kept.streams_fit; dispatched_fit = kept.dispatched_fit }) own)
        | inr more ↦ rw more kept
      ]

  pub handle_continuation-IsValid :
      (fh : FrameHeader) (payload : Bytes) (c : ConnectionH2 D)
      → IsValid c
      → IsValid (handle_continuation decode fh payload c).1
  unfolding handle_continuation
  handle_continuation-IsValid fh payload c v =
      elim (Bool-cases
        ((not c.expecting_continuation) || not (fh.stream_id == c.last_header_stream_id))) [
          | inl refused ↦ rw refused v
          | inr taken ↦ rw taken (
              continued-IsValid fh payload (find_stream fh.stream_id c.streams) c v
                (λ s found. find_stream-Fits _ _ fh.stream_id s c.streams v.streams_fit found))
        ]

module _ {D : Type 0} where
  apply_settings-IsValid :
      (ps : List SettingsParam) (c : ConnectionH2 D) → IsValid c → IsValid (apply_settings ps c)
  unfolding apply_settings
  apply_settings-IsValid [] c v = v
  apply_settings-IsValid (p ∷ ps) c v = apply_settings-IsValid ps _ (elim (Bool-cases (p.id == 4)) [
    | inl window ↦
        rw window (record { streams_fit = v.streams_fit; dispatched_fit = v.dispatched_fit })
    | inr other ↦ elim (Bool-cases (p.id == 5)) [
      | inl size ↦
          rw (other, size)
            (record { streams_fit = v.streams_fit; dispatched_fit = v.dispatched_fit })
      | inr none_of ↦ rw (other, none_of) v
    ]
  ])

  settings_parsed-IsValid :
      (o : Option (List SettingsParam)) (c : ConnectionH2 D)
      → IsValid c
      → IsValid (settings_parsed o c).1
  settings_parsed-IsValid none c v = v
  settings_parsed-IsValid (some ps) c v =
      let w = apply_settings-IsValid ps c v in
      record { streams_fit = w.streams_fit; dispatched_fit = w.dispatched_fit }

  pub handle_settings-IsValid :
      (fh : FrameHeader) (payload : Bytes) (c : ConnectionH2 D)
      → IsValid c
      → IsValid (handle_settings fh payload c).1
  unfolding handle_settings
  handle_settings-IsValid fh payload c v = elim (Bool-cases (fh.stream_id == 0)) [
    | inl whole ↦ elim (Bool-cases (has_flag fh 0x1)) [
      | inl ack ↦ rw (whole, ack) v
      | inr new ↦ rw (whole, new) (settings_parsed-IsValid (parse_settings_payload payload) c v)
    ]
    | inr stream ↦ rw stream v
  ]

  pub handle_ping-IsValid :
      (fh : FrameHeader) (payload : Bytes) (c : ConnectionH2 D)
      → IsValid c
      → IsValid (handle_ping fh payload c).1
  unfolding handle_ping
  handle_ping-IsValid fh payload c v =
      elim (Bool-cases (not (fh.stream_id == 0) || not (length payload == 8))) [
        | inl refused ↦ rw refused v
        | inr taken ↦ elim (Bool-cases (has_flag fh 0x1)) [
          | inl ack ↦ rw (taken, ack) v
          | inr new ↦
              rw (taken, new)
                (record { streams_fit = v.streams_fit; dispatched_fit = v.dispatched_fit })
        ]
      ]
