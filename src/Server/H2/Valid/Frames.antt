-- ===== src/Server/H2/Valid/Frames.antt =====
-- The frame loop keeps a valid connection valid.
use libnhttp.Base.{
  ℕ, ◌+◌, ◌≤◌, ◌≡◌, refl, List, ◌++◌, arith, Bytes, All, ltb, ◌==◌, Bool, true, false, Bool-cases,
  inl, inr, Option, some, none, length, length-append, length-take, take, drop, if◌then◌else◌,
}
use libnhttp.Http2.Frame.{FrameHeader, Content, strip_padding, parse_window_update_payload}
use libnhttp.Http2.Hpack.Tables.{HeaderField}
use libnhttp.Server.H2.{
  H2Stream, ConnectionH2, find_stream, put_stream, has_flag, Outcome, go_on, close,
}
use libnhttp.Server.H2.Windows.{
  replenished, widen_stream, window_updated, handle_window_update, take_data, data_stripped,
  data_for, handle_data,
}
use libnhttp.Server.H2.Loop.{checked, on_frame}
use libnhttp.Server.H2.Valid.{
  Fits, IsValid, find_stream-Fits, put_stream-Fits, erase_stream-Fits, clear_woken-Fits,
}
use libnhttp.Server.H2.Valid.Handlers.{
  dispatch_stream-IsValid, handle_headers-IsValid, handle_continuation-IsValid,
  handle_settings-IsValid, handle_ping-IsValid,
}

module _ {D : Type 0} where
  widen_stream-IsValid :
      (i n : ℕ) (o : Option H2Stream) (c : ConnectionH2 D)
      → IsValid c
      → ((s : H2Stream) → o ≡ some s → Fits c.highest_stream_id c.max_request_body_size (i, s))
      → IsValid (widen_stream i n o c)
  widen_stream-IsValid i n none c v fits = v
  widen_stream-IsValid i n (some s) c v fits = record {
    streams_fit = put_stream-Fits _ _ i _ c.streams v.streams_fit (fits s refl);
    dispatched_fit = v.dispatched_fit;
  }

  window_updated-IsValid :
      (fh : FrameHeader) (o : Option ℕ) (c : ConnectionH2 D)
      → IsValid c
      → IsValid (window_updated fh o c).1
  window_updated-IsValid fh none c v = v
  window_updated-IsValid fh (some n) c v = elim (Bool-cases (n == 0)) [
    | inl nothing ↦ rw nothing v
    | inr more ↦ elim (Bool-cases (fh.stream_id == 0)) [
      | inl whole ↦
          rw (more, whole)
            (record {
              streams_fit = clear_woken-Fits _ _ c.streams v.streams_fit;
              dispatched_fit = v.dispatched_fit;
            })
      | inr one ↦
          rw (more, one)
            (widen_stream-IsValid fh.stream_id n (find_stream fh.stream_id c.streams) c v
              (λ s found. find_stream-Fits _ _ fh.stream_id s c.streams v.streams_fit found))
    ]
  ]

  handle_window_update-IsValid :
      (fh : FrameHeader) (payload : Bytes) (c : ConnectionH2 D)
      → IsValid c
      → IsValid (handle_window_update fh payload c).1
  unfolding handle_window_update
  handle_window_update-IsValid fh payload c v =
      window_updated-IsValid fh (parse_window_update_payload payload) c v

  either-IsValid :
      (b : Bool) (c d : ConnectionH2 D) → IsValid c → IsValid d → IsValid (if b then c else d)
  either-IsValid true c d v w = v
  either-IsValid false c d v w = w

  take_data-IsValid :
      (fh : FrameHeader) (content : Bytes) (s : H2Stream) (c : ConnectionH2 D)
      → IsValid c
      → Fits c.highest_stream_id c.max_request_body_size (fh.stream_id, s)
      → length s.body_buffer + length content ≤ c.max_request_body_size
      → IsValid (take_data fh content s c)
  take_data-IsValid fh content s c v fit small =
      let h : ℕ = c.highest_stream_id in
      let m : ℕ = c.max_request_body_size in
      let longer : H2Stream = record s { body_buffer = s.body_buffer ++ content } in
      let ended : H2Stream = record longer { end_stream = true } in
      let grown : length (s.body_buffer ++ content) ≤ m =
        omega (arith, length-append s.body_buffer content) in
      let fits : Fits h m (fh.stream_id, longer) = (fit.0, fit.1, fit.2, grown) in
      let own : Fits h m (ended.id, ended) = (refl, rw fit.0 fit.1, rw fit.0 fit.2, grown) in
      let all : All (Fits h m) (put_stream fh.stream_id ended c.streams) =
        put_stream-Fits h m fh.stream_id ended c.streams v.streams_fit fits in
      let ended_valid : IsValid (record c {
        streams = put_stream fh.stream_id ended c.streams;
        sent = replenished fh c.sent;
      }) =
        record { streams_fit = all; dispatched_fit = v.dispatched_fit } in
      either-IsValid (has_flag fh 0x1) _ _
        (either-IsValid s.end_headers _ _ (dispatch_stream-IsValid ended _ ended_valid own)
          ended_valid)
        (record {
          streams_fit = put_stream-Fits h m fh.stream_id longer c.streams v.streams_fit fits;
          dispatched_fit = v.dispatched_fit;
        })

  data_stripped-IsValid :
      (fh : FrameHeader) (payload : Bytes) (o : Option Content) (s : H2Stream) (c : ConnectionH2 D)
      → IsValid c
      → Fits c.highest_stream_id c.max_request_body_size (fh.stream_id, s)
      → IsValid (data_stripped fh payload o s c).1
  data_stripped-IsValid fh payload none s c v fit = v
  data_stripped-IsValid fh payload (some content) s c v fit =
      elim (Bool-cases (ltb c.max_request_body_size (length s.body_buffer + content.content_len))) [
        | inl large ↦ rw large v
        | inr fits ↦
            let small : length s.body_buffer + content.content_len ≤ c.max_request_body_size =
              ground arith in
            rw fits (
              take_data-IsValid fh (take content.content_len (drop content.content_offset payload))
                s c v fit
                (omega
                  (arith, length-take content.content_len (drop content.content_offset payload))))
      ]

  data_for-IsValid :
      (fh : FrameHeader) (payload : Bytes) (o : Option H2Stream) (c : ConnectionH2 D)
      → IsValid c
      → ((s : H2Stream)
          → o ≡ some s
          → Fits c.highest_stream_id c.max_request_body_size (fh.stream_id, s))
      → IsValid (data_for fh payload o c).1
  data_for-IsValid fh payload none c v fits = v
  data_for-IsValid fh payload (some s) c v fits =
      data_stripped-IsValid fh payload (strip_padding payload (has_flag fh 0x8)) s c v (fits s refl)

  handle_data-IsValid :
      (fh : FrameHeader) (payload : Bytes) (c : ConnectionH2 D)
      → IsValid c
      → IsValid (handle_data fh payload c).1
  unfolding handle_data
  handle_data-IsValid fh payload c v =
      data_for-IsValid fh payload (find_stream fh.stream_id c.streams) c v
        (λ s found. find_stream-Fits _ _ fh.stream_id s c.streams v.streams_fit found)

  abbrev pub after : Outcome D → ConnectionH2 D
  after (go_on c) = c
  after (close c) = c

  checked-IsValid : (r : Bool × ConnectionH2 D) → IsValid r.1 → IsValid (after (checked r))
  checked-IsValid (true, c) v = v
  checked-IsValid (false, c) v = record {
    streams_fit = v.streams_fit;
    dispatched_fit = v.dispatched_fit;
  }

module _ {D : Type 0} (decode : D → Bytes → Option (List HeaderField) × D) where
  -- Whatever frame comes, the connection that the handlers leave is valid.
  pub on_frame-IsValid :
      (fh : FrameHeader) (payload : Bytes) (c : ConnectionH2 D)
      → IsValid c
      → IsValid (after (on_frame decode fh payload c))
  unfolding on_frame
  on_frame-IsValid fh payload c v = elim (Bool-cases (fh.type == 0x4)) [
    | inl settings ↦ rw settings (checked-IsValid _ (handle_settings-IsValid fh payload c v))
    | inr no_4 ↦ elim (Bool-cases (fh.type == 0x1)) [
      | inl headers ↦
          rw (no_4, headers) (checked-IsValid _ (handle_headers-IsValid decode fh payload c v))
      | inr no_1 ↦ elim (Bool-cases (fh.type == 0x9)) [
        | inl continuation ↦
            rw (no_4, no_1, continuation)
              (checked-IsValid _ (handle_continuation-IsValid decode fh payload c v))
        | inr no_9 ↦ elim (Bool-cases (fh.type == 0x0)) [
          | inl data_frame ↦
              rw (no_4, no_1, no_9, data_frame)
                (checked-IsValid _ (handle_data-IsValid fh payload c v))
          | inr no_0 ↦ elim (Bool-cases (fh.type == 0x8)) [
            | inl update ↦
                rw (no_4, no_1, no_9, no_0, update)
                  (checked-IsValid _ (handle_window_update-IsValid fh payload c v))
            | inr no_8 ↦ elim (Bool-cases (fh.type == 0x3)) [
              | inl reset ↦
                  rw (no_4, no_1, no_9, no_0, no_8, reset)
                    (record {
                      streams_fit = erase_stream-Fits _ _ fh.stream_id c.streams v.streams_fit;
                      dispatched_fit = v.dispatched_fit;
                    })
              | inr no_3 ↦ elim (Bool-cases (fh.type == 0x6)) [
                | inl ping ↦
                    rw (no_4, no_1, no_9, no_0, no_8, no_3, ping)
                      (checked-IsValid _ (handle_ping-IsValid fh payload c v))
                | inr no_6 ↦ elim (Bool-cases (fh.type == 0x7)) [
                  | inl goaway ↦ rw (no_4, no_1, no_9, no_0, no_8, no_3, no_6, goaway) v
                  | inr other ↦ rw (no_4, no_1, no_9, no_0, no_8, no_3, no_6, other) v
                ]
              ]
            ]
          ]
        ]
      ]
    ]
  ]
