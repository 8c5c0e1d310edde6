-- ===== src/Server/H2/Split.antt =====
-- A header block that comes in two frames.
use libnhttp.Base.{
  sym, ap₂, ◌∙◌, ℕ, ◌<◌, ◌≡◌, refl, ap, List, [], ◌∷◌, ◌++◌, arith, Bytes, ◌==◌, Bool, true, false,
  not, ◌||◌, Bool-cases, inl, inr, Option, some, take-length, if◌then◌else◌, max,
}
use libnhttp.Http2.Frame.{FrameHeader, strip_padding}
use libnhttp.Http2.Hpack.Tables.{HeaderField}
use libnhttp.Server.H2.{
  frame, pos, H2Stream, new_stream, ConnectionH2, find_stream, put_stream, has_flag,
  dispatch_stream,
}
use libnhttp.Server.H2.Headers.{
  finish_header_block, headers_read, block_of, open_stream, opened, handle_headers,
  handle_continuation,
}

find_stream-put_stream :
    (i : ℕ) (s : H2Stream) (streams : List (ℕ × H2Stream))
    → find_stream i (put_stream i s streams) ≡ some s
unfolding find_stream put_stream
find_stream-put_stream i s [] = let same : (i == i) ≡ true = ground arith in rw same refl
find_stream-put_stream i s ((k, t) ∷ streams) = elim (Bool-cases (k == i)) [
  | inl same ↦ rw (same, find_stream, same) refl
  | inr other ↦ rw (other, find_stream, other) (find_stream-put_stream i s streams)
]

put_stream-put_stream :
    (i : ℕ) (s t : H2Stream) (streams : List (ℕ × H2Stream))
    → put_stream i t (put_stream i s streams) ≡ put_stream i t streams
unfolding put_stream
put_stream-put_stream i s t [] = let same : (i == i) ≡ true = ground arith in rw same refl
put_stream-put_stream i s t ((k, u) ∷ streams) = elim (Bool-cases (k == i)) [
  | inl same ↦ rw (same, put_stream, same) refl
  | inr other ↦
      rw (other, put_stream, other)
        (ap (λ (rest : List (ℕ × H2Stream)). (k, u) ∷ rest) (put_stream-put_stream i s t streams))
]

-- Without padding and priority the payload is the block.
block_of-plain :
    (fh : FrameHeader) (payload : Bytes)
    → has_flag fh 0x8 ≡ false
    → has_flag fh 0x20 ≡ false
    → block_of fh payload ≡ some payload
unfolding block_of strip_padding
block_of-plain fh payload padded priority = rw (padded, priority) (ap some (take-length payload))

if-last :
    {D : Type 0} (b : Bool) (i : ℕ) (c d : ConnectionH2 D)
    → (if b then record c { last_header_stream_id = i } else record d { last_header_stream_id = i })
      ≡ record (if b then c else d) { last_header_stream_id = i }
if-last true i c d = refl
if-last false i c d = refl

module _ {D : Type 0} (decode : D → Bytes → Option (List HeaderField) × D) where
  -- The id that a CONTINUATION is checked against does not matter to the end of a block.
  finish_header_block-last :
      (s : H2Stream) (i : ℕ) (c : ConnectionH2 D)
      → finish_header_block decode s (record c { last_header_stream_id = i })
        ≡ record (finish_header_block decode s c) { last_header_stream_id = i }
  unfolding finish_header_block dispatch_stream
  finish_header_block-last s i c =
      let r = decode c.hpack_decoder s.header_block in
      let done : H2Stream = record (headers_read r.0 s) { end_headers = true } in
      if-last (done.end_stream || done.malformed) i _ _

  -- A HEADERS frame without padding and priority.
  opening :
      (fh : FrameHeader) (payload : Bytes) (c : ConnectionH2 D)
      → c.expecting_continuation ≡ false
      → 0 < fh.stream_id
      → has_flag fh 0x8 ≡ false
      → has_flag fh 0x20 ≡ false
      → handle_headers decode fh payload c ≡ (true, open_stream decode fh payload c)
  unfolding handle_headers
  opening fh payload c calm positive padded priority =
      let taken : ((fh.stream_id == 0) || c.expecting_continuation) ≡ false =
        rw calm (ground arith) in
      rw (handle_headers, taken)
        (ap (λ (o : Option Bytes). opened decode fh o c)
          (block_of-plain fh payload padded priority))

  -- The stream that a HEADERS frame opens, and the connection with it.
  abbrev opened_stream : ℕ → Bool → Bytes → ConnectionH2 D → H2Stream
  opened_stream i ended block c = record new_stream {
    id = i;
    send_window = pos c.peer_initial_window_size;
    header_block = block;
    end_stream = ended;
  }

  abbrev with_stream : ℕ → H2Stream → ConnectionH2 D → ConnectionH2 D
  with_stream i s c = record c {
    streams = put_stream i s c.streams;
    highest_stream_id = max c.highest_stream_id i;
  }

  opened_whole :
      (fh : FrameHeader) (block : Bytes) (c : ConnectionH2 D)
      → has_flag fh 0x4 ≡ true
      → open_stream decode fh block c
        ≡ finish_header_block decode
            (opened_stream fh.stream_id (has_flag fh 0x1) block c)
            (with_stream fh.stream_id (opened_stream fh.stream_id (has_flag fh 0x1) block c) c)
  opened_whole fh block c all_here = rw all_here refl

  opened_part :
      (fh : FrameHeader) (block : Bytes) (c : ConnectionH2 D)
      → has_flag fh 0x4 ≡ false
      → open_stream decode fh block c
        ≡ record (with_stream fh.stream_id
            (opened_stream fh.stream_id (has_flag fh 0x1) block c)
            c) { expecting_continuation = true; last_header_stream_id = fh.stream_id }
  opened_part fh block c more = rw more refl

  -- The end of a block whose stream stands in the map.
  continuing :
      (fh : FrameHeader) (payload : Bytes) (s : H2Stream) (c : ConnectionH2 D)
      → c.expecting_continuation ≡ true
      → c.last_header_stream_id ≡ fh.stream_id
      → find_stream fh.stream_id c.streams ≡ some s
      → has_flag fh 0x4 ≡ true
      → handle_continuation decode fh payload c ≡ (
        true,
        finish_header_block decode
            (record s { header_block = s.header_block ++ payload })
            (record c {
              streams =
                  put_stream fh.stream_id
                    (record s { header_block = s.header_block ++ payload })
                    c.streams;
              expecting_continuation = false;
            }),
      )
  unfolding handle_continuation
  continuing fh payload s c expects same found all_here =
      let taken : ((not c.expecting_continuation) || not (fh.stream_id == c.last_header_stream_id))
          ≡ false =
        rw (expects, same) (ground arith) in
      rw (handle_continuation, taken, found, all_here) refl

  -- A header block that comes whole in a HEADERS frame, and one that is cut at any place into a
  -- HEADERS and a CONTINUATION frame, leave the connection in the same state, up to the id that
  -- a CONTINUATION is checked against; both are accepted. The stream's id is not 0, no CONTINUATION is
  -- expected, the HEADERS frames have no padding and no priority and end the stream alike, and
  -- END_HEADERS stands on the last frame only.
  pub handle_continuation-split :
      (i f g k : ℕ) (a b : Bytes) (c : ConnectionH2 D)
      → c.expecting_continuation ≡ false
      → 0 < i
      → has_flag (frame 0x1 f i (a ++ b)).0 0x4 ≡ true
      → has_flag (frame 0x1 f i (a ++ b)).0 0x8 ≡ false
      → has_flag (frame 0x1 f i (a ++ b)).0 0x20 ≡ false
      → has_flag (frame 0x1 g i a).0 0x4 ≡ false
      → has_flag (frame 0x1 g i a).0 0x8 ≡ false
      → has_flag (frame 0x1 g i a).0 0x20 ≡ false
      → has_flag (frame 0x1 g i a).0 0x1 ≡ has_flag (frame 0x1 f i (a ++ b)).0 0x1
      → has_flag (frame 0x9 k i b).0 0x4 ≡ true
      → (d : ConnectionH2 D) × (handle_headers decode (frame 0x1 f i (a ++ b)).0 (a ++ b) c
          ≡ (true, d))
        × ((handle_headers decode (frame 0x1 g i a).0 a c).0 ≡ true)
        × (handle_continuation decode
              (frame 0x9 k i b).0
              b
              (handle_headers decode (frame 0x1 g i a).0 a c).1
            ≡ (true, record d { last_header_stream_id = i }))
  handle_continuation-split i f g k a b c calm positive f4 f8 f20 g4 g8 g20 alike k4 =
      let whole : FrameHeader = (frame 0x1 f i (a ++ b)).0 in
      let first : FrameHeader = (frame 0x1 g i a).0 in
      let last : FrameHeader = (frame 0x9 k i b).0 in
      let s : H2Stream = opened_stream i (has_flag whole 0x1) (a ++ b) c in
      let part : H2Stream = opened_stream i (has_flag first 0x1) a c in
      let longer : H2Stream = opened_stream i (has_flag first 0x1) (a ++ b) c in
      let kept : ConnectionH2 D = with_stream i part c in
      let waiting : ConnectionH2 D = record kept {
        expecting_continuation = true;
        last_header_stream_id = i;
      } in
      let begun : handle_headers decode first a c ≡ (true, waiting) =
        opening first a c calm positive g8 g20
        ∙ ap (λ (x : ConnectionH2 D). (true, x)) (opened_part first a c g4) in
      (
        finish_header_block decode s (with_stream i s c),
        opening whole (a ++ b) c calm positive f8 f20
            ∙ ap (λ (x : ConnectionH2 D). (true, x)) (opened_whole whole (a ++ b) c f4),
        ap (λ (r : Bool × ConnectionH2 D). r.0) begun,
        ap (λ (r : Bool × ConnectionH2 D). handle_continuation decode last b r.1) begun
            ∙ continuing last b part waiting refl refl (find_stream-put_stream i part c.streams) k4
            ∙ ap₂
                (λ (streams : List (ℕ × H2Stream)) (expects : Bool). (
                  true,
                  finish_header_block decode longer
                      (record waiting { streams = streams; expecting_continuation = expects }),
                ))
                (put_stream-put_stream i part longer c.streams) (sym calm)
            ∙ ap
                (λ (ended : Bool).
                  let u : H2Stream = opened_stream i ended (a ++ b) c in
                  (
                    true,
                    finish_header_block decode u
                        (record (with_stream i u c) { last_header_stream_id = i }),
                  ))
                alike
            ∙ ap (λ (x : ConnectionH2 D). (true, x))
                (finish_header_block-last s i (with_stream i s c)),
      )
