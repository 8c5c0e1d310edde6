-- ===== src/Server/H2/Headers.antt =====
-- The header blocks of src/server/connection_h2.cpp: `finish_header_block`, `handle_headers` and
-- `handle_continuation`.
use libnhttp.Base.{
  List, [], ◌∷◌, ◌++◌, Bytes, ltb, ◌==◌, Bool, true, false, not, ◌||◌, Option, some, none, ◌>>=◌,
  length, take, drop, if◌then◌else◌, max, codes,
}
use libnhttp.Base.Text.{bytes_eq}
use libnhttp.Base.Int.{pos}
use libnhttp.Http2.Frame.{FrameHeader, strip_padding}
use libnhttp.Http2.Hpack.Tables.{HeaderField}
use libnhttp.Protocol.HttpMethod.{http_method}
use libnhttp.Protocol.UrlEncode.{url_decode}
use libnhttp.Server.H2.{
  H2Stream, new_stream, ConnectionH2, find_stream, put_stream, has_flag, dispatch_stream,
}

-- `value.find('?')`.
unfoldable pub split_query : Bytes → Bytes × Bytes
split_query [] = ([], [])
split_query (c ∷ cs) = if c == 63 then ([], cs) else (c ∷ (split_query cs).0, (split_query cs).1)

abbrev pub is_pseudo : Bytes → Bool
is_pseudo [] = false
is_pseudo (c ∷ cs) = c == 58

-- The body of the loop of `finish_header_block`.
unfoldable pub add_field : HeaderField → H2Stream → H2Stream
add_field f s =
    if bytes_eq f.name (codes ":method")
    then record s { method = http_method f.value }
    else if bytes_eq f.name (codes ":authority")
    then record s { hostname = f.value }
    else if bytes_eq f.name (codes ":path")
    then record s {
      raw_path = (split_query f.value).0;
      query = (split_query f.value).1;
      path = url_decode (split_query f.value).0;
    }
    else if is_pseudo f.name
    then s
    else record s { headers = s.headers ++ f ∷ [] }

abbrev pub add_fields : List HeaderField → H2Stream → H2Stream
add_fields [] s = s
add_fields (f ∷ fields) s = add_fields fields (add_field f s)

-- A decoded block, or a failure.
abbrev pub headers_read : Option (List HeaderField) → H2Stream → H2Stream
headers_read none s = record s { malformed = true }
headers_read (some fields) s = record (add_fields fields s) { http_major = 2 }

-- The header block of a HEADERS frame, without padding and priority.
abbrev pub past_priority : Bool → Bytes → Option Bytes
past_priority has_priority content =
    if has_priority
    then (if ltb (length content) 5 then none else some (drop 5 content))
    else some content

unfoldable pub block_of : FrameHeader → Bytes → Option Bytes
block_of fh payload = do
  content ← strip_padding payload (has_flag fh 0x8)
  past_priority (has_flag fh 0x20) (take content.content_len (drop content.content_offset payload))

-- `decode` is `hpack_decoder::decode`: the fields or a failure, and the decoder's state behind it.
module _ {D : Type 0} (decode : D → Bytes → Option (List HeaderField) × D) where
  -- The stream is one object: what is changed in it is seen in the map.
  unfoldable pub finish_header_block : H2Stream → ConnectionH2 D → ConnectionH2 D
  finish_header_block s c =
      let read = decode c.hpack_decoder s.header_block in
      let done : H2Stream = record (headers_read read.0 s) { end_headers = true } in
      let kept : ConnectionH2 D = record c {
        hpack_decoder = read.1;
        streams = put_stream done.id done c.streams;
      } in
      if done.end_stream || done.malformed then dispatch_stream done kept else kept

  abbrev pub open_stream : FrameHeader → Bytes → ConnectionH2 D → ConnectionH2 D
  open_stream fh block c =
      let s : H2Stream = record new_stream {
        id = fh.stream_id;
        send_window = pos c.peer_initial_window_size;
        header_block = block;
        end_stream = has_flag fh 0x1;
      } in
      let kept : ConnectionH2 D = record c {
        streams = put_stream fh.stream_id s c.streams;
        highest_stream_id = max c.highest_stream_id fh.stream_id;
      } in
      if has_flag fh 0x4
      then finish_header_block s kept
      else record kept { expecting_continuation = true; last_header_stream_id = fh.stream_id }

  abbrev pub opened : FrameHeader → Option Bytes → ConnectionH2 D → Bool × ConnectionH2 D
  opened fh none c = (false, c)
  opened fh (some block) c = (true, open_stream fh block c)

  unfoldable pub handle_headers : FrameHeader → Bytes → ConnectionH2 D → Bool × ConnectionH2 D
  handle_headers fh payload c =
      if (fh.stream_id == 0) || c.expecting_continuation
      then (false, c)
      else opened fh (block_of fh payload) c

  abbrev pub continued :
      FrameHeader → Bytes → Option H2Stream → ConnectionH2 D → Bool × ConnectionH2 D
  continued fh payload none c = (false, c)
  continued fh payload (some s) c =
      let longer : H2Stream = record s { header_block = s.header_block ++ payload } in
      let kept : ConnectionH2 D = record c { streams = put_stream fh.stream_id longer c.streams } in
      if has_flag fh 0x4
      then (true, finish_header_block longer (record kept { expecting_continuation = false }))
      else (true, kept)

  unfoldable pub handle_continuation : FrameHeader → Bytes → ConnectionH2 D → Bool × ConnectionH2 D
  handle_continuation fh payload c =
      if (not c.expecting_continuation) || not (fh.stream_id == c.last_header_stream_id)
      then (false, c)
      else continued fh payload (find_stream fh.stream_id c.streams) c
