-- ===== src/Protocol/Chunked/Decoder/Runs.antt =====
-- Concrete runs of the decoder, and its theorem at a concrete body.
use libnhttp.Base.{ℕ, ◌+◌, ◌≡◌, refl, [], ◌∷◌, Bytes, Option, some, none, length, codes}
use libnhttp.Protocol.HttpHeader.{cut, strip_cr}
use libnhttp.Io.ReadAll.{read_all_round, read_all}
use libnhttp.Protocol.Chunked.{
  digit_value, read_digits, chunk_size, hex_loop, reverse, format_chunk_header,
}
use libnhttp.Protocol.Chunked.Decoder.{
  Decoder, chunked_decoder, take_read, fill_more, fill_loop, fill_until, line_round, line_loop,
  read_line, readable, trailer_round, trailer_loop, on_size, on_line, begin_next_chunk, end_chunk,
  copy_bytes, copy_filled, copy_begun, read_loop, read,
}
use libnhttp.Protocol.Chunked.Decoder.RoundTrip.{encoded}

abbrev bytes_of : Option (Bytes × Decoder) → Bytes
bytes_of none = codes "none"
bytes_of (some (bytes, d)) = bytes

-- An extension and a trailer are skipped.
trailer_run :
    bytes_of (
      read_all read 20
        (chunked_decoder
          (codes "4;x=1\r\nab" ∷ codes "cd\r" ∷ codes "\n0\r\nT: 1\r\n\r\nnext" ∷ []))
        [])
    ≡ codes "abcd"
unfolding read_all_round read_all read read_loop copy_begun copy_filled copy_bytes end_chunk
    begin_next_chunk on_line on_size trailer_loop trailer_round read_line line_loop line_round
    fill_until fill_loop fill_more take_read cut strip_cr chunk_size read_digits digit_value
trailer_run = refl

-- A source that ends in a chunk.
short_run : bytes_of (read_all read 20 (chunked_decoder (codes "9\r\nab" ∷ [])) []) ≡ codes "ab"
unfolding read_all_round read_all read read_loop copy_begun copy_filled copy_bytes end_chunk
    begin_next_chunk on_line on_size trailer_loop trailer_round read_line line_loop line_round
    fill_until fill_loop fill_more take_read cut strip_cr chunk_size read_digits digit_value
short_run = refl

abbrev skipped : Option (Bytes × Decoder) → ℕ
skipped none = 0
skipped (some (bytes, d)) = length bytes + d.remaining_in_chunk

-- A read of no bytes takes the bytes of the chunk for a header, here that of a chunk of one byte, and
-- ends at what is no header.
none_asked_run : skipped (read 0 (chunked_decoder (codes "2\r\n1\n\r\n0\r\n\r\n" ∷ []))) ≡ 1
unfolding read read_loop copy_begun copy_filled copy_bytes end_chunk begin_next_chunk on_line
    on_size trailer_loop trailer_round read_line line_loop line_round fill_until fill_loop fill_more
    take_read cut strip_cr chunk_size read_digits digit_value
none_asked_run = refl

text_lem :
    readable (codes "3\r\nabc\r" ∷ codes "\n0\r\n\r" ∷ codes "\nnext" ∷ [])
    ≡ encoded (codes "abc" ∷ []) (codes "next")
unfolding format_chunk_header hex_loop reverse
text_lem = refl
