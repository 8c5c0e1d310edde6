-- ===== src/Protocol/Chunked/Runs.antt =====
-- Concrete runs of the chunk headers, and their theorem at a concrete input.
use libnhttp.Base.{◌≡◌, refl, some, none, codes}
use libnhttp.Protocol.Chunked.{
  reverse, hex_loop, format_chunk_header, digit_value, read_digits, chunk_size,
}

format_run : format_chunk_header 6699 ≡ codes "1a2b\r\n"
unfolding format_chunk_header hex_loop reverse
format_run = refl

-- A chunk extension is passed over; a line without a digit ends the stream.
size_run : (chunk_size (codes "1A2b;x=1") ≡ some 6699) × (chunk_size (codes ";x") ≡ none)
unfolding chunk_size read_digits digit_value
size_run = (refl, refl)
