-- ===== src/Protocol/Chunked/Decoder.antt =====
-- `chunked_decoder_stream` of src/protocol/http_chunked.cpp. The source is the list of the results of
-- its reads; an empty one, or none, is its end. `seek`, `write`, `flush` and `close` do nothing there.
pub mod Feed
pub mod Lines
pub mod Steps
pub mod Copy
pub mod RoundTrip
mod Runs
use libnhttp.Base.{
  ℕ, zero, suc, ◌+◌, ◌-◌, List, [], ◌∷◌, ◌++◌, Bytes, leb, ltb, ◌==◌, Bool, true, false, not, ◌&&◌,
  Option, some, none, length, take, drop, if◌then◌else◌, min,
}
use libnhttp.Protocol.HttpHeader.{cut, strip_cr}
use libnhttp.Protocol.Chunked.{chunk_size}

pub record Decoder : Type 0 where
  pub incoming : List Bytes
  pub buffer : Bytes
  pub eof_source : Bool
  pub finished : Bool
  pub remaining_in_chunk : ℕ
  pub need_new_chunk : Bool

-- The constructor.
abbrev pub chunked_decoder : List Bytes → Decoder
chunked_decoder source = record {
  incoming = source;
  buffer = [];
  eof_source = false;
  finished = false;
  remaining_in_chunk = 0;
  need_new_chunk = true;
}

pub take_read : List Bytes → Decoder → Bool × Decoder
take_read [] d = (false, record d { eof_source = true })
take_read ([] ∷ more) d = (false, record d { eof_source = true; incoming = more })
take_read ((b ∷ bs) ∷ more) d = (true, record d { buffer = d.buffer ++ b ∷ bs; incoming = more })

pub fill_more : Decoder → Bool × Decoder
unfolding take_read
fill_more d = if d.eof_source then (false, d) else take_read d.incoming d

-- `while (buffer_.size() < k && !eof_source_)`, with fuel: every round takes a read off or ends the
-- source.
pub fill_loop : ℕ → ℕ → Decoder → Decoder
unfolding fill_more
fill_loop zero k d = d
fill_loop (suc fuel) k d =
    let filled = fill_loop fuel k (fill_more d).1 in
    if ltb (length d.buffer) k && not d.eof_source then filled else d

pub fill_until : ℕ → Decoder → Decoder
unfolding fill_loop
fill_until k d = fill_loop (length d.incoming + 1) k d

-- A round of `read_line`, with what the buffer's first line is; the next round is `again`.
pub line_round :
    (Decoder → Option Bytes × Decoder) → Decoder → Option (Bytes × Bytes) → Option Bytes × Decoder
unfolding fill_more
line_round again d (some (line, rest)) = (some (strip_cr line), record d { buffer = rest })
line_round again d none = if d.eof_source then (none, d) else again (fill_more d).1

pub line_loop : ℕ → Decoder → Option Bytes × Decoder
unfolding line_round
line_loop zero d = (none, d)
line_loop (suc fuel) d = line_round (line_loop fuel) d (cut 10 d.buffer)

pub read_line : Decoder → Option Bytes × Decoder
unfolding line_loop
read_line d = line_loop (length d.incoming + 2) d

-- What the source can still give, and what the decoder can.
abbrev pub readable : List Bytes → Bytes
readable [] = []
readable ([] ∷ more) = []
readable ((b ∷ bs) ∷ more) = (b ∷ bs) ++ readable more

abbrev pub available : Decoder → Bytes
available d = d.buffer ++ (if d.eof_source then [] else readable d.incoming)

-- The trailers, with a round for each byte, since a line takes one at least.
pub trailer_round : (Decoder → Decoder) → Option Bytes × Decoder → Decoder
trailer_round again (none, d) = d
trailer_round again (some [], d) = d
trailer_round again (some (c ∷ cs), d) = again d

pub trailer_loop : ℕ → Decoder → Decoder
unfolding trailer_round read_line
trailer_loop zero d = d
trailer_loop (suc fuel) d = trailer_round (trailer_loop fuel) (read_line d)

-- What the size of a chunk leads to.
pub on_size : Option ℕ → Decoder → Bool × Decoder
unfolding trailer_loop
on_size none d = (false, record d { finished = true })
on_size (some zero) d =
    (false, record (trailer_loop (length (available d) + 1) d) { finished = true })
on_size (some (suc n)) d = (true, record d { remaining_in_chunk = suc n; need_new_chunk = false })

pub on_line : Option Bytes × Decoder → Bool × Decoder
unfolding on_size
on_line (none, d) = (false, record d { finished = true })
on_line (some line, d) = on_size (chunk_size line) d

pub begin_next_chunk : Decoder → Bool × Decoder
unfolding on_line read_line
begin_next_chunk d = on_line (read_line d)

-- Behind the bytes of a chunk: its end, or what comes until the source ends.
pub end_chunk : Decoder → Decoder
unfolding fill_until
end_chunk d =
    let filled = fill_until 2 d in
    let rest = if leb 2 (length filled.buffer) then drop 2 filled.buffer else filled.buffer in
    if d.remaining_in_chunk == 0 then record filled { buffer = rest; need_new_chunk = true } else d

-- The copy, with the bytes of the buffer that may be taken.
pub copy_bytes : (Decoder → Option (Bytes × Decoder)) → ℕ → Decoder → Option (Bytes × Decoder)
unfolding end_chunk
copy_bytes again to_copy d =
    if to_copy == 0
    then again (record d { need_new_chunk = true })
    else some (
      take to_copy d.buffer,
      end_chunk (record d {
        buffer = drop to_copy d.buffer;
        remaining_in_chunk = d.remaining_in_chunk - to_copy;
      }),
    )

pub copy_filled : (Decoder → Option (Bytes × Decoder)) → ℕ → Decoder → Option (Bytes × Decoder)
unfolding copy_bytes
copy_filled again n d =
    if length d.buffer == 0
    then some ([], record d { finished = true })
    else copy_bytes again (min (min n d.remaining_in_chunk) (length d.buffer)) d

pub copy_begun :
    (Decoder → Option (Bytes × Decoder)) → ℕ → Bool × Decoder → Option (Bytes × Decoder)
unfolding copy_filled fill_until
copy_begun again n (false, d) = some ([], d)
copy_begun again n (true, d) = copy_filled again n (fill_until 1 d)

-- The loop of `read`, with fuel: every round but the first takes a line of the source. `none` is a loop
-- that ran out of it.
pub read_loop : ℕ → ℕ → Decoder → Option (Bytes × Decoder)
unfolding copy_begun begin_next_chunk
read_loop zero n d = none
read_loop (suc fuel) n d =
    let round =
      copy_begun (read_loop fuel n) n
        (if d.need_new_chunk then begin_next_chunk d else (true, d)) in
    if d.finished then some ([], d) else round

pub read : ℕ → Decoder → Option (Bytes × Decoder)
unfolding read_loop
read n d = read_loop (length (available d) + 2) n d
