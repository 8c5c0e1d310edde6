-- ===== src/Protocol/Chunked.antt =====
-- The chunk headers of src/protocol/http_chunked.cpp: `format_chunk_header`, and the digits that
-- `chunked_decoder_stream::begin_next_chunk` reads from a line.
pub mod RoundTrip
pub mod Decoder
mod Runs
use libnhttp.Base.{
  ℕ, zero, suc, ◌+◌, ◌-◌, ◌*◌, [], ◌∷◌, ◌++◌, u64, bit_and, Bytes, leb, ltb, ◌==◌, Bool, true,
  false, ◌&&◌, Option, some, none, get_or, if◌then◌else◌, ◌>>>◌, codes,
}

abbrev pub hex_digit : ℕ → ℕ
hex_digit d = get_or (codes "0123456789abcdef") d 0

-- `std::reverse`
unfoldable pub reverse : Bytes → Bytes
reverse [] = []
reverse (x ∷ xs) = reverse xs ++ (x ∷ [])

-- `while (v > 0)`, with fuel: every round takes four bits off a `size_t`, so that 16 are enough.
unfoldable pub hex_loop : ℕ → ℕ → Bytes → Bytes
hex_loop zero v hex = hex
hex_loop (suc fuel) v hex =
    let rest = hex_loop fuel (v >>> 4) (hex ++ (hex_digit (bit_and v 0xf) ∷ [])) in
    if ltb 0 v then rest else hex

unfoldable pub format_chunk_header : ℕ → Bytes
unfolding hex_loop reverse
format_chunk_header n =
    if n == 0 then 48 ∷ 13 ∷ 10 ∷ [] else reverse (hex_loop 16 n []) ++ (13 ∷ 10 ∷ [])

-- `none` where the loop breaks.
pub digit_value : ℕ → Option ℕ
digit_value c =
    if leb 48 c && leb c 57
    then some (c - 48)
    else if leb 97 c && leb c 102
    then some (c - 97 + 10)
    else if leb 65 c && leb c 70
    then some (c - 65 + 10)
    else none

-- The loop over the line, with `size` and `any_digit`.
pub read_digits : Bytes → ℕ → Bool → ℕ × Bool
read_digits [] size any_digit = (size, any_digit)
read_digits (c ∷ cs) size any_digit = elim (digit_value c) [
  | none ↦ (size, any_digit)
  | some v ↦ read_digits cs (u64 (u64 (size * 16) + v)) true
]

-- The size that a line announces; `none` is the malformed line that ends the stream.
pub chunk_size : Bytes → Option ℕ
unfolding read_digits
chunk_size line = let read = read_digits line 0 false in if read.1 then some read.0 else none
