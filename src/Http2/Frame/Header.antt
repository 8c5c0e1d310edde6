-- ===== src/Http2/Frame/Header.antt =====
-- `frame_header::write` and `frame_header::parse` undo one another.
use libnhttp.Base.{
  ℕ, ◌+◌, ◌*◌, ◌/◌, ◌%◌, ◌^◌, ◌≡◌, ap, [], ◌∷◌, ◌++◌, some, arith, Bytes, IsByte, length,
  length-append, append_assoc, All,
}
use libnhttp.Base.Bits.{bit_and_mask}
use libnhttp.Http2.Frame.{FrameHeader, write, parse}
use libnhttp.Http2.Frame.Integers.{write_u24_lem, write_u32_lem, read_u24_lem, read_u32_lem}

-- The nine bytes of a header.
abbrev header_bytes : FrameHeader → Bytes
header_bytes h =
    h.payload_length / 65536 % 256
    ∷ h.payload_length / 256 % 256
    ∷ h.payload_length % 256
    ∷ h.type % 256
    ∷ h.flags
    ∷ h.stream_id / 16777216 % 128
    ∷ h.stream_id / 65536 % 256
    ∷ h.stream_id / 256 % 256
    ∷ h.stream_id % 256
    ∷ []

write_lem : (h : FrameHeader) (out : Bytes) → write h out ≡ out ++ header_bytes h
unfolding write
write_lem h out =
    let n : ℕ = h.payload_length in
    let s : ℕ = h.stream_id in
    rw
      (
        write_u32_lem,
        write_u24_lem,
        bit_and_mask 24 n,
        bit_and_mask 31 s,
        append_assoc,
        append_assoc,
      )
      (ap (◌++◌ out) (ground arith))

-- Nine bytes are appended, and what was in `out` stays.
length-write : (h : FrameHeader) (out : Bytes) → length (write h out) ≡ length out + 9
length-write h out = omega (arith, ap length (write_lem h out), length-append out (header_bytes h))

-- A header whose type is a byte is read back once it is written, whatever follows it, its
-- length cut to 24 bits and its stream id to 31.
pub parse-write :
    (h : FrameHeader) (rest : Bytes)
    → IsByte h.type
    → parse (write h [] ++ rest)
      ≡ some (record h {
        payload_length = h.payload_length % 2 ^ 24;
        stream_id = h.stream_id % 2 ^ 31;
      })
unfolding parse
parse-write h rest t =
    let n : ℕ = h.payload_length in
    let s : ℕ = h.stream_id in
    let word : Bytes = s / 16777216 % 128 ∷ s / 65536 % 256 ∷ s / 256 % 256 ∷ s % 256 ∷ rest in
    rw (write_lem h []) (
      ground (
        arith,
        read_u24_lem (n / 65536 % 256) (n / 256 % 256) (n % 256) (h.type % 256 ∷ h.flags ∷ word),
        read_u32_lem (s / 16777216 % 128) (s / 65536 % 256) (s / 256 % 256) (s % 256) rest,
        bit_and_mask 31 (s % 2 ^ 31),
      ))

-- Any nine bytes parse, whatever follows them, and writing the result gives them back with the
-- reserved bit cleared.
pub write-parse :
    (a b c t f s0 s1 s2 s3 : ℕ) (rest : Bytes)
    → All IsByte (a ∷ b ∷ c ∷ t ∷ f ∷ s0 ∷ s1 ∷ s2 ∷ s3 ∷ [])
    → (h : FrameHeader) × (parse (a ∷ b ∷ c ∷ t ∷ f ∷ s0 ∷ s1 ∷ s2 ∷ s3 ∷ rest) ≡ some h)
      × (write h [] ≡ a ∷ b ∷ c ∷ t ∷ f ∷ s0 % 128 ∷ s1 ∷ s2 ∷ s3 ∷ [])
unfolding parse
write-parse a b c t f s0 s1 s2 s3 rest h =
    let n : ℕ = a * 65536 + b * 256 + c in
    let s : ℕ = s0 * 16777216 + s1 * 65536 + s2 * 256 + s3 in
    let header : FrameHeader = record {
      payload_length = n;
      type = t;
      flags = f;
      stream_id = s % 2 ^ 31;
    } in
    (
      header,
      ground (
        arith,
        read_u24_lem a b c (t ∷ f ∷ s0 ∷ s1 ∷ s2 ∷ s3 ∷ rest),
        read_u32_lem s0 s1 s2 s3 rest,
        bit_and_mask 31 s,
      ),
      rw (write_lem header []) (ground arith),
    )
