-- ===== src/Http2/Hpack/Encoder/RoundTrip.antt =====
-- The decoder reads back every header list that the encoder writes.
use libnhttp.Base.{
  ℕ, zero, suc, ◌+◌, ◌*◌, ◌^◌, ◌≤◌, ◌<◌, ◌≡◌, sym, ◌∙◌, List, [], ◌∷◌, ◌++◌, arith, append_assoc,
  append-nil, bit_and, Bytes, IsByte, All, true, some, length, length-append,
}
use libnhttp.Base.Bits.{top_bit}
use libnhttp.Http2.Hpack.Tables.{HeaderField}
use libnhttp.Http2.Hpack.Reader.{last_of}
use libnhttp.Http2.Hpack.Huffman
use libnhttp.Http2.Hpack.Huffman.Encoding.{length-encode}
use libnhttp.Http2.Hpack.Huffman.RoundTrip.{decode-encode}
use libnhttp.Http2.Hpack.Integer.RoundTrip.{
  IsPrefix, first_byte, groups, write_integer_lem, read-write_integer,
}
use libnhttp.Http2.Hpack.Decoder.{Decoder, read_string, decode_loop, decode}
use libnhttp.Http2.Hpack.Decoder.Steps.{
  read_string_huffman, decode_one_literal, decode_loop_step, decode_loop_end, decode_lem,
}
use libnhttp.Http2.Hpack.Encoder.{write_string, encode}

-- A field of bytes whose encoded lengths fit 64 bits.
pub record IsField (h : HeaderField) : Type 0 where
  pub name_bytes : All IsByte h.name
  pub value_bytes : All IsByte h.value
  pub name_fits : 4 * length h.name < 2 ^ 64
  pub value_fits : 4 * length h.value < 2 ^ 64

string_first : Bytes → ℕ
string_first s = first_byte (length (Huffman.encode s)) 7 1

string_bytes : Bytes → Bytes
string_bytes s = string_first s ∷ (groups (length (Huffman.encode s)) 7 ++ Huffman.encode s)

seven_bits : IsPrefix 7 1
seven_bits = record { low = omega arith; high = omega arith; fits = omega arith }

encode_fits :
    (s : Bytes) → All IsByte s → 4 * length s < 2 ^ 64 → length (Huffman.encode s) < 2 ^ 64
encode_fits s b h = omega (arith, length-encode s b)

write_string_lem :
    (out s : Bytes)
    → All IsByte s
    → 4 * length s < 2 ^ 64
    → write_string out s ≡ out ++ string_bytes s
unfolding write_string string_bytes string_first
write_string_lem out s b h =
    rw (write_integer_lem out (length (Huffman.encode s)) 7 1 seven_bits (encode_fits s b h))
      (append_assoc out _ (Huffman.encode s))

first_byte_top : (n : ℕ) → bit_and (first_byte n 7 1) 0x80 ≡ 0x80
unfolding first_byte
first_byte_top n = ground (arith, top_bit (128 + n), top_bit 255)

read-write_string :
    (s rest : Bytes)
    → All IsByte s
    → 4 * length s < 2 ^ 64
    → (b : ℕ) × (read_string (string_bytes s ++ rest)
        ≡ some (s, record { before = b; ahead = rest }))
unfolding string_bytes string_first
read-write_string s rest bytes fits =
    let body : Bytes = Huffman.encode s in
    let n : ℕ = length body in
    let (b, back) = read-write_integer n 7 1 (body ++ rest) seven_bits (encode_fits s bytes fits) in
    (
      last_of b body,
      rw (append_assoc (groups n 7) body rest) (
          read_string_huffman (first_byte n 7 1) _ body rest s b back (first_byte_top n)
            (decode-encode s bytes)),
    )

-- The bytes of a header list.
list_bytes : List HeaderField → Bytes
list_bytes [] = []
list_bytes (h ∷ hs) = 0 ∷ (string_bytes h.name ++ (string_bytes h.value ++ list_bytes hs))

encode-list_bytes :
    (hs : List HeaderField) (out : Bytes) → All IsField hs → encode hs out ≡ out ++ list_bytes hs
unfolding encode list_bytes
encode-list_bytes [] out v = sym (append-nil out)
encode-list_bytes (h ∷ hs) out (f, fs) =
    encode-list_bytes hs _ fs
    ∙ rw
        (
          write_string_lem _ h.value f.value_bytes f.value_fits,
          write_string_lem _ h.name f.name_bytes f.name_fits,
        )
        (simp append_assoc)

decode_loop-list_bytes :
    (hs out : List HeaderField) (fuel : ℕ) (d : Decoder)
    → All IsField hs
    → length (list_bytes hs) ≤ fuel
    → decode_loop fuel d (list_bytes hs) out
      ≡ some (record { accepted = true; decoder = d; out = out ++ hs })
unfolding list_bytes
decode_loop-list_bytes [] out fuel d v h = decode_loop_end fuel d out ∙ rw (append-nil out)
decode_loop-list_bytes (h ∷ hs) out zero d v l = absurd (omega arith)
decode_loop-list_bytes (h ∷ hs) out (suc fuel) d (f, fs) l =
    let rest : Bytes = list_bytes hs in
    let middle : Bytes = string_bytes h.value ++ rest in
    let (b, named) = read-write_string h.name middle f.name_bytes f.name_fits in
    let (c, valued) = read-write_string h.value rest f.value_bytes f.value_fits in
    decode_loop_step fuel 0 d _ out _
      (decode_one_literal d _ middle out h.name h.value b _ named valued)
    ∙ decode_loop-list_bytes hs (out ++ (h ∷ [])) fuel d fs (
        omega (
          arith,
          length-append (string_bytes h.name) middle,
          length-append (string_bytes h.value) rest,
        ))
    ∙ rw (append_assoc out (h ∷ []) hs)

-- Where every name and value is made of bytes and is shorter than 2 ^ 62, a decoder in any
-- state accepts what the encoder writes, appends the same fields in the same order, and stays
-- as it was, its dynamic table included.
pub decode-encode_list :
    (d : Decoder) (hs out : List HeaderField)
    → All IsField hs
    → decode d (encode hs []) out ≡ some (record { accepted = true; decoder = d; out = out ++ hs })
decode-encode_list d hs out v =
    rw (encode-list_bytes hs [] v, decode_lem) (decode_loop-list_bytes hs out _ d v (omega arith))
