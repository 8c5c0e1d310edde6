-- ===== src/Http2/Hpack/Decoder/Steps.antt =====
-- Single steps of the decoder on input of a known form.
use libnhttp.Base.{
  ℕ, suc, ◌≡◌, refl, ap, List, [], ◌∷◌, ◌++◌, arith, bit_and, Bytes, ltb, true, false, some, ◌>>=◌,
  length, length-append, take-length_append, drop-length_append,
}
use libnhttp.Http2.Hpack.Tables.{HeaderField}
use libnhttp.Http2.Hpack.Reader.{BitReader, last_of}
use libnhttp.Http2.Hpack.Huffman
use libnhttp.Http2.Hpack.Integer.{read_integer}
use libnhttp.Http2.Hpack.Integer.RoundTrip.{read_integer_zero}
use libnhttp.Http2.Hpack.Decoder.{
  decode, Decoder, State, read_string, read_name, decode_one, decode_loop,
}

-- A Huffman-coded string of the length that stands before it.
pub read_string_huffman :
    (first : ℕ) (after body rest s : Bytes) (b : ℕ)
    → read_integer (record { before = first; ahead = after }) 7
      ≡ some (length body, record { before = b; ahead = body ++ rest })
    → bit_and first 0x80 ≡ 0x80
    → Huffman.decode body ≡ some s
    → read_string (first ∷ after) ≡ some (s, record { before = last_of b body; ahead = rest })
unfolding read_string
read_string_huffman first after body rest s b e top coded =
    let fits : ltb (length (body ++ rest)) (length body) ≡ false =
      ground (arith, length-append body rest) in
    rw (e, fits, take-length_append body rest, top, drop-length_append body rest)
      (ap (λ o. o >>= λ t. some (t, record { before = last_of b body; ahead = rest })) coded)

-- A literal with a new name that is not added to the table.
pub decode_one_literal :
    (d : Decoder) (ahead middle : Bytes) (out : List HeaderField) (name value : Bytes) (b : ℕ)
    (r : BitReader)
    → read_string ahead ≡ some (name, record { before = b; ahead = middle })
    → read_string middle ≡ some (value, r)
    → decode_one 0 d (record { before = 0; ahead = ahead }) out
      ≡ some (record {
        decoder = d;
        reader = r;
        out = out ++ (record { name = name; value = value } ∷ []);
      })
unfolding decode_one read_name
decode_one_literal d ahead middle out name value b r named valued =
    rw (read_integer_zero ahead, named, valued)

pub decode_loop_step :
    (fuel first : ℕ) (d : Decoder) (rest : Bytes) (out : List HeaderField) (s : State)
    → decode_one first d (record { before = first; ahead = rest }) out ≡ some s
    → decode_loop (suc fuel) d (first ∷ rest) out ≡ decode_loop fuel s.decoder s.reader.ahead s.out
unfolding decode_loop
decode_loop_step fuel first d rest out s e = rw (e, decode_loop)

pub decode_loop_end :
    (fuel : ℕ) (d : Decoder) (out : List HeaderField)
    → decode_loop fuel d [] out ≡ some (record { accepted = true; decoder = d; out = out })
unfolding decode_loop
decode_loop_end fuel d out = refl

pub decode_lem :
    (d : Decoder) (bytes : Bytes) (out : List HeaderField)
    → decode d bytes out ≡ decode_loop (length bytes) d bytes out
unfolding decode
decode_lem d bytes out = refl
