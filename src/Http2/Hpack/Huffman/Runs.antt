-- ===== src/Http2/Hpack/Huffman/Runs.antt =====
-- A concrete run of the Huffman code, and its theorem at a concrete input.
use libnhttp.Base.{◌≡◌, refl, [], ◌∷◌, arith, some}
use libnhttp.Http2.Hpack.Huffman.{encode, decode, pack_all, pack, emit, shift_in, keep_pending, pad}
use libnhttp.Http2.Hpack.Huffman.Table.{huffman_table}
use libnhttp.Http2.Hpack.Huffman.RoundTrip.{decode-encode}

-- "a", a code of five bits, is filled up with three ones.
encode_run : encode (97 ∷ []) ≡ 31 ∷ []
unfolding encode pack_all pack emit shift_in keep_pending pad huffman_table
encode_run = refl

decode-encode_example : decode (encode (97 ∷ 0 ∷ 255 ∷ [])) ≡ some (97 ∷ 0 ∷ 255 ∷ [])
decode-encode_example = decode-encode (97 ∷ 0 ∷ 255 ∷ []) (omega arith)
