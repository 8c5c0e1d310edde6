-- ===== src/Http2/Hpack/Huffman/RoundTrip.antt =====
-- `decode` undoes `encode`.
use libnhttp.Base.{ℕ, ◌≡◌, ◌∙◌, ◌>>=◌, ap, [], List, some, Bytes, IsByte, All}
use libnhttp.Http2.Hpack.Huffman.{encode, decode, at_root, accept}
use libnhttp.Http2.Hpack.Huffman.Encoding.{ones, text_bits, encode-bits}
use libnhttp.Http2.Hpack.Huffman.Walk.{
  run_bits, run_bits-append, take_bytes-run_bits, run_bits-text, accept-ones,
}

-- Every string of bytes is decoded back from its Huffman encoding.
pub decode-encode : (cs : Bytes) → All IsByte cs → decode (encode cs) ≡ some cs
unfolding decode
decode-encode cs h =
    let (n, short, bits) = encode-bits cs h in
    ap (λ w. w >>= accept) {y = run_bits (ones n) (at_root cs)}
      (take_bytes-run_bits (encode cs) (at_root [])
        ∙ ap (λ (b : List ℕ). run_bits b (at_root [])) bits
        ∙ run_bits-append (text_bits cs) (ones n) (at_root [])
        ∙ rw (run_bits-text cs [] h))
    ∙ accept-ones n cs short
