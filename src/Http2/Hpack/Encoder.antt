-- ===== src/Http2/Hpack/Encoder.antt =====
-- `hpack_encoder` of hpack.cpp. `max_dynamic_table_size_` is never read there, and is left out.
pub mod RoundTrip
mod Runs
use libnhttp.Base.{List, [], ◌∷◌, ◌++◌, Bytes, length}
use libnhttp.Http2.Hpack.Tables.{HeaderField}
use libnhttp.Http2.Hpack.Integer.{write_integer}
use libnhttp.Http2.Hpack.Huffman

pub write_string : Bytes → Bytes → Bytes
write_string out value =
    let encoded = Huffman.encode value in write_integer out (length encoded) 7 0x80 ++ encoded

pub encode : List HeaderField → Bytes → Bytes
unfolding write_string
encode [] out = out
encode (h ∷ headers) out =
    encode headers (write_string (write_string (out ++ (0x00 ∷ [])) h.name) h.value)
