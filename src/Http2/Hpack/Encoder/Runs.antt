-- ===== src/Http2/Hpack/Encoder/Runs.antt =====
-- A concrete run of the encoder, and its round trip at a concrete list.
use libnhttp.Base.{◌≡◌, List, [], ◌∷◌, arith, All, true, some}
use libnhttp.Http2.Hpack.Tables.{HeaderField}
use libnhttp.Http2.Hpack.Decoder.{new_decoder, decode}
use libnhttp.Http2.Hpack.Encoder.{encode}
use libnhttp.Http2.Hpack.Encoder.RoundTrip.{IsField, decode-encode_list}

abbrev fields : List HeaderField
fields =
    record { name = 97 ∷ []; value = 99 ∷ 0 ∷ [] } ∷ record { name = 105 ∷ []; value = [] } ∷ []

fields-IsField : All IsField fields
fields-IsField = (
  record {
    name_bytes = omega arith;
    value_bytes = omega arith;
    name_fits = omega arith;
    value_fits = omega arith;
  },
  (
    record {
      name_bytes = omega arith;
      value_bytes = omega arith;
      name_fits = omega arith;
      value_fits = omega arith;
    },
    tt,
  ),
)

decode-encode_list_example :
    decode new_decoder (encode fields []) []
    ≡ some (record { accepted = true; decoder = new_decoder; out = fields })
decode-encode_list_example = decode-encode_list new_decoder fields [] fields-IsField
