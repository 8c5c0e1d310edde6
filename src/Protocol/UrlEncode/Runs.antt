-- ===== src/Protocol/UrlEncode/Runs.antt =====
-- Concrete runs of the URL code, and its theorems at concrete inputs.
use libnhttp.Base.{◌≡◌, refl, [], ◌∷◌, arith, Bytes, codes}
use libnhttp.Protocol.UrlEncode.{
  hex_value, is_unreserved, to_hex_digit, joined, escaped, plain, url_decode, encode_char,
  url_encode,
}
use libnhttp.Protocol.UrlEncode.RoundTrip.{url_decode-url_encode}

-- "a /" and a byte of 255.
abbrev sample : Bytes
sample = 97 ∷ 32 ∷ 47 ∷ 255 ∷ []

encode_run : url_encode sample ≡ codes "a+%2F%FF"
unfolding url_encode encode_char is_unreserved to_hex_digit
encode_run = refl

-- Escapes that are cut off or have no digits stay as they are.
decode_run : url_decode (codes "%zz+%2f%4") ≡ codes "%zz /%4"
unfolding url_decode escaped joined plain hex_value
decode_run = refl

url_decode-url_encode_example : url_decode (url_encode sample) ≡ sample
url_decode-url_encode_example = url_decode-url_encode sample (omega arith)
