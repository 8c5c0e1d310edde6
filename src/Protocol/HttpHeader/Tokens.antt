-- ===== src/Protocol/HttpHeader/Tokens.antt =====
-- `header_value_contains_token` of src/protocol/http_header.cpp.
use libnhttp.Base.{[], ◌∷◌, map, Bytes, ◌==◌, Bool, true, false, ◌&&◌, ◌||◌}
use libnhttp.Protocol.HttpHeader.{lower}

abbrev pub lowered : Bytes → Bytes
lowered s = map lower s

unfoldable pub starts_with : Bytes → Bytes → Bool
starts_with s [] = true
starts_with [] (t ∷ ts) = false
starts_with (c ∷ s) (t ∷ ts) = c == t && starts_with s ts

-- `std::string::find`, as far as whether it finds something.
unfoldable pub contains : Bytes → Bytes → Bool
unfolding starts_with
contains [] token = starts_with [] token
contains (c ∷ s) token = starts_with (c ∷ s) token || contains s token

abbrev pub header_value_contains_token : Bytes → Bytes → Bool
header_value_contains_token value token = contains (lowered value) (lowered token)
