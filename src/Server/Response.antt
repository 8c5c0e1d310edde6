-- ===== src/Server/Response.antt =====
-- include/nhttp/server/response.hpp and src/server/response.cpp: a response, and how it is made. Bodies
-- are of any type `B`; the handler of an upgrade is not kept, only whether there is one.
use libnhttp.Base.{
  ℕ, ◌+◌, List, [], ◌∷◌, Bytes, Bool, false, Option, some, none, length, if◌then◌else◌, codes,
}
use libnhttp.Base.Int.{ℤ, pos, negsuc, ltb_ℤ}
use libnhttp.Base.Decimal.{to_string}
use libnhttp.Protocol.HttpHeader.{HttpHeader, set_header}

pub record Response (B : Type 0) : Type 0 where
  pub status : ℕ
  pub headers : List HttpHeader
  pub body : Option B
  pub content_length : ℤ
  pub upgrades : Bool

-- `std::to_string` of a signed number.
abbrev pub to_string_ℤ : ℤ → Bytes
to_string_ℤ (pos n) = to_string n
to_string_ℤ (negsuc n) = 45 ∷ to_string (n + 1)

abbrev pub make_status : {B : Type 0} → ℕ → Response B
make_status code = record {
  status = code;
  headers = [];
  body = none;
  content_length = pos 0;
  upgrades = false;
}

-- A text, through the memory stream that `memory` makes of its bytes.
abbrev pub make_text : {B : Type 0} → (Bytes → B) → Bytes → Bytes → Response B
make_text memory text mime = record {
  status = 200;
  headers = set_header (codes "Content-Type") mime [];
  body = some (memory text);
  content_length = pos (length text);
  upgrades = false;
}

abbrev pub length_of : {B : Type 0} → (B → ℤ) → Option B → ℤ
length_of get_length none = pos 0
length_of get_length (some b) = get_length b

abbrev pub make_streamed : {B : Type 0} → (B → ℤ) → Option B → Bytes → ℤ → Response B
make_streamed get_length body mime n = record {
  status = 200;
  headers = set_header (codes "Content-Type") mime [];
  body = body;
  content_length = if ltb_ℤ n (pos 0) then length_of get_length body else n;
  upgrades = false;
}
