-- ===== src/Server/Http1/Framing/Agreement.antt =====
-- The two sides frame a body alike.
use libnhttp.Base.{
  ℕ, ◌+◌, ◌-◌, ◌*◌, ◌^◌, ◌<◌, ◌≡◌, refl, sym, ap, ◌∙◌, List, [], ◌∷◌, arith, append-nil, Bytes, ltb,
  Bool, true, false, Bool-cases, inl, inr, some, none, if◌then◌else◌, codes,
}
use libnhttp.Base.{ap₂}
use libnhttp.Base.Int.{ℤ, pos, negsuc, pos_part, max_ℤ}
use libnhttp.Base.Decimal.{to_string, IsDigit, read-to_string}
use libnhttp.Protocol.HttpHeader.{
  HttpHeader, get_header, set_header, same_letters, header_name_equals, isset,
}
use libnhttp.Protocol.HttpHeader.Lookup.{get_header-set_header}
use libnhttp.Protocol.HttpHeader.Tokens.{starts_with, contains}
use libnhttp.Server.Response.{Response, to_string_ℤ}
use libnhttp.Server.Http1.Framing.{
  chunked, sized, sized_by, framing_by_length, framing_of, make_body_stream, use_chunked,
  with_server, response_headers,
}

sized_by-step :
    (c : ℕ) (rest : Bytes) (n : ℕ)
    → IsDigit c
    → n * 10 + (c - 48) < 2 ^ 63
    → sized_by (c ∷ rest) n ≡ sized_by rest (n * 10 + (c - 48))
unfolding sized_by
sized_by-step c rest n d h =
    let low : ltb c 48 ≡ false = ground (arith, d.0) in
    let high : ltb 57 c ≡ false = ground (arith, d.1) in
    let fits : ltb (n * 10 + (c - 48)) (2 ^ 63) ≡ true = ground arith in rw (low, high, fits)

sized_by-to_string : (n : ℕ) → n < 2 ^ 63 → sized_by (to_string n) 0 ≡ sized n
unfolding sized_by
sized_by-to_string n h =
    ap (λ bs. sized_by bs 0) (sym (append-nil (to_string n)))
    ∙ read-to_string sized_by sized_by-step n [] h

get_after_set :
    (name k v : Bytes) (hs : List HttpHeader)
    → header_name_equals name k ≡ false
    → get_header k (set_header name v hs) ≡ get_header k hs
get_after_set name k v hs other = get_header-set_header name k v hs ∙ rw other

get_set_same :
    (name k v : Bytes) (hs : List HttpHeader)
    → header_name_equals name k ≡ true
    → get_header k (set_header name v hs) ≡ some v
get_set_same name k v hs same = get_header-set_header name k v hs ∙ rw same

-- Adding the server's name does not change other headers.
with_server-get :
    (server k : Bytes) (hs : List HttpHeader)
    → header_name_equals (codes "Server") k ≡ false
    → get_header k (with_server server hs) ≡ get_header k hs
with_server-get [] k hs other = refl
with_server-get (c ∷ cs) k hs other = elim (Bool-cases (isset (codes "Server") hs)) [
  | inl there ↦ rw there
  | inr missing ↦ rw missing (get_after_set (codes "Server") k (c ∷ cs) hs other)
]

module _ {B : Type 0} (server date : Bytes) (keep_alive : Bool) (r : Response B) where
  abbrev before : List HttpHeader
  before =
      set_header (codes "Connection") (if keep_alive then codes "keep-alive" else codes "close")
        (set_header (codes "Date") date (with_server server r.headers))

  before-te :
      get_header (codes "Transfer-Encoding") before
      ≡ get_header (codes "Transfer-Encoding") r.headers
  unfolding header_name_equals same_letters
  before-te =
      get_after_set (codes "Connection") (codes "Transfer-Encoding") _ _ refl
      ∙ get_after_set (codes "Date") (codes "Transfer-Encoding") date _ refl
      ∙ with_server-get server (codes "Transfer-Encoding") r.headers refl

  framed-chunked :
      make_body_stream (set_header (codes "Transfer-Encoding") (codes "chunked") before) ≡ chunked
  unfolding framing_of header_name_equals same_letters starts_with contains
  framed-chunked =
      ap
        (λ o. framing_of o (
          get_header (codes "Content-Length")
            (set_header (codes "Transfer-Encoding") (codes "chunked") before)))
        (get_set_same (codes "Transfer-Encoding") (codes "Transfer-Encoding") (codes "chunked")
          before refl)

  framed-sized :
      (n : ℕ)
      → get_header (codes "Transfer-Encoding") r.headers ≡ none
      → n < 2 ^ 63
      → make_body_stream (set_header (codes "Content-Length") (to_string n) before) ≡ sized n
  unfolding framing_of framing_by_length header_name_equals same_letters
  framed-sized n bare h =
      ap₂ framing_of
        (get_after_set (codes "Content-Length") (codes "Transfer-Encoding") (to_string n) before
            refl
          ∙ before-te
          ∙ bare)
        (get_set_same (codes "Content-Length") (codes "Content-Length") (to_string n) before refl)
      ∙ sized_by-to_string n h

  max_zero : (z : ℤ) → max_ℤ (pos 0) z ≡ pos (pos_part z)
  max_zero (pos n) = ground arith
  max_zero (negsuc n) = ground arith

  -- How `make_body_stream` reads the headers that `write_response` sends: chunked for a body of unknown length, else as many bytes as the length says,
  -- and none for a negative one. The response brings no `Transfer-Encoding` of its own.
  pub make_body_stream-response_headers :
      get_header (codes "Transfer-Encoding") r.headers ≡ none
      → pos_part r.content_length < 2 ^ 63
      → make_body_stream (response_headers server date keep_alive r)
        ≡ (if use_chunked r then chunked else sized (pos_part r.content_length))
  unfolding response_headers
  make_body_stream-response_headers bare h = elim (Bool-cases (use_chunked r)) [
    | inl unknown ↦ rw unknown framed-chunked
    | inr known ↦ rw known (
        ap
          (λ (z : ℤ). make_body_stream (set_header (codes "Content-Length") (to_string_ℤ z) before))
          (max_zero r.content_length)
        ∙ framed-sized (pos_part r.content_length) bare h)
  ]
