-- ===== src/Protocol/HttpStatus.antt =====
-- src/protocol/http_status.cpp: status codes, and status lines.
pub mod RoundTrip
mod Runs
use libnhttp.Base.{
  ℕ, ◌+◌, ◌-◌, ◌*◌, List, [], ◌∷◌, ◌++◌, Bytes, leb, ltb, ◌==◌, Bool, not, ◌&&◌, ◌||◌, Option, some,
  none, length, take, drop, get_or, if◌then◌else◌, codes,
}
use libnhttp.Base.Text.{bytes_eq}
use libnhttp.Base.Decimal.{to_string}
use libnhttp.Protocol.HttpHeader.{cut, strip_cr}

-- The cases of `reason_phrase`.
abbrev pub phrases : List (ℕ × Bytes)
phrases =
    (100, codes "Continue")
    ∷ (101, codes "Switching Protocols")
    ∷ (200, codes "OK")
    ∷ (201, codes "Created")
    ∷ (202, codes "Accepted")
    ∷ (204, codes "No Content")
    ∷ (206, codes "Partial Content")
    ∷ (301, codes "Moved Permanently")
    ∷ (302, codes "Found")
    ∷ (303, codes "See Other")
    ∷ (304, codes "Not Modified")
    ∷ (307, codes "Temporary Redirect")
    ∷ (308, codes "Permanent Redirect")
    ∷ (400, codes "Bad Request")
    ∷ (401, codes "Unauthorized")
    ∷ (403, codes "Forbidden")
    ∷ (404, codes "Not Found")
    ∷ (405, codes "Method Not Allowed")
    ∷ (406, codes "Not Acceptable")
    ∷ (408, codes "Request Timeout")
    ∷ (409, codes "Conflict")
    ∷ (410, codes "Gone")
    ∷ (411, codes "Length Required")
    ∷ (412, codes "Precondition Failed")
    ∷ (413, codes "Payload Too Large")
    ∷ (414, codes "URI Too Long")
    ∷ (415, codes "Unsupported Media Type")
    ∷ (416, codes "Range Not Satisfiable")
    ∷ (417, codes "Expectation Failed")
    ∷ (426, codes "Upgrade Required")
    ∷ (429, codes "Too Many Requests")
    ∷ (431, codes "Request Header Fields Too Large")
    ∷ (500, codes "Internal Server Error")
    ∷ (501, codes "Not Implemented")
    ∷ (502, codes "Bad Gateway")
    ∷ (503, codes "Service Unavailable")
    ∷ (504, codes "Gateway Timeout")
    ∷ (505, codes "HTTP Version Not Supported")
    ∷ []

unfoldable pub phrase_in : ℕ → List (ℕ × Bytes) → Bytes
phrase_in code [] = codes "Unknown"
phrase_in code ((k, phrase) ∷ rest) = if code == k then phrase else phrase_in code rest

unfoldable pub reason_phrase : ℕ → Bytes
unfolding phrase_in
reason_phrase code = phrase_in code phrases

unfoldable pub write_status_line : ℕ → ℕ → Bytes → Bytes
write_status_line code http_minor_version out =
    out
    ++ codes "HTTP/1."
    ++ to_string http_minor_version
    ++ 32 ∷ (to_string code ++ 32 ∷ (reason_phrase code ++ 13 ∷ 10 ∷ []))

pub record StatusLine : Type 0 where
  pub code : ℕ
  pub http_major : ℕ
  pub http_minor : ℕ

-- The results 0, -1, and the number of bytes with what is read.
pub data Parsed : Type 0 where
  need_more : Parsed
  refused : Parsed
  consumed : ℕ → StatusLine → Parsed

abbrev pub is_digit : ℕ → Bool
is_digit c = leb 48 c && leb c 57

pub read_code : Bytes → ℕ → Option ℕ
read_code [] code = some code
read_code (c ∷ cs) code =
    let rest = read_code cs (code * 10 + (c - 48)) in if is_digit c then rest else none

abbrev pub before_blank : Bytes → Option (Bytes × Bytes) → Bytes
before_blank v none = v
before_blank v (some (v', rest)) = v'

pub with_code : ℕ → ℕ → ℕ → Option ℕ → Parsed
with_code n major minor none = refused
with_code n major minor (some code) =
    consumed n (record { code = code; http_major = major - 48; http_minor = minor - 48 })

pub parse_code : ℕ → ℕ → ℕ → Bytes → Parsed
parse_code n major minor code_part =
    if not (length code_part == 3) then refused else with_code n major minor (read_code code_part 0)

-- The line, without its end; `n` is the number of its bytes with the end.
pub parse_line : ℕ → Bytes → Parsed
parse_line n line =
    if ltb (length line) 12
      || not (bytes_eq (take 5 line) (codes "HTTP/"))
      || not (get_or line 6 0 == 46)
      || not (get_or line 8 0 == 32)
    then refused
    else if not (is_digit (get_or line 5 0)) || not (is_digit (get_or line 7 0))
    then refused
    else parse_code n (get_or line 5 0) (get_or line 7 0)
        (before_blank (drop 9 line) (cut 32 (drop 9 line)))

pub parse_cut : Option (Bytes × Bytes) → Parsed
parse_cut none = need_more
parse_cut (some (line, rest)) = parse_line (length line + 1) (strip_cr line)

unfoldable pub try_parse : Bytes → Parsed
unfolding parse_cut parse_line parse_code with_code read_code
try_parse bytes = parse_cut (cut 10 bytes)
