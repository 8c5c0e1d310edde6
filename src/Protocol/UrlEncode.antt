-- ===== src/Protocol/UrlEncode.antt =====
-- src/protocol/urlencode.cpp. The character literals are written as their codes; a `char` of 128 or
-- more is negative there, and fails the same comparisons.
pub mod RoundTrip
mod Runs
use libnhttp.Base.{
  ◌>>=◌, ℕ, ◌+◌, ◌-◌, [], ◌∷◌, ◌++◌, u8, bit_and, bit_or, Bytes, leb, ltb, ◌==◌, Bool, true, ◌&&◌,
  ◌||◌, Option, some, none, if◌then◌else◌, ◌<<<◌, ◌>>>◌,
}

-- `none` is the result -1.
pub hex_value : ℕ → Option ℕ
hex_value c =
    if leb 48 c && leb c 57
    then some (c - 48)
    else if leb 97 c && leb c 102
    then some (c - 97 + 10)
    else if leb 65 c && leb c 70
    then some (c - 65 + 10)
    else none

pub is_unreserved : ℕ → Bool
is_unreserved c =
    if (leb 65 c && leb c 90) || (leb 97 c && leb c 122) || (leb 48 c && leb c 57)
    then true
    else (c == 45) || (c == 95) || (c == 46) || (c == 126)

pub to_hex_digit : ℕ → ℕ
to_hex_digit v = if ltb v 10 then 48 + v else 65 + (v - 10)

pub joined : ℕ → ℕ → Option ℕ
joined d e = do hi ← hex_value d; lo ← hex_value e; some (u8 (bit_or (hi <<< 4) lo))

-- The byte of an escape, where `%`, `d` and `e` are one.
pub escaped : ℕ → ℕ → ℕ → Option ℕ
escaped c d e = if c == 37 then joined d e else none

-- A character that starts no escape.
pub plain : ℕ → ℕ
plain c = if c == 43 then 32 else c

pub url_decode : Bytes → Bytes
url_decode [] = []
url_decode (c ∷ []) = plain c ∷ []
url_decode (c ∷ d ∷ []) = plain c ∷ url_decode (d ∷ [])
url_decode (c ∷ d ∷ e ∷ rest) = elim (escaped c d e) [
  | none ↦ plain c ∷ url_decode (d ∷ e ∷ rest)
  | some v ↦ v ∷ url_decode rest
]

-- What the loop's body appends for one character.
pub encode_char : ℕ → Bytes
encode_char c =
    if is_unreserved c
    then c ∷ []
    else if c == 32
    then 43 ∷ []
    else 37 ∷ to_hex_digit (bit_and (c >>> 4) 0x0f) ∷ to_hex_digit (bit_and c 0x0f) ∷ []

pub url_encode : Bytes → Bytes
url_encode [] = []
url_encode (c ∷ cs) = encode_char c ++ url_encode cs
