-- ===== src/Protocol/UrlEncode/RoundTrip.antt =====
-- `url_decode` undoes `url_encode`, and what `url_encode` writes is safe in a URL.
use libnhttp.Base.{
  ℕ, ◌*◌, ◌/◌, ◌%◌, ◌^◌, ◌<◌, ◌≡◌, ◌≢◌, ◌⊎◌, refl, sym, ap, ◌∙◌, [], ◌∷◌, ◌++◌, arith, u8, bit_or,
  Bytes, IsByte, All, All-append, ◌==◌, true, false, Bool-cases, inl, inr, some, none, ℕ_discrete,
}
use libnhttp.Base.Bits.{bit_and_mask, bit_or_fields}
use libnhttp.Protocol.UrlEncode.{
  hex_value, is_unreserved, to_hex_digit, joined, escaped, plain, url_decode, encode_char,
  url_encode,
}

hex_value-to_hex_digit : (v : ℕ) → v < 16 → hex_value (to_hex_digit v) ≡ some v
unfolding hex_value to_hex_digit
hex_value-to_hex_digit v h = ground arith

escaped_digits :
    (c : ℕ) → IsByte c → escaped 37 (to_hex_digit (c / 16)) (to_hex_digit (c % 16)) ≡ some c
unfolding escaped joined
escaped_digits c h =
    let whole : u8 (bit_or (c / 16 * 2 ^ 4) (c % 16)) ≡ c =
      omega (arith, bit_or_fields 4 (c / 16) (c % 16) (omega arith)) in
    rw
      (hex_value-to_hex_digit (c / 16) (omega arith), hex_value-to_hex_digit (c % 16) (omega arith))
      (ap some whole)

escaped_other : (c d e : ℕ) → c ≢ 37 → escaped c d e ≡ none
unfolding escaped
escaped_other c d e h = ground arith

-- A character other than `%` is decoded by itself.
url_decode-plain :
    (c : ℕ) (rest : Bytes) → c ≢ 37 → url_decode (c ∷ rest) ≡ plain c ∷ url_decode rest
unfolding url_decode
url_decode-plain c [] h = refl
url_decode-plain c (d ∷ []) h = refl
url_decode-plain c (d ∷ e ∷ rest) h = rw (escaped_other c d e h, url_decode)

unreserved_cases : (c : ℕ) → is_unreserved c ≡ true → (c ≢ 37) × (plain c ≡ c)
unfolding is_unreserved plain
unreserved_cases c h = (ground arith, ground arith)

encode_char_escape :
    (c : ℕ)
    → is_unreserved c ≡ false
    → c ≢ 32
    → encode_char c ≡ 37 ∷ to_hex_digit (c / 16 % 16) ∷ to_hex_digit (c % 16) ∷ []
unfolding encode_char
encode_char_escape c reserved other =
    let space : (c == 32) ≡ false = ground arith in
    rw (reserved, space, bit_and_mask 4 (c / 16), bit_and_mask 4 c)

url_decode-encode_char :
    (c : ℕ) (rest : Bytes) → IsByte c → url_decode (encode_char c ++ rest) ≡ c ∷ url_decode rest
unfolding encode_char url_decode plain
url_decode-encode_char c rest h = elim (Bool-cases (is_unreserved c)) [
  | inl safe ↦
      let (other, same) = unreserved_cases c safe in
      rw safe (url_decode-plain c rest other ∙ ap (λ (b : ℕ). b ∷ url_decode rest) same)
  | inr unsafe ↦ elim (ℕ_discrete c 32) [
    | yes space ↦
        let found : (c == 32) ≡ true = ground arith in
        rw (unsafe, found)
          (url_decode-plain 43 rest (ground arith)
            ∙ ap (λ (b : ℕ). b ∷ url_decode rest) (sym space))
    | no other ↦
        let high : c / 16 % 16 ≡ c / 16 = omega arith in
        rw (encode_char_escape c unsafe other, high, escaped_digits c h, url_decode)
  ]
]

-- Every string of bytes is decoded back from its encoding.
pub url_decode-url_encode : (s : Bytes) → All IsByte s → url_decode (url_encode s) ≡ s
unfolding url_encode url_decode
url_decode-url_encode [] h = refl
url_decode-url_encode (c ∷ cs) (b, bs) =
    url_decode-encode_char c (url_encode cs) b ∙ ap (◌∷◌ c) (url_decode-url_encode cs bs)

-- The characters of an encoded string: unreserved ones, `+` and `%`.
abbrev pub IsSafe : ℕ → Type 0
IsSafe c = (is_unreserved c ≡ true) ⊎ (c ≡ 43) ⊎ (c ≡ 37)

to_hex_digit-IsSafe : (v : ℕ) → v < 16 → IsSafe (to_hex_digit v)
unfolding to_hex_digit is_unreserved
to_hex_digit-IsSafe v h = inl (ground arith)

encode_char-IsSafe : (c : ℕ) → All IsSafe (encode_char c)
unfolding encode_char
encode_char-IsSafe c = elim (Bool-cases (is_unreserved c)) [
  | inl safe ↦ rw safe (inl safe, tt)
  | inr unsafe ↦ elim (ℕ_discrete c 32) [
    | yes space ↦
        let found : (c == 32) ≡ true = ground arith in rw (unsafe, found) (inr (inl refl), tt)
    | no other ↦ rw (encode_char_escape c unsafe other) (
      inr (inr refl),
      (
        to_hex_digit-IsSafe (c / 16 % 16) (omega arith),
        (to_hex_digit-IsSafe (c % 16) (omega arith), tt),
      ),
    )
  ]
]

-- An encoded string holds unreserved characters, `+` and `%` only, whatever was encoded.
pub url_encode-IsSafe : (s : Bytes) → All IsSafe (url_encode s)
unfolding url_encode
url_encode-IsSafe [] = tt
url_encode-IsSafe (c ∷ cs) =
    All-append IsSafe (encode_char c) (url_encode cs) (encode_char-IsSafe c) (url_encode-IsSafe cs)

-- A string without `+` and `%` is decoded to itself.
pub url_decode_same : (s : Bytes) → All (λ c. (c ≢ 37) × (c ≢ 43)) s → url_decode s ≡ s
unfolding plain url_decode
url_decode_same [] h = refl
url_decode_same (c ∷ cs) ((percent, plus), hs) =
    let same : plain c ≡ c = ground arith in
    url_decode-plain c cs percent
    ∙ ap (λ (b : ℕ). b ∷ url_decode cs) same
    ∙ ap (◌∷◌ c) (url_decode_same cs hs)

-- The delimiters of a query string are none of them.
IsSafe-apart : (c : ℕ) → IsSafe c → (c ≢ 38) × (c ≢ 61)
unfolding is_unreserved
IsSafe-apart c (inl safe) = (
  (λ (e : c ≡ 38). let never : is_unreserved 38 ≡ true = rw e at safe in cc),
  (λ (e : c ≡ 61). let never : is_unreserved 61 ≡ true = rw e at safe in cc),
)
IsSafe-apart c (inr (inl plus)) = (omega arith, omega arith)
IsSafe-apart c (inr (inr percent)) = (omega arith, omega arith)

All-apart : (xs : Bytes) → All IsSafe xs → All (λ c. c ≢ 38) xs × All (λ c. c ≢ 61) xs
All-apart [] h = (tt, tt)
All-apart (x ∷ xs) h =
    let here = IsSafe-apart x h.0 in
    let rest = All-apart xs h.1 in ((here.0, rest.0), (here.1, rest.1))

pub url_encode_apart :
    (s : Bytes) → All (λ c. c ≢ 38) (url_encode s) × All (λ c. c ≢ 61) (url_encode s)
url_encode_apart s = All-apart (url_encode s) (url_encode-IsSafe s)
