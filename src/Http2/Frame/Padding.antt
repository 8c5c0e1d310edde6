-- ===== src/Http2/Frame/Padding.antt =====
-- `strip_padding` finds the content of a padded payload, and refuses a pad length that does not fit.
use libnhttp.Base.{
  ℕ, ◌+◌, ◌-◌, ◌≤◌, ◌<◌, ◌≡◌, ◌⊎◌, inl, inr, refl, true, false, [], ◌∷◌, ◌++◌, none, some, Bytes,
  length, length-append, take, drop, take-length_append, take-length, arith, dec_lt,
}
use libnhttp.Http2.Frame.{Content, strip_padding}

-- The bytes that a `Content` names.
abbrev pub content : Content → Bytes → Bytes
content c p = take c.content_len (drop c.content_offset p)

-- The content of `pad length, content, padding` is found, and a payload that is not padded is all
-- content.
pub strip_padding-content :
    (body padding : Bytes)
    → ((c : Content) × (strip_padding (length padding ∷ (body ++ padding)) true ≡ some c)
        × (content c (length padding ∷ (body ++ padding)) ≡ body))
      × ((c : Content) × (strip_padding body false ≡ some c) × (content c body ≡ body))
unfolding strip_padding
strip_padding-content body padding = (
  (
    record { content_offset = 1; content_len = length body },
    ground (arith, length-append body padding),
    take-length_append body padding,
  ),
  (record { content_offset = 0; content_len = length body }, refl, take-length body),
)

-- A padded payload is refused exactly when it is empty or its first byte is not below its length;
-- otherwise the content lies inside it.
strip_padding_cases :
    (p : Bytes)
    → ((p ≡ []) × (strip_padding p true ≡ none))
      ⊎ ((n : ℕ) × (r : Bytes) × (p ≡ n ∷ r) × (length r < n) × (strip_padding p true ≡ none))
      ⊎ ((c : Content) × (strip_padding p true ≡ some c)
          × (c.content_offset + c.content_len ≤ length p))
unfolding strip_padding
strip_padding_cases [] = inl (refl, ground arith)
strip_padding_cases (n ∷ r) = elim (dec_lt (length r) n) [
  | yes h ↦ inr (inl (n, r, refl, h, ground arith))
  | no h ↦
      inr
        (inr (record { content_offset = 1; content_len = length r - n }, ground arith, omega arith))
]
