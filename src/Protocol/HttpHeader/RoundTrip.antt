-- ===== src/Protocol/HttpHeader/RoundTrip.antt =====
-- A header line is read back.
use libnhttp.Base.{
  ap₂, ℕ, ◌+◌, ◌≡◌, ◌≢◌, refl, sym, ap, ◌∙◌, [], ◌∷◌, ◌++◌, arith, append_assoc, append-nil, Bytes,
  All, All-append, ◌==◌, true, false, some, length, length-append,
}
use libnhttp.Protocol.HttpHeader.{
  HttpHeader, cut, strip_cr, trim_front, trim_back, consumed, split_line, parse_line, try_parse,
  header_line, write_to,
}

pub cut-found : (c : ℕ) (xs ys : Bytes) → All (λ x. x ≢ c) xs → cut c (xs ++ c ∷ ys) ≡ some (xs, ys)
unfolding cut
cut-found c [] ys h = let same : (c == c) ≡ true = ground arith in rw same refl
cut-found c (x ∷ xs) ys h =
    let other : (x == c) ≡ false = ground (arith) in
    let rest = cut-found c xs ys h.1 in rw (other, cut, rest) refl

strip_cr-last : (xs : Bytes) → strip_cr (xs ++ 13 ∷ []) ≡ xs
unfolding strip_cr
strip_cr-last [] = refl
strip_cr-last (x ∷ []) = refl
strip_cr-last (x ∷ y ∷ xs) = ap (λ (r : Bytes). x ∷ r) (strip_cr-last (y ∷ xs))

-- A header that a line carries: a name that is not empty, without a colon and a line feed, and a value
-- without a line feed, a leading and a trailing blank.
pub record IsHeader (h : HttpHeader) : Type 0 where
  pub named : h.name ≢ []
  pub no_colon : All (λ x. x ≢ 58) h.name
  pub name_in_line : All (λ x. x ≢ 10) h.name
  pub value_in_line : All (λ x. x ≢ 10) h.value
  pub front : trim_front h.value ≡ h.value
  pub back : trim_back h.value ≡ h.value

split_named :
    (k : ℕ) (n rest : Bytes)
    → n ≢ []
    → split_line k (some (n, rest))
      ≡ consumed k (record { name = n; value = trim_back (trim_front rest) })
split_named k [] rest h = absurd (h refl)
split_named k (c ∷ n) rest h = refl

line_of :
    (h : HttpHeader) (rest : Bytes)
    → header_line h ++ rest ≡ ((h.name ++ 58 ∷ 32 ∷ h.value) ++ 13 ∷ []) ++ 10 ∷ rest
line_of h rest =
    append_assoc h.name (58 ∷ 32 ∷ (h.value ++ 13 ∷ 10 ∷ [])) rest
    ∙ ap (λ (xs : Bytes). h.name ++ 58 ∷ 32 ∷ xs)
        (append_assoc h.value (13 ∷ 10 ∷ []) rest
          ∙ sym (append_assoc h.value (13 ∷ []) (10 ∷ rest)))
    ∙ sym (append_assoc h.name (58 ∷ 32 ∷ (h.value ++ 13 ∷ [])) (10 ∷ rest))
    ∙ ap (λ (xs : Bytes). xs ++ 10 ∷ rest) (sym (append_assoc h.name (58 ∷ 32 ∷ h.value) (13 ∷ [])))

-- `try_parse` reads back the header line that `write_to` appends, whatever follows it, and consumes
-- its bytes. The name is not empty and has no colon and no line feed, and the value has no line
-- feed, no leading and no trailing blank.
pub try_parse-write_to :
    (h : HttpHeader) (rest : Bytes)
    → IsHeader h
    → try_parse (write_to (h ∷ []) [] ++ rest) ≡ consumed (length (write_to (h ∷ []) [])) h
unfolding trim_front
try_parse-write_to h rest v =
    let text : Bytes = h.name ++ 58 ∷ 32 ∷ h.value in
    let line : Bytes = text ++ 13 ∷ [] in
    let in_line : All (λ x. x ≢ 10) line =
      All-append (λ x. x ≢ 10) text (13 ∷ [])
        (All-append (λ x. x ≢ 10) h.name (58 ∷ 32 ∷ h.value) v.name_in_line
          (omega arith, (omega arith, v.value_in_line)))
        (omega arith, tt) in
    let count : length line + 1 ≡ length (header_line h) = omega (
      arith,
      ap length (line_of h []),
      length-append line (10 ∷ []),
      ap length (append-nil (header_line h)),
    ) in
    ap (λ (xs : Bytes). parse_line (cut 10 xs)) (line_of h rest)
    ∙ ap parse_line (cut-found 10 line rest in_line)
    ∙ ap (λ (xs : Bytes). split_line (length line + 1) (cut 58 xs)) (strip_cr-last text)
    ∙ ap (split_line (length line + 1)) (cut-found 58 h.name (32 ∷ h.value) v.no_colon)
    ∙ split_named (length line + 1) h.name (32 ∷ h.value) v.named
    ∙ ap₂ (λ (k : ℕ) (x : Bytes). consumed k (record { name = h.name; value = x })) count
        (ap trim_back v.front ∙ v.back)
