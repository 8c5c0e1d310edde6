-- ===== src/Protocol/HttpStatus/RoundTrip.antt =====
-- A status line is read back.
use libnhttp.Base.{
  ℕ, ◌+◌, ◌-◌, ◌*◌, ◌/◌, ◌%◌, ◌≤◌, ◌<◌, ◌≡◌, ◌≢◌, refl, sym, ap, ◌∙◌, List, [], ◌∷◌, ◌++◌, arith,
  append_assoc, append-nil, Bytes, All, All-append, ltb, ◌==◌, Bool, true, false, not, ◌&&◌,
  Bool-cases, inl, inr, some, length, length-append, codes,
}
use libnhttp.Base.{ap₂}
use libnhttp.Base.Text.{bytes_eq}
use libnhttp.Base.Decimal.{to_string}
use libnhttp.Base.Decimal.Padded.{to_string-small, to_string-large}
use libnhttp.Protocol.HttpHeader.{cut, strip_cr}
use libnhttp.Protocol.HttpHeader.RoundTrip.{cut-found}
use libnhttp.Protocol.HttpStatus.{
  phrases, phrase_in, reason_phrase, write_status_line, consumed, is_digit, read_code, with_code,
  parse_code, parse_line, parse_cut, try_parse,
}

-- No phrase has a line feed.
abbrev InLine : Bytes → Type 0
InLine s = All (λ c. c ≢ 10) s

in_line : Bytes → Bool
in_line [] = true
in_line (c ∷ cs) = not (c == 10) && in_line cs

all_in_line : List (ℕ × Bytes) → Bool
all_in_line [] = true
all_in_line ((k, s) ∷ rest) = in_line s && all_in_line rest

InLine-of : (s : Bytes) → in_line s ≡ true → InLine s
unfolding in_line
InLine-of [] h = tt
InLine-of (c ∷ cs) h = (λ e. ground arith, InLine-of cs (ground arith))

phrase_in-InLine :
    (code : ℕ) (t : List (ℕ × Bytes)) → all_in_line t ≡ true → InLine (phrase_in code t)
unfolding phrase_in all_in_line
phrase_in-InLine code [] h = InLine-of (codes "Unknown") (unfold in_line in refl)
phrase_in-InLine code ((k, s) ∷ rest) h = elim (Bool-cases (code == k)) [
  | inl here ↦ rw here (InLine-of s (ground arith))
  | inr there ↦ rw there (phrase_in-InLine code rest (ground arith))
]

reason_phrase-InLine : (code : ℕ) → InLine (reason_phrase code)
unfolding reason_phrase all_in_line in_line
reason_phrase-InLine code = phrase_in-InLine code phrases refl

three_digits :
    (n : ℕ)
    → 100 ≤ n
    → n < 1000
    → to_string n ≡ (48 + n / 10 / 10) ∷ (48 + n / 10 % 10) ∷ (48 + n % 10) ∷ []
three_digits n h k =
    to_string-large n (omega arith)
    ∙ ap (λ (bs : Bytes). bs ++ (48 + n % 10) ∷ [])
        (to_string-large (n / 10) (omega arith)
          ∙ ap (λ (bs : Bytes). bs ++ (48 + n / 10 % 10) ∷ [])
              (to_string-small (n / 10 / 10) (omega arith)))

read_code-digit :
    (d : ℕ) (rest : Bytes) (code : ℕ)
    → d < 10
    → read_code ((48 + d) ∷ rest) code ≡ read_code rest (code * 10 + d)
unfolding read_code
read_code-digit d rest code h =
    let digit : is_digit (48 + d) ≡ true = ground arith in
    rw digit
      (ap (λ (k : ℕ). read_code rest (code * 10 + k)) {x = 48 + d - 48} {y = d} (omega arith))

read_code_end : (value n : ℕ) → value ≡ n → read_code [] value ≡ some n
unfolding read_code
read_code_end value n e = ap some e

read_code-three :
    (n : ℕ)
    → n < 1000
    → read_code ((48 + n / 10 / 10) ∷ (48 + n / 10 % 10) ∷ (48 + n % 10) ∷ []) 0 ≡ some n
read_code-three n h =
    read_code-digit (n / 10 / 10) (_ ∷ _ ∷ []) 0 (omega arith)
    ∙ read_code-digit (n / 10 % 10) (_ ∷ []) (0 * 10 + n / 10 / 10) (omega arith)
    ∙ read_code-digit (n % 10) [] ((0 * 10 + n / 10 / 10) * 10 + n / 10 % 10) (omega arith)
    ∙ read_code_end (((0 * 10 + n / 10 / 10) * 10 + n / 10 % 10) * 10 + n % 10) n (omega arith)

-- A line of the form that is written, without its end.
abbrev line : ℕ → ℕ → ℕ → ℕ → Bytes → Bytes
line m a b c phrase =
    codes "HTTP/1." ++ (48 + m) ∷ 32 ∷ (48 + a) ∷ (48 + b) ∷ (48 + c) ∷ 32 ∷ phrase

strip_cr-line : (xs : Bytes) → strip_cr (xs ++ 13 ∷ []) ≡ xs
unfolding strip_cr
strip_cr-line [] = refl
strip_cr-line (x ∷ []) = refl
strip_cr-line (x ∷ y ∷ xs) = ap (λ (r : Bytes). x ∷ r) (strip_cr-line (y ∷ xs))

cut_code :
    (a b c : ℕ) (phrase : Bytes)
    → cut 32 ((48 + a) ∷ (48 + b) ∷ (48 + c) ∷ 32 ∷ phrase)
      ≡ some ((48 + a) ∷ (48 + b) ∷ (48 + c) ∷ [], phrase)
cut_code a b c phrase =
    cut-found 32 ((48 + a) ∷ (48 + b) ∷ (48 + c) ∷ []) phrase
      (omega arith, (omega arith, (omega arith, tt)))

parse_line_lem :
    (n m a b c code : ℕ) (phrase : Bytes)
    → m < 10
    → read_code ((48 + a) ∷ (48 + b) ∷ (48 + c) ∷ []) 0 ≡ some code
    → parse_line n (line m a b c phrase)
      ≡ consumed n (record { code = code; http_major = 1; http_minor = m })
unfolding parse_line parse_code with_code bytes_eq
parse_line_lem n m a b c code phrase h read =
    let digit : is_digit (48 + m) ≡ true = ground arith in
    let long : ltb (length (line m a b c phrase)) 12 ≡ false = ground arith in
    rw (long, digit, cut_code a b c phrase, read)
      (ap (λ (k : ℕ). consumed n (record { code = code; http_major = 1; http_minor = k }))
        {x = 48 + m - 48} {y = m} (omega arith))

parse_written :
    (m a b c code : ℕ) (phrase rest : Bytes)
    → m < 10
    → InLine phrase
    → read_code ((48 + a) ∷ (48 + b) ∷ (48 + c) ∷ []) 0 ≡ some code
    → a < 10
    → b < 10
    → c < 10
    → try_parse ((line m a b c phrase ++ 13 ∷ []) ++ 10 ∷ rest)
      ≡ consumed
          (length (line m a b c phrase ++ 13 ∷ []) + 1)
          (record { code = code; http_major = 1; http_minor = m })
unfolding try_parse parse_cut
parse_written m a b c code phrase rest hm free read ha hb hc =
    let whole : Bytes = line m a b c phrase in
    let no_feed : All (λ x. x ≢ 10) whole = (
      omega arith,
      (
        omega arith,
        (
          omega arith,
          (
            omega arith,
            (
              omega arith,
              (
                omega arith,
                (
                  omega arith,
                  (
                    omega arith,
                    (omega arith, (omega arith, (omega arith, (omega arith, (omega arith, free))))),
                  ),
                ),
              ),
            ),
          ),
        ),
      ),
    ) in
    ap parse_cut (
      cut-found 10 (whole ++ 13 ∷ []) rest
        (All-append (λ x. x ≢ 10) whole (13 ∷ []) no_feed (omega arith, tt)))
    ∙ ap (parse_line (length (whole ++ 13 ∷ []) + 1)) (strip_cr-line whole)
    ∙ parse_line_lem (length (whole ++ 13 ∷ []) + 1) m a b c code phrase hm read

written_lem :
    (code minor : ℕ) (rest : Bytes)
    → 100 ≤ code
    → code < 1000
    → minor < 10
    → write_status_line code minor [] ++ rest
      ≡ (line minor (code / 10 / 10) (code / 10 % 10) (code % 10) (reason_phrase code) ++ 13 ∷ [])
        ++ 10 ∷ rest
unfolding write_status_line
written_lem code minor rest h k m =
    ap₂
      (λ (x y : Bytes).
        (codes "HTTP/1." ++ x ++ 32 ∷ (y ++ 32 ∷ (reason_phrase code ++ 13 ∷ 10 ∷ []))) ++ rest)
      (to_string-small minor m) (three_digits code h k)
    ∙ ap
        (λ (bs : Bytes).
          codes "HTTP/1."
          ++ (48 + minor)
            ∷ 32
            ∷ (48 + code / 10 / 10)
            ∷ (48 + code / 10 % 10)
            ∷ (48 + code % 10)
            ∷ 32
            ∷ bs)
        (append_assoc (reason_phrase code) (13 ∷ 10 ∷ []) rest
          ∙ sym (append_assoc (reason_phrase code) (13 ∷ []) (10 ∷ rest)))

-- The line that `write_status_line` writes for a code of three digits and a minor version of one is
-- read back, whatever follows it, with all its bytes.
pub try_parse-write_status_line :
    (code minor : ℕ) (rest : Bytes)
    → 100 ≤ code
    → code < 1000
    → minor < 10
    → try_parse (write_status_line code minor [] ++ rest)
      ≡ consumed
          (length (write_status_line code minor []))
          (record { code = code; http_major = 1; http_minor = minor })
try_parse-write_status_line code minor rest h k m =
    let whole : Bytes =
      line minor (code / 10 / 10) (code / 10 % 10) (code % 10) (reason_phrase code) in
    let count : length (whole ++ 13 ∷ []) + 1 ≡ length (write_status_line code minor []) = omega (
      arith,
      ap length (append-nil (write_status_line code minor [])),
      ap length (written_lem code minor [] h k m),
      length-append (whole ++ 13 ∷ []) (10 ∷ []),
    ) in
    ap try_parse (written_lem code minor rest h k m)
    ∙ parse_written minor (code / 10 / 10) (code / 10 % 10) (code % 10) code (reason_phrase code)
        rest m (reason_phrase-InLine code) (read_code-three code k) (omega arith) (omega arith)
        (omega arith)
    ∙ ap (λ (n : ℕ). consumed n (record { code = code; http_major = 1; http_minor = minor })) count
