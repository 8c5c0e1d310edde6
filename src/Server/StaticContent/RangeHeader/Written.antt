-- ===== src/Server/StaticContent/RangeHeader/Written.antt =====
-- What the range headers of clients ask for.
use libnhttp.Base.{
  ℕ, ◌+◌, ◌-◌, ◌*◌, ◌^◌, ◌≤◌, ◌<◌, ◌≡◌, ◌≢◌, ◌⊎◌, refl, sym, ap, ◌∙◌, [], ◌∷◌, ◌++◌, arith,
  append-nil, Bytes, All, All-append, leb, ltb, ◌==◌, true, false, Bool-cases, inl, inr, some, none,
  min, codes,
}
use libnhttp.Base.Int.{pos, ltb_ℤ}
use libnhttp.Base.Text.{bytes_eq}
use libnhttp.Base.Decimal.{
  to_string, IsDigit, to_string-IsDigit, read-to_string, to_string-nonempty,
}
use libnhttp.Protocol.HttpHeader.{cut}
use libnhttp.Protocol.HttpHeader.RoundTrip.{cut-found}
use libnhttp.Server.StaticContent.RangeHeader.{
  int64_end, number, RangeRequest, judged, suffix_range, last_of, bounded_range, first_range,
  dash_range, before_comma, parse_digits, range_of_value, parse_range_header,
}

parse_digits-step :
    (c : ℕ) (rest : Bytes) (out : ℕ)
    → IsDigit c
    → out * 10 + (c - 48) < 2 ^ 63
    → parse_digits (c ∷ rest) out ≡ parse_digits rest (out * 10 + (c - 48))
unfolding parse_digits
parse_digits-step c rest out d h =
    let low : ltb c 48 ≡ false = ground (arith, d.0) in
    let high : ltb 57 c ≡ false = ground (arith, d.1) in
    let fits : ltb (out * 10 + (c - 48)) int64_end ≡ true = ground arith in rw (low, high, fits)

pub parse_digits-to_string : (n : ℕ) → n < 2 ^ 63 → parse_digits (to_string n) 0 ≡ number n
unfolding parse_digits
parse_digits-to_string n h =
    ap (λ bs. parse_digits bs 0) (sym (append-nil (to_string n)))
    ∙ read-to_string parse_digits parse_digits-step n [] h

-- What a client writes for the bytes from `a` to `b`, from `a` on, and for the last `n` bytes.
abbrev pub from_to : ℕ → ℕ → Bytes
from_to a b = to_string a ++ 45 ∷ to_string b

abbrev pub from_on : ℕ → Bytes
from_on a = to_string a ++ 45 ∷ []

abbrev pub last_bytes : ℕ → Bytes
last_bytes n = 45 ∷ to_string n

digits-free : (c : ℕ) (xs : Bytes) → (c < 48) ⊎ (57 < c) → All IsDigit xs → All (λ x. x ≢ c) xs
digits-free c [] h a = tt
digits-free c (x ∷ xs) (inl h) a = (omega arith, digits-free c xs (inl h) a.1)
digits-free c (x ∷ xs) (inr h) a = (omega arith, digits-free c xs (inr h) a.1)

cut-none : (c : ℕ) (xs : Bytes) → All (λ x. x ≢ c) xs → cut c xs ≡ none
unfolding cut
cut-none c [] h = refl
cut-none c (x ∷ xs) h =
    let other : (x == c) ≡ false = ground (arith, h.0) in rw (other, cut, cut-none c xs h.1) refl

-- Behind the unit stands one range: digits, a dash and digits.
value_lem :
    (size : ℕ) (xs ys : Bytes)
    → 0 < size
    → All IsDigit xs
    → All IsDigit ys
    → parse_range_header (some (codes "bytes=" ++ xs ++ 45 ∷ ys)) (pos size)
      ≡ dash_range size (some (xs, ys))
unfolding parse_range_header range_of_value bytes_eq
value_lem size xs ys h dx dy =
    let full : ltb_ℤ (pos 0) (pos size) ≡ true = ground arith in
    let no_comma : All (λ c. c ≢ 44) (xs ++ 45 ∷ ys) =
      All-append (λ c. c ≢ 44) xs (45 ∷ ys) (digits-free 44 xs (inl (omega arith)) dx)
        (omega arith, digits-free 44 ys (inl (omega arith)) dy) in
    rw full (
      ap (λ o. dash_range size (cut 45 (before_comma (xs ++ 45 ∷ ys) o)))
        (cut-none 44 (xs ++ 45 ∷ ys) no_comma)
      ∙ ap (dash_range size) (cut-found 45 xs ys (digits-free 45 xs (inl (omega arith)) dx)))

dash_range-first :
    (size : ℕ) (xs ys : Bytes)
    → xs ≢ []
    → dash_range size (some (xs, ys)) ≡ first_range size ys (parse_digits xs 0)
unfolding dash_range
dash_range-first size [] ys h = absurd (h refl)
dash_range-first size (x ∷ xs) ys h = refl

dash_range-suffix :
    (size : ℕ) (ys : Bytes)
    → ys ≢ []
    → dash_range size (some ([], ys)) ≡ suffix_range size (parse_digits ys 0)
unfolding dash_range
dash_range-suffix size [] h = absurd (h refl)
dash_range-suffix size (y ∷ ys) h = refl

last_of-full : (size : ℕ) (ys : Bytes) → ys ≢ [] → last_of size ys ≡ parse_digits ys 0
unfolding last_of
last_of-full size [] h = absurd (h refl)
last_of-full size (y ∷ ys) h = refl

judged-good :
    (size a b : ℕ)
    → a ≤ b
    → a < size
    → judged size a b ≡ record { present = true; satisfiable = true; first = a; last = b }
unfolding judged
judged-good size a b h k =
    let ordered : ltb b a ≡ false = ground arith in
    let inside : leb size a ≡ false = ground arith in rw (ordered, inside)

judged-bad :
    (size a b : ℕ)
    → size ≤ a
    → judged size a b ≡ record { present = true; satisfiable = false; first = a; last = b }
unfolding judged
judged-bad size a b h =
    let outside : leb size a ≡ true = ground arith in
    elim (Bool-cases (ltb b a)) [ inl e ↦ rw e | inr e ↦ rw (e, outside) ]

first_lem :
    (size a : ℕ) (ys : Bytes)
    → 0 < size
    → a < 2 ^ 63
    → All IsDigit ys
    → parse_range_header (some (codes "bytes=" ++ to_string a ++ 45 ∷ ys)) (pos size)
      ≡ bounded_range size a (last_of size ys)
unfolding first_range
first_lem size a ys h fit d =
    value_lem size (to_string a) ys h (to_string-IsDigit a) d
    ∙ dash_range-first size (to_string a) ys (to_string-nonempty a)
    ∙ ap (first_range size ys) (parse_digits-to_string a fit)

abbrev pub asked : ℕ → ℕ → RangeRequest
asked a b = record { present = true; satisfiable = true; first = a; last = b }

-- Of a content that is not empty, the bytes from `a` to `b`, `b` itself included and cut at the end,
-- from `a` on, and the last `n` bytes are asked for by `bytes=a-b`, `bytes=a-` and `bytes=-n`, where
-- the first byte is there and the numbers fit an int64_t; a range that starts behind the
-- content is present and not satisfiable.
pub parse_range_header-written :
    (size a b n : ℕ)
    → 0 < size
    → a < 2 ^ 63
    → b < 2 ^ 63
    → n < 2 ^ 63
    → a ≤ b
    → 0 < n
    → (a < size
        → parse_range_header (some (codes "bytes=" ++ from_to a b)) (pos size)
          ≡ some (asked a (min b (size - 1))))
      × (a < size
          → parse_range_header (some (codes "bytes=" ++ from_on a)) (pos size)
            ≡ some (asked a (size - 1)))
      × (parse_range_header (some (codes "bytes=" ++ last_bytes n)) (pos size)
          ≡ some (asked (size - n) (size - 1)))
      × (size ≤ a
          → (r : RangeRequest) × (parse_range_header
                (some (codes "bytes=" ++ from_to a b))
                (pos size)
              ≡ some r)
            × (r.present ≡ true)
            × (r.satisfiable ≡ false))
unfolding bounded_range suffix_range last_of
parse_range_header-written size a b n full fa fb fn h k =
    let last : last_of size (to_string b) ≡ number b =
      last_of-full size (to_string b) (to_string-nonempty b) ∙ parse_digits-to_string b fb in
    let closed : parse_range_header (some (codes "bytes=" ++ from_to a b)) (pos size)
        ≡ some (judged size a (min b (size - 1))) =
      first_lem size a (to_string b) full fa (to_string-IsDigit b)
      ∙ ap (bounded_range size a) last in
    let some_bytes : (n == 0) ≡ false = ground arith in
    (
      λ inside. closed ∙ ap some (judged-good size a (min b (size - 1)) (omega arith) inside),
      λ inside.
          first_lem size a [] full fa tt
          ∙ ap some (
              ap (judged size a) {x = min (size - 1) (size - 1)} {y = size - 1} (omega arith)
              ∙ judged-good size a (size - 1) (omega arith) inside),
      value_lem size [] (to_string n) full tt (to_string-IsDigit n)
          ∙ dash_range-suffix size (to_string n) (to_string-nonempty n)
          ∙ ap (suffix_range size) (parse_digits-to_string n fn)
          ∙ rw some_bytes
              (ap some (judged-good size (size - n) (size - 1) (omega arith) (omega arith))),
      λ outside. (
        judged size a (min b (size - 1)),
        closed,
        ap (λ (r : RangeRequest). r.present) (judged-bad size a (min b (size - 1)) outside),
        ap (λ (r : RangeRequest). r.satisfiable) (judged-bad size a (min b (size - 1)) outside),
      ),
    )
