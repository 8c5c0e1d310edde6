-- ===== src/Protocol/Chunked/RoundTrip.antt =====
-- The size in a chunk header is read back from its line.
use libnhttp.Base.{
  All, All-append, not, ◌≢◌, ℕ, zero, suc, ◌+◌, ◌*◌, ◌/◌, ◌%◌, ◌^◌, ◌<◌, ◌≡◌, refl, sym, ap, ◌∙◌,
  [], ◌∷◌, ◌++◌, arith, append_assoc, append-nil, u64, bit_and, Bytes, ltb, ◌==◌, ==_iff, Bool,
  true, false, ◌||◌, Bool-cases, Option-cases, inl, inr, Option, some, none, if◌then◌else◌, codes,
}
use libnhttp.Base.Bits.{bit_and_mask, two_pow_add, holds_below, holds_below-at}
use libnhttp.Protocol.Chunked.{
  hex_digit, reverse, hex_loop, format_chunk_header, digit_value, read_digits, chunk_size,
}

-- The digits of a number, the highest first.
digits : ℕ → ℕ → Bytes
digits zero v = []
digits (suc fuel) v = if ltb 0 v then digits fuel (v / 16) ++ (hex_digit (v % 16) ∷ []) else []

reverse-append : (xs ys : Bytes) → reverse (xs ++ ys) ≡ reverse ys ++ reverse xs
unfolding reverse
reverse-append [] ys = sym (append-nil (reverse ys))
reverse-append (x ∷ xs) ys =
    ap (λ zs. zs ++ (x ∷ [])) (reverse-append xs ys)
    ∙ append_assoc (reverse ys) (reverse xs) (x ∷ [])

reverse-hex_loop :
    (fuel v : ℕ) (hex : Bytes) → reverse (hex_loop fuel v hex) ≡ digits fuel v ++ reverse hex
unfolding hex_loop digits reverse
reverse-hex_loop zero v hex = refl
reverse-hex_loop (suc fuel) v hex = elim (Bool-cases (ltb 0 v)) [
  | inl more ↦
      let digit : ℕ = hex_digit (v % 16) in
      let low : bit_and v 0xf ≡ v % 16 = bit_and_mask 4 v in
      rw (more, low)
        (reverse-hex_loop fuel (v / 16) (hex ++ (digit ∷ []))
          ∙ ap (λ zs. digits fuel (v / 16) ++ zs) (reverse-append hex (digit ∷ []))
          ∙ sym (append_assoc (digits fuel (v / 16)) (digit ∷ []) (reverse hex)))
  | inr last ↦ rw last
]

judge : ℕ → Option ℕ → Bool
judge d none = false
judge d (some v) = v == d

reads_back : ℕ → Bool
reads_back d = judge d (digit_value (hex_digit d))

digit_value-hex_digit : (d : ℕ) → d < 16 → digit_value (hex_digit d) ≡ some d
unfolding reads_back holds_below digit_value judge
digit_value-hex_digit d h =
    let all : reads_back d ≡ true = holds_below-at reads_back 16 d h refl in
    elim (Option-cases (digit_value (hex_digit d))) [
      | inl bad ↦ absurd (cc (sym (ap (judge d) bad) ∙ all))
      | inr (v, found) ↦ found ∙ ap some ((==_iff v d).0 (sym (ap (judge d) found) ∙ all))
    ]

or_true : (b : Bool) → (b || true) ≡ true
or_true true = refl
or_true false = refl

or_false : (b : Bool) → b ≡ (b || false)
or_false true = refl
or_false false = refl

read_digits-digit :
    (v : ℕ) (rest : Bytes) (any : Bool)
    → v < 2 ^ 64
    → read_digits (hex_digit (v % 16) ∷ rest) (v / 16) any ≡ read_digits rest v true
unfolding read_digits
read_digits-digit v rest any h =
    let whole : u64 (u64 (v / 16 * 16) + v % 16) ≡ v = omega arith in
    rw (digit_value-hex_digit (v % 16) (omega arith), read_digits)
      (ap (λ (s : ℕ). read_digits rest s true) whole)

read_digits_none :
    (v : ℕ) (rest : Bytes) (any : Bool)
    → v ≡ 0
    → read_digits rest 0 any ≡ read_digits rest v (any || ltb 0 v)
read_digits_none v rest any e =
    let stays : ltb 0 v ≡ false = ground arith in
    rw (stays, e) (ap (read_digits rest 0) (or_false any))

read_digits-digits :
    (fuel v : ℕ) (rest : Bytes) (any : Bool)
    → v < 2 ^ (4 * fuel)
    → v < 2 ^ 64
    → read_digits (digits fuel v ++ rest) 0 any ≡ read_digits rest v (any || ltb 0 v)
unfolding digits
read_digits-digits zero v rest any h k = read_digits_none v rest any (omega arith)
read_digits-digits (suc fuel) v rest any h k = elim (Bool-cases (ltb 0 v)) [
  | inl more ↦
      let front : Bytes = digits fuel (v / 16) in
      let digit : ℕ = hex_digit (v % 16) in
      let wide : 2 ^ (4 * suc fuel) ≡ 2 ^ (4 * fuel) * 2 ^ 4 =
        ap (λ (e : ℕ). 2 ^ e) {y = 4 * fuel + 4} (omega arith) ∙ two_pow_add (4 * fuel) 4 in
      rw (more, or_true any)
        (ap (λ bytes. read_digits bytes 0 any) (append_assoc front (digit ∷ []) rest)
          ∙ read_digits-digits fuel (v / 16) (digit ∷ rest) any (omega (arith, wide)) (omega arith)
          ∙ read_digits-digit v rest _ k)
  | inr last ↦
      let nothing : 0 ≡ v = ground arith in
      rw last
        (ap (λ (n : ℕ). read_digits rest n any) nothing ∙ ap (read_digits rest v) (or_false any))
]

-- No digit is a line feed.
hex_digit-ne : (d : ℕ) → d < 16 → hex_digit d ≢ 10
unfolding holds_below
hex_digit-ne d h e =
    let other : (hex_digit d == 10) ≡ false =
      differ (hex_digit d == 10) (holds_below-at (λ k. not (hex_digit k == 10)) 16 d h refl) in
    absurd (ground (arith, other, e))
  where
    differ : (b : Bool) → not b ≡ true → b ≡ false
    differ true k = absurd (cc)
    differ false k = refl

digits-in_line : (fuel v : ℕ) → All (λ x. x ≢ 10) (digits fuel v)
unfolding digits
digits-in_line zero v = tt
digits-in_line (suc fuel) v = elim (Bool-cases (ltb 0 v)) [
  | inl more ↦ rw more (
      All-append (λ x. x ≢ 10) (digits fuel (v / 16)) (hex_digit (v % 16) ∷ [])
        (digits-in_line fuel (v / 16)) (hex_digit-ne (v % 16) (omega arith), tt))
  | inr last ↦ rw last tt
]

-- A chunk header is a line without a line feed, and its end.
pub record HeaderLine (n : ℕ) : Type 0 where
  pub line : Bytes
  pub text : format_chunk_header n ≡ line ++ codes "\r\n"
  pub size : chunk_size line ≡ some n
  pub in_line : All (λ x. x ≢ 10) line

pub chunk_line : (n : ℕ) → n < 2 ^ 64 → HeaderLine n
unfolding format_chunk_header chunk_size read_digits digit_value reverse
chunk_line n h = elim (Bool-cases (n == 0)) [
  | inl empty ↦ record {
    line = 48 ∷ [];
    text = rw empty;
    size = ap some {y = n} (ground arith);
    in_line = (omega arith, tt);
  }
  | inr full ↦
      let digits_of : Bytes = digits 16 n in
      let positive : ltb 0 n ≡ true = ground arith in
      let read : read_digits digits_of 0 false ≡ (n, true) =
        ap (λ bytes. read_digits bytes 0 false) (sym (append-nil digits_of))
        ∙ read_digits-digits 16 n [] false h h
        ∙ ap (λ (b : Bool). (n, b)) positive in
      record {
        line = digits_of;
        text =
            rw full (
              ap (λ bytes. bytes ++ codes "\r\n")
                (reverse-hex_loop 16 n [] ∙ append-nil digits_of));
        size = ap (λ r. if r.1 then some r.0 else none) read;
        in_line = digits-in_line 16 n;
      }
]

-- The header of a chunk of `n` bytes is a line and the line's end, and the line is read as `n`,
-- for every `n` that fits a size_t.
pub chunk_size-format_chunk_header :
    (n : ℕ)
    → n < 2 ^ 64
    → (line : Bytes) × (format_chunk_header n ≡ line ++ codes "\r\n") × (chunk_size line ≡ some n)
chunk_size-format_chunk_header n h = let l = chunk_line n h in (l.line, l.text, l.size)
