-- ===== src/Http2/Hpack/Integer/Bounds.antt =====
-- `read_integer` on any input.
use libnhttp.Base.{
  ℕ, ◌+◌, ◌*◌, ◌%◌, ◌^◌, ◌≤◌, ◌<◌, ◌≡◌, refl, ap, ◌∙◌, [], ◌∷◌, ◌++◌, arith, u8, u64, bit_and,
  Bytes, ltb, ◌==◌, Bool-cases, inl, inr, some, length, low_mask, ◌<<<◌,
}
use libnhttp.Base.Bits.{low_seven, top_bit}
use libnhttp.Http2.Hpack.Reader.{BitReader}
use libnhttp.Http2.Hpack.Integer.{read_groups, read_integer}
use libnhttp.Http2.Hpack.Integer.Groups.{read_more}

read_groups_used :
    (bs : Bytes) (value m j v : ℕ) (r : BitReader)
    → m ≡ 7 * j
    → j ≤ 9
    → read_groups bs value m ≡ some (v, r)
    → (used : Bytes) × (bs ≡ used ++ r.ahead)
      × (1 ≤ length used)
      × (length used + j ≤ 10)
      × (v < 2 ^ 64)
unfolding read_groups
read_groups_used [] value m j v r hm hj e = cc
read_groups_used (b ∷ bs) value m j v r hm hj e = elim (Bool-cases (bit_and b 0x80 == 0)) [
  | inl last ↦ (b ∷ [], ground arith, omega arith, omega arith, ground arith)
  | inr more ↦ elim (Bool-cases (ltb 63 (m + 7))) [
    | inl long ↦ ground arith
    | inr short ↦
        let (used, same, one, ten, fits) =
          read_groups_used bs (u64 (value + u64 (bit_and b 0x7f <<< m))) (m + 7) (j + 1) v r
            (omega arith) (ground arith) (rw (more, short) at e) in
        (b ∷ used, ap (◌∷◌ b) same, omega arith, omega arith, fits)
  ]
]

-- An integer that was read is below 2 ^ 64 and took ten bytes at most behind its first one; the
-- reader stands right behind them.
pub read_integer_used :
    (r r' : BitReader) (p v : ℕ)
    → read_integer r p ≡ some (v, r')
    → (used : Bytes) × (r.ahead ≡ used ++ r'.ahead) × (length used ≤ 10) × (v < 2 ^ 64)
unfolding read_integer
read_integer_used r r' p v e =
    let mask : ℕ = u8 (low_mask p) in
    let value : ℕ = bit_and r.before mask in
    elim (Bool-cases (ltb value mask)) [
      | inl small ↦ ([], ground arith, omega arith, ground arith)
      | inr big ↦
          let (used, same, one, ten, fits) =
            read_groups_used r.ahead value 0 0 v r' refl (omega arith) (rw big at e) in
          (used, same, omega arith, fits)
    ]

-- Nine zero groups leave the value as it is.
read_zero :
    (value m : ℕ) (rest : Bytes)
    → value < 2 ^ 64
    → m ≤ 56
    → read_groups (0x80 ∷ rest) value m ≡ read_groups rest value (m + 7)
read_zero value m rest h k =
    read_more 0 value m rest (omega arith) k (omega arith)
    ∙ ap (λ (t : ℕ). read_groups rest t (m + 7)) (omega arith)

read_tenth :
    (value x : ℕ) (rest : Bytes)
    → value < 2 ^ 63
    → x < 128
    → read_groups (x ∷ rest) value 63
      ≡ some (value + x % 2 * 2 ^ 63, record { before = x; ahead = rest })
unfolding read_groups
read_tenth value x rest h k = ground (arith, low_seven x, top_bit x)

-- Nine groups of zeros and a tenth group `x` below 128 that ends the integer are taken on top
-- of a value below 2 ^ 63: the tenth is shifted by 63 bits, and all but its lowest bit is cut
-- off, although the integer has more than 64 bits where `x` is 2 or more.
pub read_groups_wraps :
    (value x : ℕ) (rest : Bytes)
    → value < 2 ^ 63
    → x < 128
    → read_groups (0x80 ∷ 0x80 ∷ 0x80 ∷ 0x80 ∷ 0x80 ∷ 0x80 ∷ 0x80 ∷ 0x80 ∷ 0x80 ∷ x ∷ rest) value 0
      ≡ some (value + x % 2 * 2 ^ 63, record { before = x; ahead = rest })
read_groups_wraps value x rest h k =
    let start : value < 2 ^ 64 = omega arith in
    read_zero value 0 _ start (omega arith)
    ∙ read_zero value 7 _ start (omega arith)
    ∙ read_zero value 14 _ start (omega arith)
    ∙ read_zero value 21 _ start (omega arith)
    ∙ read_zero value 28 _ start (omega arith)
    ∙ read_zero value 35 _ start (omega arith)
    ∙ read_zero value 42 _ start (omega arith)
    ∙ read_zero value 49 _ start (omega arith)
    ∙ read_zero value 56 _ start (omega arith)
    ∙ read_tenth value x rest h k
