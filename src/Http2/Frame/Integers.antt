-- ===== src/Http2/Frame/Integers.antt =====
-- The big-endian integers of frame.cpp: what is written is read back.
use libnhttp.Base.{
  ℕ, ◌+◌, ◌*◌, ◌/◌, ◌%◌, ◌^◌, ◌<◌, ◌≡◌, ap, ◌∙◌, [], ◌∷◌, ◌++◌, some, arith, Bytes, u8, bit_and,
  bit_or,
}
use libnhttp.Base.Bits.{bit_and_mask, bit_or_fields}
use libnhttp.Http2.Frame.{write_u24, write_u32, write_u16, read_u24, read_u32, read_u16}

-- Two and more bytes joined by shifts and `|`.
join_two : (a b : ℕ) → b < 256 → bit_or (a * 2 ^ 8) b ≡ a * 256 + b
join_two a b hb = bit_or_fields 8 a b hb

join_three :
    (a b c : ℕ)
    → b < 256
    → c < 256
    → bit_or (bit_or (a * 2 ^ 16) (b * 2 ^ 8)) c ≡ a * 65536 + b * 256 + c
join_three a b c hb hc =
    let high : bit_or (a * 2 ^ 16) (b * 2 ^ 8) ≡ (a * 256 + b) * 2 ^ 8 =
      bit_or_fields 16 a (b * 2 ^ 8) (omega arith) ∙ omega arith in
    rw high (bit_or_fields 8 (a * 256 + b) c hc ∙ omega arith)

join_four :
    (a b c d : ℕ)
    → b < 256
    → c < 256
    → d < 256
    → bit_or (bit_or (bit_or (a * 2 ^ 24) (b * 2 ^ 16)) (c * 2 ^ 8)) d
      ≡ a * 16777216 + b * 65536 + c * 256 + d
join_four a b c d hb hc hd =
    let top : bit_or (a * 2 ^ 24) (b * 2 ^ 16) ≡ (a * 256 + b) * 2 ^ 16 =
      bit_or_fields 24 a (b * 2 ^ 16) (omega arith) ∙ omega arith in
    rw top (join_three (a * 256 + b) c d hc hd ∙ omega arith)

low_byte : (x : ℕ) → u8 (bit_and x 0xff) ≡ x % 256
low_byte x = omega (arith, bit_and_mask 8 x)

pub write_u16_lem : (out : Bytes) (v : ℕ) → write_u16 out v ≡ out ++ (v / 256 % 256 ∷ v % 256 ∷ [])
unfolding write_u16
write_u16_lem out v = rw (low_byte (v / 2 ^ 8), low_byte v)

pub write_u24_lem :
    (out : Bytes) (v : ℕ)
    → write_u24 out v ≡ out ++ (v / 65536 % 256 ∷ v / 256 % 256 ∷ v % 256 ∷ [])
unfolding write_u24
write_u24_lem out v = rw (low_byte (v / 2 ^ 16), low_byte (v / 2 ^ 8), low_byte v)

pub write_u32_lem :
    (out : Bytes) (v : ℕ)
    → write_u32 out v ≡ out ++ (v / 16777216 % 256 ∷ v / 65536 % 256 ∷ v / 256 % 256 ∷ v % 256 ∷ [])
unfolding write_u32
write_u32_lem out v =
    rw (low_byte (v / 2 ^ 24), low_byte (v / 2 ^ 16), low_byte (v / 2 ^ 8), low_byte v)

pub read_u16_lem :
    (a b : ℕ) (rest : Bytes) → a < 256 → b < 256 → read_u16 (a ∷ b ∷ rest) ≡ some (a * 256 + b)
unfolding read_u16
read_u16_lem a b rest ha hb = ap some (omega (arith, join_two a b hb))

pub read_u24_lem :
    (a b c : ℕ) (rest : Bytes)
    → b < 256
    → c < 256
    → read_u24 (a ∷ b ∷ c ∷ rest) ≡ some (a * 65536 + b * 256 + c)
unfolding read_u24
read_u24_lem a b c rest hb hc = ap some (join_three a b c hb hc)

pub read_u32_lem :
    (a b c d : ℕ) (rest : Bytes)
    → b < 256
    → c < 256
    → d < 256
    → read_u32 (a ∷ b ∷ c ∷ d ∷ rest) ≡ some (a * 16777216 + b * 65536 + c * 256 + d)
unfolding read_u32
read_u32_lem a b c d rest hb hc hd = ap some (join_four a b c d hb hc hd)
