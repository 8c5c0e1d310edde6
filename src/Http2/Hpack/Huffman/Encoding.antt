-- ===== src/Http2/Hpack/Huffman/Encoding.antt =====
-- The bits that `encode` writes: the codes of the characters, then ones up to the next byte.
use native.Mathlib.Nat.{mod-eq_of_lt, mul-le-mul, pow-le-pow_right, mod-lt}
use libnhttp.Base.{
  length-append, length, low_mask, ◌==◌, ◌&&◌, if◌then◌else◌, u64, bit_or, ltb, Bool, inr, inl, ℕ,
  zero, suc, ◌+◌, ◌-◌, ◌*◌, ◌/◌, ◌%◌, ◌^◌, ◌≤◌, ◌<◌, ◌≡◌, refl, sym, ap, ◌∙◌, List, [], ◌∷◌, ◌++◌,
  arith, append_assoc, append-nil, u8, bit_and, Bytes, IsByte, All, get_or, leb, Bool-cases,
}
use libnhttp.Base.Bits.{two_pow_pos, holds_below, holds_below-at, bit_and_mask, bit_or_fields}
use libnhttp.Http2.Hpack.Huffman.{shift_in, keep_pending, Packer, emit, pack, pack_all, pad, encode}
use libnhttp.Http2.Hpack.Huffman.Table.{HuffmanCode, huffman_table}
use libnhttp.Http2.Hpack.Huffman.Bits.{
  bits_of, bits_of-add, bits_of-mod, bits_of-join, bits_of_byte,
}

unfoldable pub all_bits : Bytes → List ℕ
all_bits [] = []
all_bits (b ∷ bs) = bits_of 8 b ++ all_bits bs

all_bits-append : (xs ys : Bytes) → all_bits (xs ++ ys) ≡ all_bits xs ++ all_bits ys
unfolding all_bits
all_bits-append [] ys = refl
all_bits-append (x ∷ xs) ys =
    rw (all_bits-append xs ys) (sym (append_assoc (bits_of 8 x) (all_bits xs) (all_bits ys)))

abbrev code_of : ℕ → HuffmanCode
code_of c = get_or huffman_table c (record { code = 0; bits = 0 })

unfoldable pub code_bits : ℕ → List ℕ
code_bits c = bits_of (code_of c).bits (code_of c).code

unfoldable pub text_bits : Bytes → List ℕ
text_bits [] = []
text_bits (c ∷ cs) = code_bits c ++ text_bits cs

-- What a packer has taken so far.
packed : Packer → List ℕ
packed p = all_bits p.encoded ++ bits_of p.bit_count p.bit_buffer

-- The loop moves whole bytes and loses no bit.
emit-packed : (fuel : ℕ) (p : Packer) → packed (emit fuel p) ≡ packed p
unfolding emit packed all_bits
emit-packed zero p = refl
emit-packed (suc fuel) p = elim (Bool-cases (leb 8 p.bit_count)) [
  | inl more ↦
      let c : ℕ = p.bit_count - 8 in
      let byte : ℕ = u8 (bit_and (p.bit_buffer / 2 ^ c) 0xff) in
      let cut : bits_of 8 byte ≡ bits_of 8 (p.bit_buffer / 2 ^ c) =
        ap (λ (t : ℕ). bits_of 8 (u8 t)) (bit_and_mask 8 (p.bit_buffer / 2 ^ c))
        ∙ bits_of_byte (p.bit_buffer / 2 ^ c % 256)
        ∙ bits_of_byte (p.bit_buffer / 2 ^ c) in
      let whole : bits_of p.bit_count p.bit_buffer ≡ bits_of 8 byte ++ bits_of c p.bit_buffer =
        ap (λ (n : ℕ). bits_of n p.bit_buffer) {y = 8 + c} (ground arith)
        ∙ bits_of-add 8 c p.bit_buffer
        ∙ rw cut in
      let q : Packer = record {
        encoded = p.encoded ++ (byte ∷ []);
        bit_buffer = p.bit_buffer;
        bit_count = c;
      } in
      rw more (
        emit-packed fuel q
        ∙ rw (whole, all_bits-append p.encoded (byte ∷ []), append-nil (bits_of 8 byte))
            (append_assoc (all_bits p.encoded) (bits_of 8 byte) (bits_of c p.bit_buffer)))
  | inr done ↦ rw done
]

emit_rest :
    (fuel : ℕ) (p : Packer)
    → p.bit_count < 8 * fuel + 8
    → ((emit fuel p).bit_count < 8) × ((emit fuel p).bit_buffer ≡ p.bit_buffer)
unfolding emit
emit_rest zero p h = (omega arith, refl)
emit_rest (suc fuel) p h = elim (Bool-cases (leb 8 p.bit_count)) [
  | inl more ↦ rw more (emit_rest fuel _ (ground arith))
  | inr done ↦ rw done (ground arith, refl)
]

-- Every code fits its number of bits, and none is longer than 30.
fits_below : (c : ℕ) → c < 256 → ((code_of c).code < 2 ^ (code_of c).bits) × ((code_of c).bits ≤ 30)
fits_below c h =
    ground (arith, holds_below-at fits 256 c h (unfold holds_below huffman_table in refl))
  where
    fits : ℕ → Bool
    fits c = ltb (code_of c).code (2 ^ (code_of c).bits) && leb (code_of c).bits 30

pub record IsPacked (p : Packer) : Type 0 where
  pub short : p.bit_count < 8
  pub clean : p.bit_buffer < 2 ^ p.bit_count

-- The buffer and a code fit 64 bits side by side.
join_code :
    (p : Packer) (c : ℕ)
    → IsPacked p
    → c < 256
    → bit_or (u64 (p.bit_buffer * 2 ^ (code_of c).bits)) (code_of c).code
      ≡ p.bit_buffer * 2 ^ (code_of c).bits + (code_of c).code
join_code p c v h =
    let n : ℕ = (code_of c).bits in
    let buffer : p.bit_buffer ≤ 2 ^ 7 = omega (
      arith,
      v.clean,
      pow-le-pow_right {n = 2} (omega arith) {i = p.bit_count} {j = 7} (omega (arith, v.short)),
    ) in
    let width : 2 ^ n ≤ 2 ^ 30 = pow-le-pow_right (omega arith) (fits_below c h).1 in
    let room : p.bit_buffer * 2 ^ n ≤ 2 ^ 7 * 2 ^ 30 = mul-le-mul buffer width in
    let kept : u64 (p.bit_buffer * 2 ^ n) ≡ p.bit_buffer * 2 ^ n = mod-eq_of_lt (omega arith) in
    ap (λ (t : ℕ). bit_or t (code_of c).code) kept
    ∙ bit_or_fields n p.bit_buffer (code_of c).code (fits_below c h).0

shift_in-packed :
    (p : Packer) (c : ℕ) → IsPacked p → c < 256 → packed (shift_in c p) ≡ packed p ++ code_bits c
unfolding shift_in packed code_bits
shift_in-packed p c v h =
    let n : ℕ = (code_of c).bits in
    rw
      (
        join_code p c v h,
        bits_of-join p.bit_count n p.bit_buffer (code_of c).code (fits_below c h).0,
      )
      (sym (append_assoc (all_bits p.encoded) (bits_of p.bit_count p.bit_buffer) (code_bits c)))

pending_mask :
    (p : Packer)
    → bit_and p.bit_buffer (if p.bit_count == 0 then 0 else low_mask p.bit_count)
      ≡ p.bit_buffer % 2 ^ p.bit_count
pending_mask p = elim (Bool-cases (p.bit_count == 0)) [
  | inl none_left ↦
      let zero_count : p.bit_count ≡ 0 = ground arith in
      rw (none_left, zero_count) (bit_and_mask 0 p.bit_buffer)
  | inr some_left ↦ rw some_left (bit_and_mask p.bit_count p.bit_buffer)
]

keep_pending-packed : (p : Packer) → packed (keep_pending p) ≡ packed p
unfolding keep_pending packed
keep_pending-packed p = rw (pending_mask p) (
    ap (◌++◌ (all_bits p.encoded)) (bits_of-mod p.bit_count p.bit_count p.bit_buffer (omega arith)))

keep_pending-IsPacked : (p : Packer) → p.bit_count < 8 → IsPacked (keep_pending p)
unfolding keep_pending
keep_pending-IsPacked p h = record {
  short = h;
  clean = rw (pending_mask p) (mod-lt p.bit_buffer (two_pow_pos p.bit_count));
}

-- A character adds its code to the bits, and leaves less than a byte in the buffer.
pack-packed :
    (p : Packer) (c : ℕ)
    → IsPacked p
    → c < 256
    → (packed (pack c p) ≡ packed p ++ code_bits c) × IsPacked (pack c p)
unfolding pack
pack-packed p c v h = (
  keep_pending-packed (emit 4 (shift_in c p))
      ∙ emit-packed 4 (shift_in c p)
      ∙ shift_in-packed p c v h,
  keep_pending-IsPacked _
      (emit_rest 4 (shift_in c p)
        (unfold shift_in in omega (arith, v.short, (fits_below c h).1))).0,
)

pack_all-packed :
    (cs : Bytes) (p : Packer)
    → IsPacked p
    → All IsByte cs
    → (packed (pack_all cs p) ≡ packed p ++ text_bits cs) × IsPacked (pack_all cs p)
unfolding pack_all text_bits
pack_all-packed [] p v h = (sym (append-nil (packed p)), v)
pack_all-packed (c ∷ cs) p v (hc, hcs) =
    let (one, v') = pack-packed p c v hc in
    let (rest, v'') = pack_all-packed cs (pack c p) v' hcs in
    (rest ∙ rw one (append_assoc (packed p) (code_bits c) (text_bits cs)), v'')

unfoldable pub ones : ℕ → List ℕ
ones zero = []
ones (suc n) = 1 ∷ ones n

-- `0xff >> c` is a row of ones.
row_of_ones :
    (c : ℕ)
    → c < 8
    → (0xff / 2 ^ c ≡ 2 ^ (8 - c) - 1) × (bits_of (8 - c) (0xff / 2 ^ c) ≡ ones (8 - c))
unfolding ones bits_of
row_of_ones zero h = (refl, refl)
row_of_ones (suc zero) h = (refl, refl)
row_of_ones (suc (suc zero)) h = (refl, refl)
row_of_ones (suc (suc (suc zero))) h = (refl, refl)
row_of_ones (suc (suc (suc (suc zero)))) h = (refl, refl)
row_of_ones (suc (suc (suc (suc (suc zero))))) h = (refl, refl)
row_of_ones (suc (suc (suc (suc (suc (suc zero)))))) h = (refl, refl)
row_of_ones (suc (suc (suc (suc (suc (suc (suc zero))))))) h = (refl, refl)
row_of_ones (suc (suc (suc (suc (suc (suc (suc (suc n)))))))) h = absurd (omega arith)

pad-bits : (p : Packer) → IsPacked p → (n : ℕ) × (n < 8) × (all_bits (pad p) ≡ packed p ++ ones n)
unfolding pad packed all_bits
pad-bits p v = elim (Bool-cases (ltb 0 p.bit_count)) [
  | inl more ↦
      let c : ℕ = p.bit_count in
      let k : ℕ = 8 - c in
      let (row, row_bits) = row_of_ones c v.short in
      let r : ℕ = 0xff / 2 ^ c in
      let small : r < 2 ^ k = omega (arith, row, two_pow_pos k) in
      let last : bits_of 8 (u8 (bit_or (p.bit_buffer * 2 ^ k) r))
          ≡ bits_of c p.bit_buffer ++ ones k =
        bits_of_byte _
        ∙ ap (bits_of 8) (bit_or_fields k p.bit_buffer r small)
        ∙ ap (λ (n : ℕ). bits_of n (p.bit_buffer * 2 ^ k + r)) {y = c + k} (omega (arith, v.short))
        ∙ bits_of-join c k p.bit_buffer r small
        ∙ ap (◌++◌ (bits_of c p.bit_buffer)) row_bits in
      (
        k,
        ground arith,
        rw more (
            all_bits-append p.encoded _
            ∙ rw (last, append-nil (bits_of c p.bit_buffer ++ ones k))
                (sym (append_assoc (all_bits p.encoded) (bits_of c p.bit_buffer) (ones k)))),
      )
  | inr empty ↦
      let nothing : p.bit_count ≡ 0 = ground arith in
      (
        0,
        omega arith,
        rw empty (
            sym (append-nil (all_bits p.encoded))
            ∙ rw (nothing) (unfold bits_of ones in sym (append-nil (all_bits p.encoded ++ [])))),
      )
]

pub encode-bits :
    (cs : Bytes)
    → All IsByte cs
    → (n : ℕ) × (n < 8) × (all_bits (encode cs) ≡ text_bits cs ++ ones n)
unfolding encode
encode-bits cs h =
    let start : Packer = record { encoded = []; bit_buffer = 0; bit_count = 0 } in
    let (bits, v) =
      pack_all-packed cs start (record { short = omega arith; clean = omega arith }) h in
    let (n, short, end) = pad-bits (pack_all cs start) v in
    (
      n,
      short,
      end ∙ ap (λ (b : List ℕ). b ++ ones n) (bits ∙ unfold packed all_bits bits_of in refl),
    )

length-bits_of : (n v : ℕ) → length (bits_of n v) ≡ n
unfolding bits_of
length-bits_of zero v = refl
length-bits_of (suc n) v = ap suc (length-bits_of n v)

length-all_bits : (bs : Bytes) → length (all_bits bs) ≡ 8 * length bs
unfolding all_bits
length-all_bits [] = refl
length-all_bits (b ∷ bs) =
    omega (arith, length-append (bits_of 8 b) (all_bits bs), length-bits_of 8 b, length-all_bits bs)

length-text_bits : (cs : Bytes) → All IsByte cs → length (text_bits cs) ≤ 30 * length cs
unfolding text_bits code_bits
length-text_bits [] h = omega arith
length-text_bits (c ∷ cs) (hc, hcs) = omega (
  arith,
  length-append (code_bits c) (text_bits cs),
  length-bits_of (code_of c).bits (code_of c).code,
  (fits_below c hc).1,
  length-text_bits cs hcs,
)

length-ones : (n : ℕ) → length (ones n) ≡ n
unfolding ones
length-ones zero = refl
length-ones (suc n) = ap suc (length-ones n)

-- The encoding is at most four times as long as the text.
pub length-encode : (cs : Bytes) → All IsByte cs → length (encode cs) ≤ 4 * length cs
length-encode cs h =
    let (n, short, bits) = encode-bits cs h in
    omega (
      arith,
      ap length bits,
      length-all_bits (encode cs),
      length-append (text_bits cs) (ones n),
      length-ones n,
      length-text_bits cs h,
    )
