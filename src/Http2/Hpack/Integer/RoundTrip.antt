-- ===== src/Http2/Hpack/Integer/RoundTrip.antt =====
-- `read_integer` undoes `write_integer`.
use native.Mathlib.Nat.{mod-eq_of_lt, pow-le-pow_right, add-mul-mod_self_left}
use libnhttp.Base.{
  ℕ, ◌+◌, ◌-◌, ◌*◌, ◌%◌, ◌^◌, ◌≤◌, ◌<◌, ◌≡◌, refl, ap, ◌∙◌, [], ◌∷◌, ◌++◌, arith, append_assoc, u8,
  bit_and, bit_or, Bytes, ltb, false, Bool-cases, inl, inr, some, if◌then◌else◌,
}
use libnhttp.Base.Bits.{two_pow_pos, bit_and_mask, bit_or_fields}
use libnhttp.Base.Order.{lt_wf}
use libnhttp.Http2.Hpack.Integer.{read_integer, write_integer}
use libnhttp.Http2.Hpack.Integer.Groups.{septets, write_groups-septets, read_groups-septets}

-- What `write_integer` appends: a byte that joins the pattern and the prefix, and the groups.
unfoldable pub first_byte : ℕ → ℕ → ℕ → ℕ
first_byte value p q = if ltb value (2 ^ p - 1) then q * 2 ^ p + value else q * 2 ^ p + (2 ^ p - 1)

pub groups : ℕ → ℕ → Bytes
groups value p = if ltb value (2 ^ p - 1) then [] else septets 9 (value - (2 ^ p - 1))

-- The prefix has 1 to 8 bits, and the pattern stands above it in the byte.
pub record IsPrefix (p q : ℕ) : Type 0 where
  pub low : 1 ≤ p
  pub high : p ≤ 8
  pub fits : q * 2 ^ p + (2 ^ p - 1) < 256

mask_is_byte : (p q : ℕ) → IsPrefix p q → u8 (2 ^ p - 1) ≡ 2 ^ p - 1
mask_is_byte p q v =
    let width : 2 ^ p ≤ 2 ^ 8 = pow-le-pow_right (omega arith) v.high in omega arith

-- The prefix under the pattern.
join_prefix : (x p q : ℕ) → IsPrefix p q → x < 2 ^ p → u8 (bit_or (q * 2 ^ p) x) ≡ q * 2 ^ p + x
join_prefix x p q v h = omega (arith, bit_or_fields p q x h, v.fits)

split_prefix : (x p q : ℕ) → x < 2 ^ p → bit_and (q * 2 ^ p + x) (2 ^ p - 1) ≡ x
split_prefix x p q h =
    bit_and_mask p (q * 2 ^ p + x)
    ∙ ap (λ (t : ℕ). t % 2 ^ p) {y = x + 2 ^ p * q} (omega arith)
    ∙ add-mul-mod_self_left x (2 ^ p) q
    ∙ mod-eq_of_lt h

pub write_integer_lem :
    (out : Bytes) (value p q : ℕ)
    → IsPrefix p q
    → value < 2 ^ 64
    → write_integer out value p (q * 2 ^ p) ≡ out ++ (first_byte value p q ∷ groups value p)
unfolding write_integer first_byte groups
write_integer_lem out value p q v h =
    let max : ℕ = 2 ^ p - 1 in
    let power = two_pow_pos p in
    rw (mask_is_byte p q v) (elim (Bool-cases (ltb value max)) [
      | inl small ↦
          let width : 2 ^ p ≤ 2 ^ 8 = pow-le-pow_right (omega arith) v.high in
          let byte : u8 value ≡ value = ground arith in
          rw (small, byte, join_prefix value p q v (ground arith))
      | inr big ↦
          rw (big, join_prefix max p q v (omega (arith, power)))
            (write_groups-septets 9 _ (value - max) (lt_wf.apply (value - max)) (omega arith)
              ∙ append_assoc out ((q * 2 ^ p + max) ∷ []) (septets 9 (value - max)))
    ])

-- A reader that has just taken the first byte of a written integer reads the integer, and stands
-- behind it.
pub read-write_integer :
    (value p q : ℕ) (rest : Bytes)
    → IsPrefix p q
    → value < 2 ^ 64
    → (b : ℕ) × (read_integer
          (record { before = first_byte value p q; ahead = groups value p ++ rest })
          p
        ≡ some (value, record { before = b; ahead = rest }))
unfolding read_integer first_byte groups
read-write_integer value p q rest v h =
    let max : ℕ = 2 ^ p - 1 in
    let power = two_pow_pos p in
    rw (mask_is_byte p q v) (elim (Bool-cases (ltb value max)) [
      | inl small ↦
          rw (small, split_prefix value p q (ground arith), small) (q * 2 ^ p + value, refl)
      | inr big ↦
          let total : max + (value - max) * 1 ≡ value = ground arith in
          let equal : ltb max max ≡ false = ground arith in
          let (b, back) =
            read_groups-septets 9 0 (value - max) max 0 rest refl (omega arith) (omega arith)
              (omega (arith, h, total)) in
          rw (big, split_prefix max p q (omega (arith, power)))
            (
              b,
              rw equal (back ∙ ap (λ (t : ℕ). some (t, record { before = b; ahead = rest })) total),
            )
    ])

pub read_integer_zero :
    (ahead : Bytes)
    → read_integer (record { before = 0; ahead = ahead }) 4
      ≡ some (0, record { before = 0; ahead = ahead })
unfolding read_integer
read_integer_zero ahead = refl

-- An integer below 2 ^ 64 that `write_integer` writes with a pattern above its prefix is a first
-- byte and the bytes behind it, and a reader that has taken the first one reads the integer and
-- stands behind it.
pub read_integer-write_integer :
    (value p q : ℕ) (rest : Bytes)
    → IsPrefix p q
    → value < 2 ^ 64
    → (first : ℕ) × (tail : Bytes) × (b : ℕ) × (write_integer [] value p (q * 2 ^ p) ≡ first ∷ tail)
      × (read_integer (record { before = first; ahead = tail ++ rest }) p
          ≡ some (value, record { before = b; ahead = rest }))
read_integer-write_integer value p q rest v h =
    let (b, back) = read-write_integer value p q rest v h in
    (first_byte value p q, groups value p, b, write_integer_lem [] value p q v h, back)
