-- ===== src/Http2/Hpack/Integer.antt =====
-- The prefix integers of hpack.cpp: `hpack_decoder::read_integer` and
-- `hpack_encoder::write_integer`, on `uint64_t` values.
pub mod Groups
pub mod RoundTrip
pub mod Bounds
mod Runs
use libnhttp.Base.{
  ℕ, ◌+◌, ◌-◌, ◌/◌, ◌%◌, ◌<◌, ltb, ◌==◌, if◌then◌else◌, [], ◌∷◌, ◌++◌, Option, none, some, arith,
  Bytes, u8, u64, ◌<<<◌, low_mask, bit_and, bit_or, dec_le,
}
use libnhttp.Base.Order.{lt_wf}
use libnhttp.Http2.Hpack.Reader.{BitReader}
use mathlib.Core.Logic.{dite}
use mathlib.Core.WellFounded.{Acc}

-- The loop at the bytes that are ahead; `none` is the result false.
unfoldable pub read_groups : Bytes → ℕ → ℕ → Option (ℕ × BitReader)
read_groups [] value m = none
read_groups (b ∷ rest) value m =
    let value' = u64 (value + u64 (bit_and b 0x7f <<< m)) in
    let m' = m + 7 in
    let more = if ltb 63 m' then none else read_groups rest value' m' in
    if bit_and b 0x80 == 0 then some (value', record { before = b; ahead = rest }) else more

-- The byte before the position holds the prefix.
unfoldable pub read_integer : BitReader → ℕ → Option (ℕ × BitReader)
unfolding read_groups
read_integer r prefix_bits =
    let mask = u8 (low_mask prefix_bits) in
    let value = bit_and r.before mask in
    if ltb value mask then some (value, r) else read_groups r.ahead value 0

-- `while (value >= 128)`
pub write_groups : Bytes → (value : ℕ) → Acc ◌<◌ value → Bytes
write_groups out value (Acc.intro _ smaller) =
    dite (dec_le 128 value)
      (λ big.
        write_groups (out ++ (u8 (bit_or (value % 128) 0x80) ∷ [])) (value / 128)
          (smaller _ (omega arith)))
      (λ _. out ++ (u8 value ∷ []))

pub write_integer : Bytes → ℕ → ℕ → ℕ → Bytes
unfolding write_groups
write_integer out value prefix_bits prefix_pattern =
    let max_prefix = u8 (low_mask prefix_bits) in
    if ltb value max_prefix
    then out ++ (u8 (bit_or prefix_pattern (u8 value)) ∷ [])
    else write_groups (out ++ (u8 (bit_or prefix_pattern max_prefix) ∷ [])) (value - max_prefix)
        (lt_wf.apply (value - max_prefix))
