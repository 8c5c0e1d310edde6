-- ===== src/Http2/Hpack/Integer/Groups.antt =====
-- The bytes behind the prefix, in plain arithmetic: seven bits a byte, lowest first, with the top
-- bit set on every byte but the last.
use native.Mathlib.Nat.{div-add-mod}
use libnhttp.Base.{
  ℕ, zero, suc, ◌+◌, ◌*◌, ◌/◌, ◌%◌, ◌^◌, ◌≤◌, ◌<◌, ◌≡◌, ap, ◌∙◌, [], ◌∷◌, ◌++◌, arith, append_assoc,
  u64, bit_and, Bytes, leb, Bool-cases, inl, inr, some, if◌then◌else◌,
}
use mathlib.Core.WellFounded.{Acc}
use libnhttp.Base.Bits.{two_pow_add, low_seven, top_bit, set_top_bit}
use libnhttp.Http2.Hpack.Integer.{read_groups, write_groups}

-- `k` bytes at most before the last.
unfoldable pub septets : ℕ → ℕ → Bytes
septets zero v = v ∷ []
septets (suc k) v =
    let rest = septets k (v / 128) in if leb 128 v then (v % 128 + 128) ∷ rest else v ∷ []

pub write_groups-septets :
    (k : ℕ) (out : Bytes) (v : ℕ) (w : Acc ◌<◌ v)
    → v < 128 ^ suc k
    → write_groups out v w ≡ out ++ septets k v
unfolding write_groups septets
write_groups-septets zero out v (Acc.intro _ smaller) h = ground arith
write_groups-septets (suc k) out v (Acc.intro _ smaller) h = grind (
  arith,
  set_top_bit (v % 128),
  λ (w : Acc ◌<◌ (v / 128)).
      write_groups-septets k (out ++ ((v % 128 + 128) ∷ [])) (v / 128) w (omega arith),
  append_assoc out ((v % 128 + 128) ∷ []) (septets k (v / 128)),
)

-- One round of the loop, on a byte with the top bit set and on one without.
pub read_more :
    (g value m : ℕ) (rest : Bytes)
    → g < 128
    → m ≤ 56
    → value + g * 2 ^ m < 2 ^ 64
    → read_groups ((g + 128) ∷ rest) value m ≡ read_groups rest (value + g * 2 ^ m) (m + 7)
unfolding read_groups
read_more g value m rest hg hm fits =
    let low : bit_and (g + 128) 0x7f ≡ g = omega (arith, low_seven (g + 128)) in
    let top : bit_and (g + 128) 0x80 ≡ 128 = omega (arith, top_bit (g + 128)) in
    let sum : u64 (value + u64 (g * 2 ^ m)) ≡ value + g * 2 ^ m = omega arith in
    rw (low, top, sum) (ground arith)

read_last :
    (g value m : ℕ) (rest : Bytes)
    → g < 128
    → value + g * 2 ^ m < 2 ^ 64
    → read_groups (g ∷ rest) value m ≡ some (value + g * 2 ^ m, record { before = g; ahead = rest })
unfolding read_groups
read_last g value m rest hg fits = ground (arith, low_seven g, top_bit g)

split_septet : (v m : ℕ) → v * 2 ^ m ≡ v % 128 * 2 ^ m + v / 128 * 2 ^ (m + 7)
split_septet v m =
    let power : 2 ^ (m + 7) ≡ 2 ^ m * 128 = two_pow_add m 7 in
    omega (arith, ap (λ (t : ℕ). v / 128 * t) power, ap (λ (t : ℕ). t * 2 ^ m) (div-add-mod v 128))

-- Reading them back, with `v` still to come and `7 * j` bits read.
pub read_groups-septets :
    (k j v value m : ℕ) (rest : Bytes)
    → m ≡ 7 * j
    → j + k ≤ 9
    → v < 128 ^ suc k
    → value + v * 2 ^ m < 2 ^ 64
    → (b : ℕ) × (read_groups (septets k v ++ rest) value m
        ≡ some (value + v * 2 ^ m, record { before = b; ahead = rest }))
unfolding septets
read_groups-septets zero j v value m rest hm hj hv fits =
    (v, read_last v value m rest (omega arith) fits)
read_groups-septets (suc k) j v value m rest hm hj hv fits = elim (Bool-cases (leb 128 v)) [
  | inl big ↦
      let split = split_septet v m in
      let value' : ℕ = value + v % 128 * 2 ^ m in
      let total : value' + v / 128 * 2 ^ (m + 7) ≡ value + v * 2 ^ m = omega (arith, split) in
      let (b, tail) =
        read_groups-septets k (j + 1) (v / 128) value' (m + 7) rest (omega arith) (omega arith)
          (omega arith) (rw total fits) in
      rw big (
        b,
        read_more (v % 128) value m (septets k (v / 128) ++ rest) (omega arith) (omega arith)
              (omega (arith, split))
            ∙ tail
            ∙ ap (λ (t : ℕ). some (t, record { before = b; ahead = rest })) total,
      )
  | inr small ↦ rw small (v, read_last v value m rest (ground arith) fits)
]
