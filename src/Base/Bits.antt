-- ===== src/Base/Bits.antt =====
-- Laws of `&`, `|` and `^` at variables: masks, disjoint fields, and `^` undone.
use Prim.Native.Nat.{ℕ, zero, suc, ◌+◌, ◌-◌, ◌*◌, ◌/◌, ◌%◌, ◌^◌, ◌≤◌, ◌<◌, min, max, digits}
use Prim.Native.Nat.{
  bit_and, bit_or, bit_xor, bit_and-bitwise, bit_or-bitwise, bit_xor-bitwise, differ,
}
use mathlib.Core.Path.{◌≡◌, refl, sym, ap, ◌∙◌}
use native.Mathlib.Nat.{pow-suc, one-le-pow, le_refl, div-add-mod, mod-lt, mod-eq_of_lt}
use native.Mathlib.Nat.{add-mul-mod_self_left, div-div-eq-div-mul, mul_comm}
use mathlib.Core.Bool.{Bool, true, ◌&&◌}
use native.Mathlib.Decide.{ℕ_discrete}
use libnhttp.Base.Tests.{◌==◌, ==_iff}
use native.Mathlib.Omega.{arith}

-- The recursion on digits with its count dropped: a count that suffices may grow by any `d`.
module _ (z : ℕ → ℕ) (f : ℕ → ℕ → ℕ) where
  one_more : (n a b : ℕ) → a ≤ n → digits z f (suc n) a b ≡ digits z f n a b
  one_more zero zero b h = refl
  one_more zero (suc a) b h = elim h [ ]
  one_more (suc n) zero b h = refl
  one_more (suc n) (suc a) b h = omega (arith, one_more n (suc a / 2) (b / 2) (omega arith))

  any_more : (d n a b : ℕ) → a ≤ n → digits z f (n + d) a b ≡ digits z f n a b
  any_more zero n a b h = ap (λ (m : ℕ). digits z f m a b) (omega arith)
  any_more (suc d) n a b h =
      let shifted : n + suc d ≡ suc n + d = omega arith in
      ap (λ (m : ℕ). digits z f m a b) shifted
      ∙ any_more d (suc n) a b (omega arith)
      ∙ one_more n a b h

  -- The lowest digit split off.
  digits_step :
      (a b : ℕ)
      → digits z f (suc a) (suc a) b
        ≡ digits z f (suc a / 2) (suc a / 2) (b / 2) * 2 + f (suc a % 2) (b % 2)
  digits_step a b =
      let q : ℕ = suc a / 2 in
      let grown : q + (a - q) ≡ a = omega arith in
      let eq : digits z f a q (b / 2) ≡ digits z f q q (b / 2) =
        ap (λ (m : ℕ). digits z f m q (b / 2)) (sym grown)
        ∙ any_more (a - q) q q (b / 2) (le_refl q) in
      omega (arith, eq)

and_step : (a b : ℕ) → bit_and a b ≡ bit_and (a / 2) (b / 2) * 2 + min (a % 2) (b % 2)
and_step zero b = simp bit_and-bitwise (omega arith)
and_step (suc a) b = simp bit_and-bitwise (digits_step (λ y. 0) min a b)

or_step : (a b : ℕ) → bit_or a b ≡ bit_or (a / 2) (b / 2) * 2 + max (a % 2) (b % 2)
or_step zero b = simp bit_or-bitwise (omega arith)
or_step (suc a) b = simp bit_or-bitwise (digits_step (λ y. y) max a b)

xor_step : (a b : ℕ) → bit_xor a b ≡ bit_xor (a / 2) (b / 2) * 2 + differ (a % 2) (b % 2)
xor_step zero b = simp bit_xor-bitwise (omega arith)
xor_step (suc a) b = simp bit_xor-bitwise (digits_step (λ y. y) differ a b)

and_zero_below : (n a : ℕ) → a < n → bit_and a 0 ≡ 0
and_zero_below zero a h = elim h [ ]
and_zero_below (suc n) zero h = refl
and_zero_below (suc n) (suc a) h =
    omega (arith, and_step (suc a) 0, and_zero_below n (suc a / 2) (omega arith))

or_zero_below : (n a : ℕ) → a < n → bit_or a 0 ≡ a
or_zero_below zero a h = elim h [ ]
or_zero_below (suc n) zero h = refl
or_zero_below (suc n) (suc a) h =
    omega (arith, or_step (suc a) 0, or_zero_below n (suc a / 2) (omega arith))

mod_double : (a p : ℕ) → 0 < p → a % (p * 2) ≡ a / 2 % p * 2 + a % 2
mod_double a p h =
    let r : ℕ = a / 2 % p * 2 + a % 2 in
    let whole : a ≡ r + (p * 2) * (a / 2 / p) =
      omega (arith, ap (λ (t : ℕ). t * 2) (div-add-mod (a / 2) p)) in
    let small : r < p * 2 = omega (arith, mod-lt (a / 2) {m = p} h) in
    ap (λ (t : ℕ). t % (p * 2)) whole
    ∙ add-mul-mod_self_left r (p * 2) (a / 2 / p)
    ∙ mod-eq_of_lt small

-- A mask of `k` low bits keeps the remainder by `2 ^ k`.
pub bit_and_mask : (k a : ℕ) → bit_and a (2 ^ k - 1) ≡ a % 2 ^ k
bit_and_mask zero a = omega (arith, and_zero_below (suc a) a (le_refl _))
bit_and_mask (suc k) a = omega (
  arith,
  and_step a (2 ^ suc k - 1),
  pow-suc 2 k,
  one-le-pow k 2 (omega arith),
  ap (λ (t : ℕ). a % t) (pow-suc 2 k),
  mod_double a (2 ^ k) (one-le-pow k 2 (omega arith)),
  ap (λ (t : ℕ). bit_and (a / 2) t) {x = (2 ^ suc k - 1) / 2} {y = 2 ^ k - 1}
      (omega (arith, pow-suc 2 k)),
  bit_and_mask k (a / 2),
)

-- `x | r` is a sum when `x` ends in `k` zeros and `r` fits `k` bits.
pub bit_or_fields : (k q r : ℕ) → r < 2 ^ k → bit_or (q * 2 ^ k) r ≡ q * 2 ^ k + r
bit_or_fields zero q r h =
    let r_zero : r ≡ 0 = omega arith in
    rw r_zero (omega (arith, or_zero_below (suc (q * 1)) (q * 1) (le_refl _)))
bit_or_fields (suc k) q r h =
    let even : q * 2 ^ suc k ≡ q * 2 ^ k * 2 = omega (arith, ap (λ (t : ℕ). q * t) (pow-suc 2 k)) in
    rw even (
      omega (
        arith,
        or_step (q * 2 ^ k * 2) r,
        ap (λ (t : ℕ). bit_or t (r / 2)) {x = q * 2 ^ k * 2 / 2} {y = q * 2 ^ k} (omega arith),
        bit_or_fields k q (r / 2) (omega (arith, pow-suc 2 k)),
      ))

-- `&` by a mask that ends in `k` zeros looks only at the bits above them.
pub bit_and_shifted : (k a m : ℕ) → bit_and a (m * 2 ^ k) ≡ bit_and (a / 2 ^ k) m * 2 ^ k
bit_and_shifted zero a m =
    let same : m * 1 ≡ m = omega arith in
    let whole : a / 1 ≡ a = omega arith in rw (same, whole) (omega arith)
bit_and_shifted (suc k) a m =
    let even : m * 2 ^ suc k ≡ m * 2 ^ k * 2 = omega (arith, ap (λ (t : ℕ). m * t) (pow-suc 2 k)) in
    let halves : a / 2 ^ suc k ≡ a / 2 / 2 ^ k =
      ap (λ (t : ℕ). a / t) (pow-suc 2 k ∙ mul_comm (2 ^ k) 2)
      ∙ sym (div-div-eq-div-mul a 2 (2 ^ k)) in
    let half_mask : m * 2 ^ k * 2 / 2 ≡ m * 2 ^ k = omega arith in
    rw (even, halves)
      (omega (
        arith,
        and_step a (m * 2 ^ k * 2),
        ap (bit_and (a / 2)) half_mask,
        bit_and_shifted k (a / 2) m,
        ap (λ (t : ℕ). bit_and (a / 2 / 2 ^ k) m * t) (pow-suc 2 k),
      ))

-- One digit of `^`.
differ_digits : (x y : ℕ) → x < 2 → y < 2 → (differ x y < 2) × (differ (differ x y) y ≡ x)
differ_digits zero zero h g = omega arith
differ_digits zero (suc zero) h g = omega arith
differ_digits zero (suc (suc y)) h g = absurd (omega arith)
differ_digits (suc zero) zero h g = omega arith
differ_digits (suc zero) (suc zero) h g = omega arith
differ_digits (suc zero) (suc (suc y)) h g = absurd (omega arith)
differ_digits (suc (suc x)) y h g = absurd (omega arith)

xor_split :
    (a b : ℕ)
    → (bit_xor a b / 2 ≡ bit_xor (a / 2) (b / 2)) × (bit_xor a b % 2 ≡ differ (a % 2) (b % 2))
xor_split a b =
    omega (arith, xor_step a b, differ_digits (a % 2) (b % 2) (omega arith) (omega arith))

-- `^` twice by the same key gives the value back.
xor_twice_below : (n a b : ℕ) → a < 2 ^ n → b < 2 ^ n → bit_xor (bit_xor a b) b ≡ a
xor_twice_below zero a b h g =
    let a_zero : a ≡ 0 = omega arith in let b_zero : b ≡ 0 = omega arith in rw (a_zero, b_zero)
xor_twice_below (suc n) a b h g = omega (
  arith,
  xor_step (bit_xor a b) b,
  ap (λ (t : ℕ). bit_xor t (b / 2)) (xor_split a b).0,
  ap (λ (t : ℕ). differ t (b % 2)) (xor_split a b).1,
  differ_digits (a % 2) (b % 2) (omega arith) (omega arith),
  xor_twice_below n (a / 2) (b / 2) (omega (arith, pow-suc 2 n)) (omega (arith, pow-suc 2 n)),
)

pub bit_xor-lt : (k a b : ℕ) → a < 2 ^ k → b < 2 ^ k → bit_xor a b < 2 ^ k
bit_xor-lt zero a b h g =
    let a_zero : a ≡ 0 = omega arith in
    let b_zero : b ≡ 0 = omega arith in rw (a_zero, b_zero) (omega arith)
bit_xor-lt (suc k) a b h g = omega (
  arith,
  pow-suc 2 k,
  xor_step a b,
  differ_digits (a % 2) (b % 2) (omega arith) (omega arith),
  bit_xor-lt k (a / 2) (b / 2) (omega (arith, pow-suc 2 k)) (omega (arith, pow-suc 2 k)),
)

pub bit_xor_twice : (a b : ℕ) → a < 256 → b < 256 → bit_xor (bit_xor a b) b ≡ a
bit_xor_twice a b h g = xor_twice_below 8 a b h g

-- Over a small range every value is checked by evaluation.
unfoldable pub holds_below : (ℕ → Bool) → ℕ → Bool
holds_below p zero = true
holds_below p (suc n) = holds_below p n && p n

pub holds_below-at : (p : ℕ → Bool) (n i : ℕ) → i < n → holds_below p n ≡ true → p i ≡ true
unfolding holds_below
holds_below-at p zero i h e = elim h [ ]
holds_below-at p (suc n) i h e = elim (ℕ_discrete i n) [
  | yes same ↦ rw same (ground arith)
  | no other ↦ holds_below-at p n i (omega arith) (ground arith)
]

-- The top bit of a byte.
pub low_seven : (b : ℕ) → bit_and b 0x7f ≡ b % 128
low_seven b = bit_and_mask 7 b

pub top_bit : (b : ℕ) → bit_and b 0x80 ≡ b / 128 % 2 * 128
top_bit b = omega (arith, bit_and_shifted 7 b 1, bit_and_mask 1 (b / 128))

pub set_top_bit : (b : ℕ) → b < 128 → bit_or b 0x80 ≡ b + 128
set_top_bit b h =
    (==_iff _ _).0
      (holds_below-at (λ n. bit_or n 0x80 == n + 128) 128 b h (unfold holds_below in refl))

-- Powers of two.
pub two_pow_pos : (k : ℕ) → 0 < 2 ^ k
two_pow_pos k = one-le-pow k 2 (omega arith)

pub two_pow_add : (a b : ℕ) → 2 ^ (a + b) ≡ 2 ^ a * 2 ^ b
two_pow_add a zero = let same : a + 0 ≡ a = omega arith in rw same (omega arith)
two_pow_add a (suc b) =
    let shifted : a + suc b ≡ suc (a + b) = omega arith in
    rw shifted
      (omega (arith, pow-suc 2 (a + b), two_pow_add a b, ap (λ (t : ℕ). 2 ^ a * t) (pow-suc 2 b)))
