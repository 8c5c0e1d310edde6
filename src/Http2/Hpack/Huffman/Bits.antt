-- ===== src/Http2/Hpack/Huffman/Bits.antt =====
-- Bit strings: a number of a given width as the list of its digits, highest first.
use libnhttp.Base.{
  ap₂, ℕ, zero, suc, ◌+◌, ◌-◌, ◌*◌, ◌/◌, ◌%◌, ◌^◌, ◌≤◌, ◌<◌, ◌≡◌, refl, sym, ap, ◌∙◌, List, [], ◌∷◌,
  ◌++◌, arith, u8,
}
use libnhttp.Base.Bits.{two_pow_pos, two_pow_add}
use native.Mathlib.Nat.{
  pow-suc, mul_comm, div-div-eq-div-mul, div-add-mod, add-mul-div_left, div-eq_of_lt, mod-eq_of_lt,
  add-mul-mod_self_left,
}

unfoldable pub bits_of : ℕ → ℕ → List ℕ
bits_of zero v = []
bits_of (suc n) v = v / 2 ^ n % 2 ∷ bits_of n v

-- The high bits, then the low ones.
pub bits_of-add : (a c v : ℕ) → bits_of (a + c) v ≡ bits_of a (v / 2 ^ c) ++ bits_of c v
unfolding bits_of
bits_of-add zero c v = ap (λ (n : ℕ). bits_of n v) (omega arith)
bits_of-add (suc a) c v =
    let shifted : suc a + c ≡ suc (a + c) = omega arith in
    let top : v / 2 ^ (a + c) ≡ v / 2 ^ c / 2 ^ a =
      ap (λ (t : ℕ). v / t) (two_pow_add a c ∙ mul_comm (2 ^ a) (2 ^ c))
      ∙ sym (div-div-eq-div-mul v (2 ^ c) (2 ^ a)) in
    rw shifted (rw (top, bits_of-add a c v))

-- A digit does not see multiples of a higher power.
digit_add : (x p t : ℕ) → 0 < p → (x + p * (2 * t)) / p % 2 ≡ x / p % 2
digit_add x p t h = omega (arith, add-mul-div_left x (2 * t) {y = p} h)

digit_mod : (n d v : ℕ) → v % 2 ^ (n + suc d) / 2 ^ n % 2 ≡ v / 2 ^ n % 2
digit_mod n d v =
    let m : ℕ = 2 ^ (n + suc d) in
    let q : ℕ = v / m in
    let power : m ≡ 2 ^ n * (2 * 2 ^ d) =
      two_pow_add n (suc d) ∙ ap (λ (t : ℕ). 2 ^ n * t) (pow-suc 2 d ∙ mul_comm (2 ^ d) 2) in
    let whole : v ≡ v % m + 2 ^ n * (2 * (2 ^ d * q)) =
      omega (arith, div-add-mod v m, ap (λ (t : ℕ). t * q) power) in
    sym
      (ap (λ (t : ℕ). t / 2 ^ n % 2) whole ∙ digit_add (v % m) (2 ^ n) (2 ^ d * q) (two_pow_pos n))

-- Only the bits that are asked for count.
pub bits_of-mod : (n m v : ℕ) → n ≤ m → bits_of n (v % 2 ^ m) ≡ bits_of n v
unfolding bits_of
bits_of-mod zero m v h = refl
bits_of-mod (suc n) m v h =
    let split : m ≡ n + suc (m - suc n) = omega arith in
    let top : v % 2 ^ m / 2 ^ n % 2 ≡ v / 2 ^ n % 2 =
      ap (λ (t : ℕ). v % 2 ^ t / 2 ^ n % 2) split ∙ digit_mod n (m - suc n) v in
    rw (top, bits_of-mod n m v (omega arith))

-- A number put behind another.
pub bits_of-join :
    (a b q r : ℕ) → r < 2 ^ b → bits_of (a + b) (q * 2 ^ b + r) ≡ bits_of a q ++ bits_of b r
bits_of-join a b q r h =
    let swapped : q * 2 ^ b + r ≡ r + 2 ^ b * q = omega arith in
    let high : (q * 2 ^ b + r) / 2 ^ b ≡ q =
      ap (λ (t : ℕ). t / 2 ^ b) swapped
      ∙ add-mul-div_left r q {y = 2 ^ b} (two_pow_pos b)
      ∙ omega (arith, div-eq_of_lt h) in
    let low : (q * 2 ^ b + r) % 2 ^ b ≡ r =
      ap (λ (t : ℕ). t % 2 ^ b) swapped ∙ add-mul-mod_self_left r (2 ^ b) q ∙ mod-eq_of_lt h in
    bits_of-add a b (q * 2 ^ b + r)
    ∙ ap₂ (λ (x y : List ℕ). x ++ y) (ap (bits_of a) high)
        (sym (bits_of-mod b b (q * 2 ^ b + r) (omega arith)) ∙ ap (bits_of b) low)

-- The byte that is cut out above the low `c` bits.
pub bits_of_byte : (x : ℕ) → bits_of 8 (u8 x) ≡ bits_of 8 x
bits_of_byte x = bits_of-mod 8 8 x (omega arith)
