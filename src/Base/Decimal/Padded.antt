-- ===== src/Base/Decimal/Padded.antt =====
-- Numbers printed with leading zeros.
use Prim.Native.Nat.{ℕ, zero, suc, ◌+◌, ◌-◌, ◌/◌, ◌%◌, ◌^◌, ◌≤◌, ◌<◌}
use mathlib.Core.Path.{◌≡◌, refl, sym, ap, ap₂, ◌∙◌}
use mathlib.Core.Logic.{inl, inr}
use mathlib.Core.Bool.{true, false}
use mathlib.Core.List.{[], ◌∷◌, ◌++◌, append_assoc}
use native.Mathlib.Omega.{arith}
use native.Mathlib.Nat.{pow-suc}
use native.Mathlib.Decide.{dec_lt}
use libnhttp.Base.Tests.{ltb, Bool-cases}
use libnhttp.Base.Lists.{length, length-append}
use libnhttp.Base.Word.{Bytes}
use libnhttp.Base.Decimal.{decimal, to_string}

unfoldable pub zeros : ℕ → Bytes
zeros zero = []
zeros (suc n) = 48 ∷ zeros n

-- `%0wd` of a number that is not negative.
unfoldable pub padded : ℕ → ℕ → Bytes
unfolding zeros
padded w n = zeros (w - length (to_string n)) ++ to_string n

-- The last `w` digits.
abbrev pub fixed : ℕ → ℕ → Bytes
fixed zero n = []
fixed (suc w) n = fixed w (n / 10) ++ (48 + n % 10) ∷ []

decimal-fuel : (f g n : ℕ) → n < f → n < g → decimal f n ≡ decimal g n
unfolding decimal
decimal-fuel zero g n h k = absurd (omega arith)
decimal-fuel (suc f) zero n h k = absurd (omega arith)
decimal-fuel (suc f) (suc g) n h k = elim (Bool-cases (ltb n 10)) [
  | inl small ↦ rw small
  | inr large ↦ rw large (
      ap (λ (bs : Bytes). bs ++ (48 + n % 10) ∷ [])
        (decimal-fuel f g (n / 10) (ground arith) (ground arith)))
]

decimal-small : (f n : ℕ) → n < 10 → decimal (suc f) n ≡ (48 + n) ∷ []
unfolding decimal
decimal-small f n h = let small : ltb n 10 ≡ true = ground arith in rw small

decimal-large : (f n : ℕ) → 10 ≤ n → decimal (suc f) n ≡ decimal f (n / 10) ++ (48 + n % 10) ∷ []
unfolding decimal
decimal-large f n h = let large : ltb n 10 ≡ false = ground arith in rw large

pub to_string-small : (n : ℕ) → n < 10 → to_string n ≡ (48 + n) ∷ []
unfolding to_string
to_string-small n h =
    ap (λ (f : ℕ). decimal f n) {x = n + 1} {y = suc n} (omega arith) ∙ decimal-small n n h

pub to_string-large : (n : ℕ) → 10 ≤ n → to_string n ≡ to_string (n / 10) ++ (48 + n % 10) ∷ []
unfolding to_string
to_string-large n h =
    ap (λ (f : ℕ). decimal f n) {x = n + 1} {y = suc n} (omega arith)
    ∙ decimal-large n n h
    ∙ ap (λ (bs : Bytes). bs ++ (48 + n % 10) ∷ [])
        (decimal-fuel n (n / 10 + 1) (n / 10) (omega arith) (omega arith))

fixed_zero : (w : ℕ) → fixed w 0 ≡ zeros w
unfolding zeros
fixed_zero zero = refl
fixed_zero (suc w) = ap (λ (bs : Bytes). bs ++ 48 ∷ []) (fixed_zero w) ∙ turn w
  where
    turn : (k : ℕ) → zeros k ++ 48 ∷ [] ≡ 48 ∷ zeros k
    turn zero = refl
    turn (suc k) = ap (◌∷◌ 48) (turn k)

padded-small : (w n : ℕ) → n < 10 → padded (suc w) n ≡ fixed (suc w) n
unfolding padded
padded-small w n h =
    let text = to_string-small n h in
    let zero_front : 0 ≡ n / 10 = omega arith in
    let low : n ≡ n % 10 = omega arith in
    ap (λ (bs : Bytes). zeros (suc w - length bs) ++ bs) text
    ∙ ap (λ (k : ℕ). zeros k ++ (48 + n) ∷ []) {x = suc w - 1} {y = w} (omega arith)
    ∙ ap (λ (bs : Bytes). bs ++ (48 + n) ∷ []) (sym (fixed_zero w))
    ∙ ap₂ (λ (m d : ℕ). fixed w m ++ (48 + d) ∷ []) zero_front low

padded-large : (w n : ℕ) → 10 ≤ n → padded (suc w) n ≡ padded w (n / 10) ++ (48 + n % 10) ∷ []
unfolding padded
padded-large w n h =
    let text = to_string-large n h in
    let count : length (to_string n) ≡ length (to_string (n / 10)) + 1 =
      omega (arith, ap length text, length-append (to_string (n / 10)) ((48 + n % 10) ∷ [])) in
    ap₂ (λ (z : ℕ) (bs : Bytes). zeros z ++ bs) {x = suc w - length (to_string n)}
      {y = w - length (to_string (n / 10))} (omega arith) text
    ∙ sym (
        append_assoc (zeros (w - length (to_string (n / 10)))) (to_string (n / 10))
          ((48 + n % 10) ∷ []))

-- A number that fits is printed as its last digits.
pub padded-fixed : (w n : ℕ) → n < 10 ^ suc w → padded (suc w) n ≡ fixed (suc w) n
padded-fixed zero n h = padded-small zero n (omega arith)
padded-fixed (suc w) n h = elim (dec_lt n 10) [
  | yes small ↦ padded-small (suc w) n small
  | no large ↦
      padded-large (suc w) n (omega arith)
      ∙ ap (λ (bs : Bytes). bs ++ (48 + n % 10) ∷ [])
          (padded-fixed w (n / 10) (omega (arith, pow-suc 10 (suc w))))
]
