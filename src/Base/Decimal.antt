-- ===== src/Base/Decimal.antt =====
-- `std::to_string` of a number that is not negative, and the digits that it is made of.
pub mod Padded
use Prim.Native.Nat.{ℕ, zero, suc, ◌+◌, ◌-◌, ◌*◌, ◌/◌, ◌%◌, ◌^◌, ◌≤◌, ◌<◌}
use mathlib.Core.Path.{◌≡◌, ap, ◌∙◌}
use mathlib.Core.Logic.{inl, inr, ◌≢◌}
use mathlib.Core.List.{[], ◌∷◌, ◌++◌, append_assoc}
use native.Mathlib.Omega.{arith}
use libnhttp.Base.Tests.{ltb, if◌then◌else◌, Bool-cases}
use libnhttp.Base.Lists.{All, All-append}
use libnhttp.Base.Word.{Bytes}

-- As many rounds as the number, and one more, are enough, since each takes a digit off.
unfoldable pub decimal : ℕ → ℕ → Bytes
decimal zero n = []
decimal (suc fuel) n =
    let front = decimal fuel (n / 10) in
    if ltb n 10 then (48 + n) ∷ [] else front ++ (48 + n % 10) ∷ []

unfoldable pub to_string : ℕ → Bytes
unfolding decimal
to_string n = decimal (n + 1) n

abbrev pub IsDigit : ℕ → Type 0
IsDigit c = (48 ≤ c) × (c ≤ 57)

decimal-IsDigit : (fuel n : ℕ) → All IsDigit (decimal fuel n)
unfolding decimal
decimal-IsDigit zero n = tt
decimal-IsDigit (suc fuel) n = elim (Bool-cases (ltb n 10)) [
  | inl small ↦ rw small ((omega arith, ground arith), tt)
  | inr large ↦ rw large (
      All-append IsDigit (decimal fuel (n / 10)) ((48 + n % 10) ∷ [])
        (decimal-IsDigit fuel (n / 10)) ((omega arith, omega arith), tt))
]

-- A text of digits.
pub to_string-IsDigit : (n : ℕ) → All IsDigit (to_string n)
unfolding to_string
to_string-IsDigit n = decimal-IsDigit (n + 1) n

-- A reader that multiplies by ten and adds gets the number back: the last digit comes last.
module _ {S : Type 0} (read : Bytes → ℕ → S)
    (step : (c : ℕ) (rest : Bytes) (out : ℕ)
      → IsDigit c
      → out * 10 + (c - 48) < 2 ^ 63
      → read (c ∷ rest) out ≡ read rest (out * 10 + (c - 48))) where
  read-decimal :
      (fuel n : ℕ) (rest : Bytes)
      → n < fuel
      → n < 2 ^ 63
      → read (decimal fuel n ++ rest) 0 ≡ read rest n
  unfolding decimal
  read-decimal zero n rest h k = absurd (omega arith)
  read-decimal (suc fuel) n rest h k = elim (Bool-cases (ltb n 10)) [
    | inl small ↦ rw small (
        step (48 + n) rest 0 (omega arith, ground arith) (ground arith)
        ∙ ap (read rest) {x = 0 * 10 + (48 + n - 48)} (omega arith))
    | inr large ↦ rw large (
        ap (λ (bs : Bytes). read bs 0)
          (append_assoc (decimal fuel (n / 10)) ((48 + n % 10) ∷ []) rest)
        ∙ read-decimal fuel (n / 10) ((48 + n % 10) ∷ rest) (ground arith) (omega arith)
        ∙ step (48 + n % 10) rest (n / 10) (omega arith, omega arith) (omega arith)
        ∙ ap (read rest) {x = n / 10 * 10 + (48 + n % 10 - 48)} (omega arith))
  ]

  pub read-to_string :
      (n : ℕ) (rest : Bytes) → n < 2 ^ 63 → read (to_string n ++ rest) 0 ≡ read rest n
  unfolding to_string
  read-to_string n rest k = read-decimal (n + 1) n rest (omega arith) k

decimal-nonempty : (fuel n : ℕ) → 0 < fuel → decimal fuel n ≢ []
unfolding decimal
decimal-nonempty zero n h = absurd (omega arith)
decimal-nonempty (suc fuel) n h = elim (Bool-cases (ltb n 10)) [
  | inl small ↦ rw small (λ e. cc)
  | inr large ↦ rw large (last (decimal fuel (n / 10)))
]
  where
    last : (xs : Bytes) → xs ++ (48 + n % 10) ∷ [] ≢ []
    last [] = λ e. cc
    last (x ∷ xs) = λ e. cc

pub to_string-nonempty : (n : ℕ) → to_string n ≢ []
unfolding to_string
to_string-nonempty n = decimal-nonempty (n + 1) n (omega arith)
