-- ===== src/Ws/Connection/Lengths.antt =====
-- Steps that read known bytes, and the lengths of frames.
use libnhttp.Base.{
  ℕ, zero, suc, ◌+◌, ◌*◌, ◌/◌, ◌%◌, ◌^◌, ◌≤◌, ◌<◌, ◌≡◌, refl, sym, ap, ◌∙◌, [], ◌∷◌, ◌++◌, arith,
  append_assoc, u64, bit_and, bit_or, Bytes, leb, ◌==◌, true, false, some, length, length-append,
  take, drop, get_or, take-length_append, drop-length_append, if◌then◌else◌, ◌<<<◌, ◌>>>◌, dec_le,
}
use libnhttp.Base.Bits.{bit_and_mask, bit_or_fields, two_pow_add}
use native.Mathlib.Nat.{div-le_self, div-div-eq-div-mul}
use libnhttp.Ws.Connection.{
  Connection, Reading, pure, ◌>>=◌, continue, read_exact, join_bytes, read_length, shifted_bytes,
}
use libnhttp.Ws.Connection.Feed.{available, read_exact_enough}

-- Where `input` comes first, `m` takes just it and gives `a`.
abbrev pub Reads : {A : Type 0} → Reading A → Bytes → A → Type 0
Reads m input a =
    (rest : Bytes) (c : Connection)
    → available c ≡ input ++ rest
    → (c' : Connection) × (m c ≡ (some a, c')) × (available c' ≡ rest)

pub Reads-pure : {A : Type 0} (a : A) → Reads (pure a) [] a
Reads-pure a = λ rest c e. (c, refl, e)

pub Reads-bind :
    {A B : Type 0} (m : Reading A) (f : A → Reading B) (s t : Bytes) (a : A) (b : B)
    → Reads m s a
    → Reads (f a) t b
    → Reads (m >>= f) (s ++ t) b
Reads-bind m f s t a b first second = λ rest c e.
    let (c1, run1, left1) = first (t ++ rest) c (e ∙ append_assoc s t rest) in
    let (c2, run2, left2) = second rest c1 left1 in (c2, ap (λ r. continue r f) run1 ∙ run2, left2)

pub Reads-read_exact : (s : Bytes) → Reads (read_exact (length s)) s s
Reads-read_exact s = λ rest c e.
    let (c', run, left) =
      read_exact_enough (length s) c (omega (arith, ap length e, length-append s rest)) in
    (
      c',
      run ∙ ap (λ bytes. (some bytes, c')) (ap (take (length s)) e ∙ take-length_append s rest),
      left ∙ ap (drop (length s)) e ∙ drop-length_append s rest,
    )

-- The seven bits and the bytes behind them that stand for a length.
abbrev pub short_length : ℕ → ℕ
short_length n = if leb n 125 then n else if leb n 0xffff then 126 else 127

unfoldable pub extension : ℕ → Bytes
extension n =
    if leb n 125
    then []
    else if leb n 0xffff
    then bit_and (n >>> 8) 0xff ∷ bit_and n 0xff ∷ []
    else shifted_bytes 8 n

two_bytes : (n : ℕ) → n ≤ 0xffff → bit_or (bit_and (n / 2 ^ 8) 0xff * 2 ^ 8) (bit_and n 0xff) ≡ n
two_bytes n h =
    rw (bit_and_mask 8 (n / 2 ^ 8), bit_and_mask 8 n)
      (bit_or_fields 8 (n / 2 ^ 8 % 2 ^ 8) (n % 2 ^ 8) (omega arith) ∙ omega arith)

join_byte : (q : ℕ) → q < 2 ^ 64 → bit_or (u64 (q / 256 * 2 ^ 8)) (bit_and q 0xff) ≡ q
join_byte q h =
    let fits : u64 (q / 256 * 2 ^ 8) ≡ q / 256 * 2 ^ 8 = omega arith in
    rw (fits, bit_and_mask 8 q) (bit_or_fields 8 (q / 256) (q % 2 ^ 8) (omega arith) ∙ omega arith)

join_bytes-shifted_bytes :
    (k n : ℕ) → n < 2 ^ 64 → join_bytes (n / 2 ^ (8 * k)) (shifted_bytes k n) ≡ n
unfolding join_bytes shifted_bytes
join_bytes-shifted_bytes zero n h = omega arith
join_bytes-shifted_bytes (suc k) n h =
    let q : ℕ = n / 2 ^ (8 * k) in
    let small : q < 2 ^ 64 = omega (arith, div-le_self n (2 ^ (8 * k))) in
    let step : n / 2 ^ (8 * suc k) ≡ q / 256 =
      ap (λ (p : ℕ). n / p) {y = 2 ^ (8 * k) * 2 ^ 8}
        (ap (λ (e : ℕ). 2 ^ e) {y = 8 * k + 8} (omega arith) ∙ two_pow_add (8 * k) 8)
      ∙ sym (div-div-eq-div-mul n (2 ^ (8 * k)) (2 ^ 8)) in
    ap (λ (m : ℕ). join_bytes (bit_or (u64 (m * 2 ^ 8)) (bit_and q 0xff)) (shifted_bytes k n)) step
    ∙ ap (λ (m : ℕ). join_bytes m (shifted_bytes k n)) (join_byte q small)
    ∙ join_bytes-shifted_bytes k n h

eight_bytes : (n : ℕ) → n < 2 ^ 64 → join_bytes 0 (shifted_bytes 8 n) ≡ n
eight_bytes n h =
    ap (λ (m : ℕ). join_bytes m (shifted_bytes 8 n)) {y = n / 2 ^ (8 * 8)} (omega arith)
    ∙ join_bytes-shifted_bytes 8 n h

-- The length of a frame is read back from its seven bits and their extension.
pub Reads-read_length : (n : ℕ) → n < 2 ^ 64 → Reads (read_length (short_length n)) (extension n) n
unfolding read_length extension shifted_bytes
Reads-read_length n h = elim (dec_le n 125) [
  | yes low ↦
      let small : leb n 125 ≡ true = ground arith in
      let not_126 : (n == 126) ≡ false = ground arith in
      let not_127 : (n == 127) ≡ false = ground arith in rw (small, not_126, not_127) (Reads-pure n)
  | no high ↦
      let big : leb n 125 ≡ false = ground arith in
      elim (dec_le n 0xffff) [
        | yes low ↦
            let small : leb n 0xffff ≡ true = ground arith in
            let bytes : Bytes = bit_and (n >>> 8) 0xff ∷ bit_and n 0xff ∷ [] in
            let value : ℕ = bit_or (bit_and (n >>> 8) 0xff <<< 8) (bit_and n 0xff) in
            let last : Reads (pure value) [] n = rw (two_bytes n low) (Reads-pure n) in
            rw (big, small)
              (Reads-bind (read_exact 2)
                (λ ext. pure (bit_or (get_or ext 0 0 <<< 8) (get_or ext 1 0))) bytes [] bytes n
                (Reads-read_exact bytes) last)
        | no higher ↦
            let bigger : leb n 0xffff ≡ false = ground arith in
            let bytes : Bytes = shifted_bytes 8 n in
            let last : Reads (pure (join_bytes 0 bytes)) [] n =
              rw (eight_bytes n h) (Reads-pure n) in
            rw (big, bigger)
              (Reads-bind (read_exact 8) (λ ext. pure (join_bytes 0 ext)) bytes [] bytes n
                (Reads-read_exact bytes) last)
      ]
]
