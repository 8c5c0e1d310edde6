-- ===== src/Ws/Connection/Masking.antt =====
-- The flags, the opcode and the masking of frames.
use libnhttp.Base.{
  sym, bit_xor, ℕ, zero, suc, ◌+◌, ◌%◌, ◌<◌, ◌≡◌, refl, ap, ◌∙◌, [], ◌∷◌, ◌++◌, arith, u8, bit_and,
  bit_or, Bytes, IsByte, All, ◌==◌, Bool, true, false, not, length, get_or, if◌then◌else◌,
}
use libnhttp.Base.Bits.{bit_and_mask, bit_or_fields, low_seven, top_bit, bit_xor_twice}
use libnhttp.Ws.Connection.{unmask}
use libnhttp.Ws.Connection.Lengths.{short_length, extension}

abbrev pub flag : Bool → ℕ
flag b = if b then 128 else 0

pub flag-top : (b : Bool) (x : ℕ) → x < 128 → not (bit_and (flag b + x) 0x80 == 0) ≡ b
flag-top true x h = ground (arith, top_bit (128 + x))
flag-top false x h = ground (arith, top_bit x)

pub flag-low : (b : Bool) (x : ℕ) → x < 128 → bit_and (flag b + x) 0x7f ≡ x
flag-low true x h = omega (arith, low_seven (128 + x))
flag-low false x h = omega (arith, low_seven (0 + x))

pub flag-opcode : (b : Bool) (x : ℕ) → x < 16 → bit_and (flag b + x) 0x0f ≡ x
flag-opcode true x h = omega (arith, bit_and_mask 4 (128 + x))
flag-opcode false x h = omega (arith, bit_and_mask 4 (0 + x))

pub flag-or : (b : Bool) (x : ℕ) → x < 16 → u8 (bit_or (flag b) (bit_and x 0x0f)) ≡ flag b + x
flag-or true x h =
    let low : bit_and x 0x0f ≡ x = omega (arith, bit_and_mask 4 x) in
    rw low (omega (arith, bit_or_fields 7 1 x (omega arith)))
flag-or false x h =
    let low : bit_and x 0x0f ≡ x = omega (arith, bit_and_mask 4 x) in
    rw low (omega (arith, bit_or_fields 7 0 x (omega arith)))

pub short_length-lt : (n : ℕ) → short_length n < 128
short_length-lt n = ground arith

get_or-IsByte : (key : Bytes) (i : ℕ) → All IsByte key → IsByte (get_or key i 0)
get_or-IsByte [] i h = omega arith
get_or-IsByte (k ∷ key) zero h = h.0
get_or-IsByte (k ∷ key) (suc i) h = get_or-IsByte key i h.1

-- The masking of RFC 6455: the key's bytes are used in turn.
unfoldable pub mask : Bytes → Bytes → Bytes
mask [] xs = xs
mask (k ∷ ks) [] = []
mask (k ∷ ks) (x ∷ xs) = bit_xor x k ∷ mask (ks ++ (k ∷ [])) xs

length-mask : (key body : Bytes) → length (mask key body) ≡ length body
unfolding mask
length-mask [] xs = refl
length-mask (k ∷ ks) [] = refl
length-mask (k ∷ ks) (x ∷ xs) = ap suc (length-mask (ks ++ (k ∷ [])) xs)

-- The key's bytes from the position `i` on are `a`, `b`, `c` and `d`.
Turn : Bytes → ℕ → ℕ → ℕ → ℕ → ℕ → Type 0
Turn key i a b c d =
    (get_or key (i % 4) 0 ≡ a)
    × (get_or key ((i + 1) % 4) 0 ≡ b)
    × (get_or key ((i + 2) % 4) 0 ≡ c)
    × (get_or key ((i + 3) % 4) 0 ≡ d)

Turn-suc : (key : Bytes) (i a b c d : ℕ) → Turn key i a b c d → Turn key (suc i) b c d a
unfolding Turn
Turn-suc key i a b c d (ea, eb, ec, ed) = (
  turn (suc i) (i + 1) b (omega arith) eb,
  turn (suc i + 1) (i + 2) c (omega arith) ec,
  turn (suc i + 2) (i + 3) d (omega arith) ed,
  turn (suc i + 3) i a (omega arith) ea,
)
  where
    turn : (j k x : ℕ) → j % 4 ≡ k % 4 → get_or key (k % 4) 0 ≡ x → get_or key (j % 4) 0 ≡ x
    turn j k x same e = ap (λ (l : ℕ). get_or key l 0) same ∙ e

unmask-mask_from :
    (key : Bytes) (i a b c d : ℕ) (body : Bytes)
    → All IsByte key
    → All IsByte body
    → Turn key i a b c d
    → unmask key i (mask (a ∷ b ∷ c ∷ d ∷ []) body) ≡ body
unfolding unmask mask Turn
unmask-mask_from key i a b c d [] h k t = refl
unmask-mask_from key i a b c d (x ∷ xs) h (kx, kxs) t =
    let here : bit_xor (bit_xor x a) (get_or key (i % 4) 0) ≡ x =
      ap (λ (y : ℕ). bit_xor (bit_xor x y) (get_or key (i % 4) 0)) (sym t.0)
      ∙ bit_xor_twice x (get_or key (i % 4) 0) kx (get_or-IsByte key (i % 4) h) in
    ap (λ (y : ℕ). y ∷ unmask key (suc i) (mask (b ∷ c ∷ d ∷ a ∷ []) xs)) here
    ∙ ap (◌∷◌ x) (unmask-mask_from key (suc i) b c d a xs h kxs (Turn-suc key i a b c d t))

unmask-mask :
    (key body : Bytes)
    → length key ≡ 4
    → All IsByte key
    → All IsByte body
    → unmask key 0 (mask key body) ≡ body
unfolding Turn
unmask-mask [] body e h k = absurd (omega arith)
unmask-mask (a ∷ []) body e h k = absurd (omega arith)
unmask-mask (a ∷ b ∷ []) body e h k = absurd (omega arith)
unmask-mask (a ∷ b ∷ c ∷ []) body e h k = absurd (omega arith)
unmask-mask (a ∷ b ∷ c ∷ d ∷ []) body e h k =
    unmask-mask_from (a ∷ b ∷ c ∷ d ∷ []) 0 a b c d body h k (refl, refl, refl, refl)
unmask-mask (a ∷ b ∷ c ∷ d ∷ f ∷ rest) body e h k = absurd (omega arith)

-- The payload as it stands on the wire, and the key in front of it.
abbrev pub sealed : Bool → Bytes → Bytes → Bytes
sealed masked key body = if masked then mask key body else body

abbrev pub key_bytes : Bool → Bytes → Bytes
key_bytes masked key = if masked then key else []

-- A frame as RFC 6455 lays it out.
abbrev pub wire_frame : Bool → ℕ → Bool → Bytes → Bytes → Bytes
wire_frame fin opcode masked key body =
    (flag fin + opcode)
    ∷ (flag masked + short_length (length body))
    ∷ (extension (length body) ++ (key_bytes masked key ++ sealed masked key body))

-- What the reader makes of a payload.
abbrev pub opened : Bool → Bytes → Bytes → Bytes
opened masked key body = if masked then unmask key 0 body else body

pub opened-sealed :
    (masked : Bool) (key body : Bytes)
    → length key ≡ 4
    → All IsByte key
    → All IsByte body
    → opened masked key (sealed masked key body) ≡ body
opened-sealed true key body e h k = unmask-mask key body e h k
opened-sealed false key body e h k = refl

pub length-sealed :
    (masked : Bool) (key body : Bytes) → length (sealed masked key body) ≡ length body
length-sealed true key body = length-mask key body
length-sealed false key body = refl
