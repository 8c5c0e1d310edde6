-- ===== src/Http2/Hpack/Huffman/Walk.antt =====
-- The walk of `decode` over single bits, and where the codes of the table lead in the tree.
use libnhttp.Base.{
  none, ◌==◌, Bool, inr, inl, some, Option-cases, ◌>>=◌, Option, ℕ, zero, suc, ◌/◌, ◌%◌, ◌^◌, ◌<◌,
  ◌≡◌, refl, sym, ap, ◌∙◌, List, [], ◌∷◌, ◌++◌, arith, append_assoc, append-nil, u8, Bytes, IsByte,
  All, true, false,
}
use mathlib.Core.Path.{fun_ext}
use libnhttp.Base.Bits.{bit_and_mask, holds_below, holds_below-at}
use libnhttp.Http2.Hpack.Huffman.{
  absent, node, accept, Tree, Walker, at_root, take_bit, take_byte, take_bytes, child, huffman,
}
use libnhttp.Http2.Hpack.Huffman.Table.{huffman_table}
use libnhttp.Http2.Hpack.Huffman.Bits.{bits_of}
use libnhttp.Http2.Hpack.Huffman.Encoding.{text_bits, all_bits, code_bits, ones}

pub run_bits : List ℕ → Walker → Option Walker
run_bits [] w = some w
run_bits (bit ∷ bits) w = do w' ← take_bit (child w.cur bit) bit w; run_bits bits w'

take_byte-run_bits : (b byte : ℕ) (w : Walker) → take_byte b byte w ≡ run_bits (bits_of b byte) w
unfolding take_byte run_bits bits_of
take_byte-run_bits zero byte w = refl
take_byte-run_bits (suc b) byte w = rw (bit_and_mask 1 (byte / 2 ^ b)) (
    ap
      (λ (k : Walker → Option Walker).
        take_bit (child w.cur (byte / 2 ^ b % 2)) (byte / 2 ^ b % 2) w >>= k)
      (fun_ext (take_byte-run_bits b byte)))

pub run_bits-append :
    (xs ys : List ℕ) (w : Walker) → run_bits (xs ++ ys) w ≡ (run_bits xs w >>= run_bits ys)
unfolding run_bits
run_bits-append [] ys w = refl
run_bits-append (x ∷ xs) ys w = elim (Option-cases (take_bit (child w.cur x) x w)) [
  | inl e ↦ rw (e, ◌>>=◌)
  | inr (w', e) ↦ rw (e, ◌>>=◌) (run_bits-append xs ys w')
]

pub take_bytes-run_bits : (bs : Bytes) (w : Walker) → take_bytes bs w ≡ run_bits (all_bits bs) w
unfolding take_bytes all_bits
take_bytes-run_bits [] w = unfold run_bits in refl
take_bytes-run_bits (b ∷ bs) w =
    rw (run_bits-append (bits_of 8 b) (all_bits bs) w, take_byte-run_bits 8 b w)
      (ap (λ (k : Walker → Option Walker). run_bits (bits_of 8 b) w >>= k)
        (fun_ext (take_bytes-run_bits bs)))

-- The bits lead from below the node `t` to the symbol `c`, with no symbol on the way. `deeper` is
-- the answer for the bits that follow.
below : Tree → ℕ → List ℕ → Bool → Bool
below absent c bits deeper = false
below (node none l r) c bits deeper = deeper
below (node (some s) l r) c [] deeper = s == c
below (node (some s) l r) c (b ∷ bits) deeper = false

leads : List ℕ → Tree → ℕ → Bool
unfolding below child
leads [] t c = false
leads (bit ∷ bits) t c =
    let deeper = leads bits (child t bit) c in below (child t bit) c bits deeper

step_below :
    (t : Tree) (bit : ℕ) (bits : List ℕ) (c : ℕ) (deeper : Bool) (w : Walker)
    → c < 256
    → ((v : Walker)
        → v.cur ≡ t
        → deeper ≡ true
        → run_bits bits v ≡ some (at_root (v.out ++ (c ∷ []))))
    → below t c bits deeper ≡ true
    → (take_bit t bit w >>= run_bits bits) ≡ some (at_root (w.out ++ (c ∷ [])))
unfolding below take_bit
step_below absent bit bits c deeper w h ih e = cc
step_below (node none l r) bit bits c deeper w h ih e = ih _ refl e
step_below (node (some s) l r) bit [] c deeper w h ih e =
    let same : u8 s ≡ c = ground arith in unfold run_bits in rw same
step_below (node (some s) l r) bit (b ∷ bits) c deeper w h ih e = cc

run_bits-leads :
    (bits : List ℕ) (c : ℕ) (w : Walker)
    → c < 256
    → leads bits w.cur c ≡ true
    → run_bits bits w ≡ some (at_root (w.out ++ (c ∷ [])))
unfolding run_bits leads
run_bits-leads [] c w h e = cc
run_bits-leads (bit ∷ bits) c w h e =
    step_below (child w.cur bit) bit bits c (leads bits (child w.cur bit) c) w h
      (λ v at d. run_bits-leads bits c v h (rw at d)) e

-- Every code of the table leads to its character.
codes_lead : (c : ℕ) → c < 256 → leads (code_bits c) huffman c ≡ true
codes_lead c h =
    holds_below-at (λ n. leads (code_bits n) huffman n) 256 c h
      (unfold holds_below leads code_bits huffman huffman_table bits_of in refl)

run_bits-code :
    (c : ℕ) (out : Bytes)
    → c < 256
    → run_bits (code_bits c) (at_root out) ≡ some (at_root (out ++ (c ∷ [])))
run_bits-code c out h = run_bits-leads (code_bits c) c (at_root out) h (codes_lead c h)

pub run_bits-text :
    (cs out : Bytes)
    → All IsByte cs
    → run_bits (text_bits cs) (at_root out) ≡ some (at_root (out ++ cs))
unfolding text_bits
run_bits-text [] out h =
    unfold run_bits in ap (λ (o : Bytes). some (at_root o)) (sym (append-nil out))
run_bits-text (c ∷ cs) out (hc, hcs) =
    run_bits-append (code_bits c) (text_bits cs) (at_root out)
    ∙ rw (run_bits-code c out hc) (run_bits-text cs (out ++ (c ∷ [])) hcs)
    ∙ ap (λ (o : Bytes). some (at_root o)) (append_assoc out (c ∷ []) cs)

-- Fewer than eight ones lead to no symbol, and the walk accepts them as padding.
pub accept-ones :
    (n : ℕ) (out : Bytes) → n < 8 → (run_bits (ones n) (at_root out) >>= accept) ≡ some out
unfolding run_bits ones take_bit child huffman accept
accept-ones zero out h = refl
accept-ones (suc zero) out h = refl
accept-ones (suc (suc zero)) out h = refl
accept-ones (suc (suc (suc zero))) out h = refl
accept-ones (suc (suc (suc (suc zero)))) out h = refl
accept-ones (suc (suc (suc (suc (suc zero))))) out h = refl
accept-ones (suc (suc (suc (suc (suc (suc zero)))))) out h = refl
accept-ones (suc (suc (suc (suc (suc (suc (suc zero))))))) out h = refl
accept-ones (suc (suc (suc (suc (suc (suc (suc (suc n)))))))) out h = absurd (omega arith)
