-- ===== src/Http2/Hpack/Decoder/Progress.antt =====
-- `decode` ends on every input, and every instruction moves the reader on.
use libnhttp.Base.{
  eq-of_some, ℕ, zero, suc, ◌≤◌, ◌<◌, ◌≡◌, refl, sym, ap, List, [], ◌∷◌, arith, bit_and, Bytes, ltb,
  ◌==◌, Bool, true, false, not, Bool-cases, Option-cases, inl, inr, some, >>=-eq-some, length,
  length-append, length-drop, take, drop,
}
use libnhttp.Http2.Hpack.Tables.{HeaderField}
use libnhttp.Http2.Hpack.Reader.{BitReader}
use libnhttp.Http2.Hpack.Integer.{read_integer}
use libnhttp.Http2.Hpack.Integer.Bounds.{read_integer_used}
use libnhttp.Http2.Hpack.Decoder.{
  Decoder, State, Decoded, lookup_indexed, read_size_update, string_of, read_string_at, read_string,
  read_name, read_indexed, read_literal, read_update, decode_one, decode_loop, decode,
}

-- The bytes ahead of `r` were a tail of `bytes`.
abbrev Tail : Bytes → BitReader → Type 0
Tail bytes r = length r.ahead ≤ length bytes

read_integer-Tail : (r r' : BitReader) (p v : ℕ) → read_integer r p ≡ some (v, r') → Tail r.ahead r'
read_integer-Tail r r' p v e =
    let (used, same, ten, fits) = read_integer_used r r' p v e in
    omega (arith, ap length same, length-append used r'.ahead)

read_string_at-Tail :
    (first : ℕ) (r r' : BitReader) (s : Bytes)
    → read_string_at first r ≡ some (s, r')
    → Tail r.ahead r'
unfolding read_string_at
read_string_at-Tail first r r' s e =
    let ((n, r1), whole, rest) = >>=-eq-some (read_integer r 7) _ e in
    elim (Bool-cases (ltb (length r1.ahead) n)) [
      | inl short ↦ ground arith
      | inr enough ↦
          let (t, coded, same) =
            >>=-eq-some (string_of first (take n r1.ahead)) _ (rw enough at rest) in
          let skipped : r'.ahead ≡ drop n r1.ahead = ground arith in
          omega (arith, read_integer-Tail r r1 7 n whole, ap length skipped, length-drop n r1.ahead)
    ]

-- A string takes a byte at least.
read_string_shorter :
    (bytes s : Bytes) (r : BitReader)
    → read_string bytes ≡ some (s, r)
    → length r.ahead < length bytes
unfolding read_string
read_string_shorter [] s r e = cc
read_string_shorter (first ∷ rest) s r e =
    omega (arith, read_string_at-Tail first (record { before = first; ahead = rest }) r s e)

read_name-Tail :
    (d : Decoder) (r r' : BitReader) (p : ℕ) (s : Bytes)
    → read_name d r p ≡ some (s, r')
    → Tail r.ahead r'
unfolding read_name
read_name-Tail d r r' p s e =
    let ((n, r1), whole, rest) = >>=-eq-some (read_integer r p) _ e in
    elim (Bool-cases (n == 0)) [
      | inl fresh ↦ omega (
        arith,
        read_integer-Tail r r1 p n whole,
        read_string_shorter r1.ahead s r' (rw fresh at rest),
      )
      | inr old ↦
          let (h, found, same) = >>=-eq-some (lookup_indexed d n) _ (rw old at rest) in
          let stays : r' ≡ r1 = ground arith in rw stays (read_integer-Tail r r1 p n whole)
    ]

read_indexed-Tail :
    (d : Decoder) (r : BitReader) (out : List HeaderField) (s : State)
    → read_indexed d r out ≡ some s
    → Tail r.ahead s.reader
unfolding read_indexed
read_indexed-Tail d r out s e =
    let ((n, r1), whole, rest) = >>=-eq-some (read_integer r 7) _ e in
    elim (Bool-cases (n == 0)) [
      | inl bad ↦ ground arith
      | inr good ↦
          let (h, found, same) = >>=-eq-some (lookup_indexed d n) _ (rw good at rest) in
          let stays : s.reader ≡ r1 = ground arith in rw stays (read_integer-Tail r r1 7 n whole)
    ]

read_literal-Tail :
    (d : Decoder) (r : BitReader) (out : List HeaderField) (p : ℕ) (b : Bool) (s : State)
    → read_literal d r out p b ≡ some s
    → Tail r.ahead s.reader
unfolding read_literal
read_literal-Tail d r out p b s e =
    let ((name, r1), named, rest) = >>=-eq-some (read_name d r p) _ e in
    let ((value, r2), valued, same) = >>=-eq-some (read_string r1.ahead) _ rest in
    let stays : s.reader ≡ r2 = ap (λ (t : State). t.reader) (sym (eq-of_some same)) in
    rw stays (
      omega
        (arith, read_name-Tail d r r1 p name named, read_string_shorter r1.ahead value r2 valued))

read_size_update-Tail :
    (d d' : Decoder) (r r' : BitReader) → read_size_update d r ≡ some (d', r') → Tail r.ahead r'
unfolding read_size_update
read_size_update-Tail d d' r r' e =
    let ((n, r1), whole, rest) = >>=-eq-some (read_integer r 5) _ e in
    elim (Bool-cases (ltb d.max_dynamic_table_size n)) [
      | inl large ↦ ground arith
      | inr small ↦
          let stays : r' ≡ r1 = ground arith in rw stays (read_integer-Tail r r1 5 n whole)
    ]

read_update-Tail :
    (d : Decoder) (r : BitReader) (out : List HeaderField) (s : State)
    → read_update d r out ≡ some s
    → Tail r.ahead s.reader
unfolding read_update
read_update-Tail d r out s e =
    let ((d', r1), updated, same) = >>=-eq-some (read_size_update d r) _ e in
    let stays : s.reader ≡ r1 = ap (λ (t : State). t.reader) (sym (eq-of_some same)) in
    rw stays (read_size_update-Tail d d' r r1 updated)

decode_one-Tail :
    (first : ℕ) (d : Decoder) (r : BitReader) (out : List HeaderField) (s : State)
    → decode_one first d r out ≡ some s
    → Tail r.ahead s.reader
unfolding decode_one
decode_one-Tail first d r out s e = elim (Bool-cases (not (bit_and first 0x80 == 0))) [
  | inl indexed ↦ read_indexed-Tail d r out s (rw indexed at e)
  | inr other ↦ elim (Bool-cases (bit_and first 0xc0 == 0x40)) [
    | inl literal ↦ read_literal-Tail d r out 6 true s (rw (other, literal) at e)
    | inr other' ↦ elim (Bool-cases (bit_and first 0xe0 == 0x20)) [
      | inl update ↦ read_update-Tail d r out s (rw (other, other', update) at e)
      | inr literal ↦ read_literal-Tail d r out 4 false s (rw (other, other', literal) at e)
    ]
  ]
]

decode_loop-total :
    (fuel : ℕ) (d : Decoder) (bytes : Bytes) (out : List HeaderField)
    → length bytes ≤ fuel
    → (result : Decoded) × (decode_loop fuel d bytes out ≡ some result)
unfolding decode_loop
decode_loop-total fuel d [] out h = (_, refl)
decode_loop-total zero d (first ∷ rest) out h = absurd (omega arith)
decode_loop-total (suc fuel) d (first ∷ rest) out h =
    let r : BitReader = record { before = first; ahead = rest } in
    elim (Option-cases (decode_one first d r out)) [
      | inl failed ↦ (record { accepted = false; decoder = d; out = out }, rw (failed, decode_loop))
      | inr (s, taken) ↦
          let (result, runs) =
            decode_loop-total fuel s.decoder s.reader.ahead s.out
              (omega (arith, decode_one-Tail first d r out s taken)) in
          (result, rw (taken, decode_loop) runs)
    ]

-- `decode` gives a result on every input, well formed or not: its loop never runs out of fuel.
pub decode-total :
    (d : Decoder) (bytes : Bytes) (out : List HeaderField)
    → (result : Decoded) × (decode d bytes out ≡ some result)
unfolding decode
decode-total d bytes out = decode_loop-total (length bytes) d bytes out (omega arith)
