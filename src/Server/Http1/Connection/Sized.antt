-- ===== src/Server/Http1/Connection/Sized.antt =====
-- A body of a length that is announced.
use libnhttp.Base.{
  ℕ, zero, suc, ◌+◌, ◌-◌, ◌≤◌, ◌<◌, ◌≡◌, ◌⊎◌, refl, sym, ap, ◌∙◌, List, [], ◌∷◌, ◌++◌, arith,
  append_assoc, append-nil, Bytes, ltb, take-append_left, drop-append_left, ◌==◌, Bool, true, false,
  Bool-cases, inl, inr, Option, some, none, ◌>>=◌, length, length-append, length-take, length-drop,
  take, drop, take-append-drop, take-length_append, drop-length_append, if◌then◌else◌, min,
}
use mathlib.Core.Path.{subst}
use libnhttp.Base.{drop-past}
use libnhttp.Base.Int.{pos, -ℤ-pos, +ℤ-pos}
use libnhttp.Io.Range.{Range, range_stream, ensure_positioned, allowed, read_positioned, read}
use libnhttp.Io.Range.Window.{bounded_range}
use libnhttp.Io.ReadAll.{read_all_round, read_all}
use libnhttp.Server.Http1.Headers.{Wire, readable, available}
use libnhttp.Server.Http1.Framing.{sized}
use libnhttp.Server.Http1.Connection.{read_wire, buffered_read, buffered_wire_stream, body_of}

readable-full :
    (c : Bytes) (more : List Bytes) → 0 < length c → readable (c ∷ more) ≡ c ++ readable more
readable-full [] more h = absurd (omega arith)
readable-full (b ∷ bs) more h = refl

take-all : (m : ℕ) (xs : Bytes) → length xs ≤ m → take m xs ≡ xs
take-all m xs h =
    sym (append-nil (take m xs))
    ∙ ap (λ (x : Bytes). take m xs ++ x) (sym (drop-past m xs h))
    ∙ take-append-drop m xs

-- A read gives some of the bytes that can be read, and leaves the others; or there are none.
record Step (m : ℕ) (w : Wire) (r : Bytes × Wire) : Type 0 where
  parts : available w ≡ r.0 ++ available r.1
  fits : length r.0 ≤ m
  some_bytes : 0 < length r.0

abbrev StepOrEnd : ℕ → Wire → Bytes × Wire → Type 0
StepOrEnd m w r = Step m w r ⊎ ((r.0 ≡ []) × (available w ≡ []))

read_wire-Step :
    (m : ℕ) (t : List Bytes) (w : Wire)
    → 0 < m
    → available w ≡ readable t
    → StepOrEnd m w (read_wire m t)
unfolding read_wire
read_wire-Step m [] w h e = inr (refl, e)
read_wire-Step m ([] ∷ more) w h e = inr (refl, e)
read_wire-Step m ((b ∷ bs) ∷ more) w h e = elim (Bool-cases (ltb m (length (b ∷ bs)))) [
  | inl long ↦
      let c : Bytes = b ∷ bs in
      inl (record {
        parts =
            e
            ∙ ap (λ (x : Bytes). x ++ readable more) (sym (take-append-drop m c))
            ∙ append_assoc (take m c) (drop m c) (readable more)
            ∙ ap (λ (x : Bytes). take m c ++ x)
                (sym (readable-full (drop m c) more (ground (arith, length-drop m c))))
            ∙ rw long refl;
        fits = omega (arith, length-take m c);
        some_bytes = omega (arith, length-take m c);
      })
  | inr short ↦
      let c : Bytes = b ∷ bs in
      inl (record {
        parts =
            e
            ∙ ap (λ (x : Bytes). x ++ readable more) (sym (take-all m c (ground arith)))
            ∙ rw short refl;
        fits = omega (arith, length-take m c);
        some_bytes = omega (arith, length-take m c);
      })
]

nil_of : (xs : Bytes) → length xs ≡ 0 → xs ≡ []
nil_of [] h = refl
nil_of (x ∷ xs) h = absurd (omega arith)

buffered_read-Step : (m : ℕ) (w : Wire) → 0 < m → StepOrEnd m w (buffered_read m w)
unfolding buffered_read
buffered_read-Step m w h = elim (Bool-cases (length w.read_buffer == 0)) [
  | inl empty ↦ rw empty (
      read_wire-Step m w.incoming w h
        (ap (λ (x : Bytes). x ++ readable w.incoming) (nil_of w.read_buffer (ground arith))))
  | inr full ↦ rw full (
      inl (record {
        parts =
            ap (λ (x : Bytes). x ++ readable w.incoming) (sym (take-append-drop m w.read_buffer))
            ∙ append_assoc (take m w.read_buffer) (drop m w.read_buffer) (readable w.incoming);
        fits = omega (arith, length-take m w.read_buffer);
        some_bytes = full_read m w.read_buffer h full;
      }))
]
  where
    full_read : (m : ℕ) (xs : Bytes) → 0 < m → (length xs == 0) ≡ false → 0 < length (take m xs)
    full_read m xs h e = ground (arith, length-take m xs)

-- The range over the wire, at `p` of `n` bytes.
abbrev window : Wire → Bool → ℕ → ℕ → Range Wire
window w t n p = bounded_range w t 0 n p

range_stream_lem :
    (w : Wire) (n : ℕ) → range_stream buffered_wire_stream w (pos 0) (pos n) ≡ window w false n 0
unfolding range_stream
range_stream_lem w n = rw (below n) refl
  where
    below : (n : ℕ) → ltb (n + 0) 0 ≡ false
    below n = ground arith

positioned_lem :
    (w : Wire) (t : Bool) (n p : ℕ)
    → ensure_positioned buffered_wire_stream (window w t n p) ≡ window w true n p
unfolding ensure_positioned
positioned_lem w true n p = refl
positioned_lem w false n p = refl

allowed_lem :
    (k n p : ℕ) (w : Wire)
    → allowed buffered_wire_stream k (window w true n p)
      ≡ (if ltb p n then some (min k (n - p)) else none)
unfolding allowed
allowed_lem k n p w = rw (-ℤ-pos n 0 (omega arith)) (ground arith)

read-shut :
    (k n p : ℕ) (w : Wire) (t : Bool)
    → n ≤ p
    → read buffered_wire_stream k (window w t n p) ≡ ([], window w true n p)
unfolding read read_positioned
read-shut k n p w t h =
    let shut : ltb p n ≡ false = ground arith in
    ap (read_positioned buffered_wire_stream k) (positioned_lem w t n p)
    ∙ rw (allowed_lem k n p w, shut, read_positioned)

read-open :
    (k n p : ℕ) (w : Wire) (t : Bool)
    → p < n
    → read buffered_wire_stream k (window w t n p) ≡ (
      (buffered_read (min k (n - p)) w).0,
      window
          (buffered_read (min k (n - p)) w).1
          true
          n
          (p + length (buffered_read (min k (n - p)) w).0),
    )
unfolding read read_positioned
read-open k n p w t h =
    let more : ltb p n ≡ true = ground arith in
    ap (read_positioned buffered_wire_stream k) (positioned_lem w t n p)
    ∙ rw (
      allowed_lem k n p w,
      more,
      read_positioned,
      +ℤ-pos p (length (buffered_read (min k (n - p)) w).0),
    )

-- The reader of `body_of`.
abbrev reader : ℕ → Range Wire → Option (Bytes × Range Wire)
reader k r = some (read buffered_wire_stream k r)

-- What is read, and the wire behind it.
record Taken (bytes rest : Bytes) (o : Option (Bytes × Range Wire)) : Type 0 where
  after : Range Wire
  made : o ≡ some (bytes, after)
  left : available after.inner ≡ rest

round_end :
    (again : Range Wire → Bytes → Option (Bytes × Range Wire)) (out : Bytes) (bs : Bytes)
    (r : Range Wire)
    → bs ≡ []
    → read_all_round reader again out (some (bs, r)) ≡ some (out, r)
unfolding read_all_round
round_end again out [] r e = refl
round_end again out (b ∷ bs) r e = absurd (omega (arith, ap length e))

round_more :
    (again : Range Wire → Bytes → Option (Bytes × Range Wire)) (out : Bytes) (bs : Bytes)
    (r : Range Wire)
    → 0 < length bs
    → read_all_round reader again out (some (bs, r)) ≡ again r (out ++ bs)
unfolding read_all_round
round_more again out [] r e = absurd (omega arith)
round_more again out (b ∷ bs) r e = refl

read_all-reader :
    (fuel : ℕ) (r : Range Wire) (out : Bytes)
    → read_all reader (suc fuel) r out
      ≡ read_all_round reader (read_all reader fuel) out (reader 4096 r)
unfolding read_all
read_all-reader fuel r out = refl

Taken-of :
    {bytes rest : Bytes} {o p : Option (Bytes × Range Wire)}
    → o ≡ p
    → Taken bytes rest p
    → Taken bytes rest o
Taken-of e t = record { after = t.after; made = e ∙ t.made; left = t.left }

read_all-Taken :
    (fuel n p : ℕ) (w : Wire) (t : Bool) (bytes out rest : Bytes)
    → available w ≡ bytes ++ rest
    → p + length bytes ≡ n
    → length bytes < fuel
    → Taken (out ++ bytes) rest (read_all reader fuel (window w t n p) out)
read_all-Taken zero n p w t bytes out rest e c h = absurd (omega arith)
read_all-Taken (suc fuel) n p w t [] out rest e c h =
    subst (λ bs. Taken bs rest (read_all reader (suc fuel) (window w t n p) out))
      (sym (append-nil out))
      (record {
        after = window w true n p;
        made =
            read_all-reader fuel (window w t n p) out
            ∙ ap (λ r. read_all_round reader (read_all reader fuel) out (some r))
                (read-shut 4096 n p w t (omega (arith, c)))
            ∙ round_end (read_all reader fuel) out [] (window w true n p) refl;
        left = e;
      })
read_all-Taken (suc fuel) n p w t (b ∷ bs) out rest e c h =
    let bytes : Bytes = b ∷ bs in
    let m : ℕ = min 4096 (n - p) in
    let r = buffered_read m w in
    let opened =
      read_all-reader fuel (window w t n p) out
      ∙ ap (λ x. read_all_round reader (read_all reader fuel) out (some x))
          (read-open 4096 n p w t (omega (arith, c))) in
    elim (buffered_read-Step m w (omega (arith, c))) [
      | inr over ↦ absurd (omega (arith, ap length e, ap length over.1, length-append bytes rest))
      | inl s ↦
          let k : ℕ = length r.0 in
          let short : k ≤ length bytes = omega (arith, s.fits, c) in
          let same : r.0 ≡ take k bytes =
            sym (take-length_append r.0 (available r.1))
            ∙ ap (take k) (sym s.parts ∙ e)
            ∙ take-append_left k bytes rest short in
          let later : available r.1 ≡ drop k bytes ++ rest =
            sym (drop-length_append r.0 (available r.1))
            ∙ ap (drop k) (sym s.parts ∙ e)
            ∙ drop-append_left k bytes rest short in
          let tail =
            read_all-Taken fuel n (p + k) r.1 true (drop k bytes) (out ++ r.0) rest later
              (omega (arith, c, length-drop k bytes))
              (omega (arith, s.some_bytes, length-drop k bytes)) in
          let text : (out ++ r.0) ++ drop k bytes ≡ out ++ bytes =
            append_assoc out r.0 (drop k bytes)
            ∙ ap (λ (x : Bytes). out ++ x)
                (ap (λ (x : Bytes). x ++ drop k bytes) same ∙ take-append-drop k bytes) in
          subst (λ x. Taken x rest (read_all reader (suc fuel) (window w t n p) out)) text
            (Taken-of
              (opened
                ∙ round_more (read_all reader fuel) out r.0 (window r.1 true n (p + k))
                    s.some_bytes)
              tail)
    ]

-- The body of a message with a `Content-Length` is just so many bytes, however they arrive and are
-- spread over the buffer and the wire, and what follows it, the next request, is left on the
-- connection to be read: no byte is lost, and none of the body is left. As many bytes as are
-- announced come before the end of the wire.
pub body_of-sized :
    (w : Wire) (bytes rest : Bytes)
    → available w ≡ bytes ++ rest
    → (w' : Wire) × (body_of w (sized (length bytes)) ≡ some (bytes, w')) × (available w' ≡ rest)
unfolding body_of
body_of-sized w bytes rest e =
    let n : ℕ = length bytes in
    let taken =
      read_all-Taken (length (available w) + 2) n 0 w false bytes [] rest e (omega arith)
        (omega (arith, ap length e, length-append bytes rest)) in
    (
      taken.after.inner,
      ap (λ r. read_all reader (length (available w) + 2) r [] >>= λ x. some (x.0, x.1.inner))
            (range_stream_lem w n)
          ∙ ap (λ o. o >>= λ x. some (x.0, x.1.inner)) taken.made,
      taken.left,
    )
