-- ===== src/Server/Http1/Headers/Lines.antt =====
-- The lines of a wire, however its bytes arrive.
use libnhttp.Base.{
  eq-of_some, ℕ, zero, suc, ◌+◌, ◌≤◌, ◌<◌, ◌≡◌, ◌⊎◌, refl, sym, ap, ◌∙◌, List, [], ◌∷◌, ◌++◌, arith,
  append_assoc, append-nil, Bytes, ltb, ◌==◌, false, Bool-cases, Option-cases, inl, inr, Option,
  some, none, length,
}
use mathlib.Core.Option.{none-ne-some}
use libnhttp.Protocol.HttpHeader.{cut}
use libnhttp.Protocol.Chunked.Decoder.Lines.{cut-append}
use libnhttp.Server.Http1.Headers.{
  Wire, fill, line_round, line_loop, find_line, readable, available,
}

-- A wire with a line in its buffer, and what is the same.
pub record Found (w : Wire) (line rest : Bytes) (o : Option Wire) : Type 0 where
  pub after : Wire
  pub made : o ≡ some after
  pub same : available after ≡ available w
  pub at_front :
      (more : Bytes) × (cut 10 after.read_buffer ≡ some (line, more))
      × (more ++ readable after.incoming ≡ rest)

fill_cases :
    (w : Wire) (t : List Bytes)
    → w.incoming ≡ t
    → (available w ≡ w.read_buffer)
      ⊎ ((w' : Wire) × (fill t w ≡ some w')
          × (available w' ≡ available w)
          × (length w'.incoming < length t))
unfolding fill
fill_cases w [] e = inl (rw e (append-nil w.read_buffer))
fill_cases w ([] ∷ more) e = inl (rw e (append-nil w.read_buffer))
fill_cases w ((b ∷ bs) ∷ more) e = inr (
  record { read_buffer = w.read_buffer ++ b ∷ bs; incoming = more },
  refl,
  rw e (append_assoc w.read_buffer (b ∷ bs) (readable more)),
  omega arith,
)

line_length : Option (Bytes × Bytes) → ℕ
line_length none = 0
line_length (some (l, r)) = length l

-- A buffer without a line feed is no longer than the line.
no_line-short :
    (xs ys line rest : Bytes)
    → cut 10 xs ≡ none
    → cut 10 (xs ++ ys) ≡ some (line, rest)
    → length xs ≤ length line
unfolding cut line_length
no_line-short [] ys line rest none_here found = omega arith
no_line-short (x ∷ xs) ys line rest none_here found = elim (Bool-cases (x == 10)) [
  | inl here ↦ absurd (cc (rw here at none_here))
  | inr there ↦ elim (Option-cases (cut 10 xs)) [
    | inr (p, in_rest) ↦ absurd (cc (rw (there, cut, in_rest) at none_here))
    | inl none_there ↦ elim (Option-cases (cut 10 (xs ++ ys))) [
      | inl missing ↦ absurd (cc (rw (there, cut, missing) at found))
      | inr (p, later) ↦ omega (
        arith,
        no_line-short xs ys p.0 p.1 none_there later,
        ap (λ o. line_length o) (rw (there, cut, later) at found),
      )
    ]
  ]
]

line_round-more :
    (again : Wire → Option Wire) (n : ℕ) (w w' : Wire)
    → length w.read_buffer ≤ n
    → fill w.incoming w ≡ some w'
    → line_round again n w none ≡ again w'
unfolding line_round
line_round-more again n w w' h e =
    let small : ltb n (length w.read_buffer) ≡ false = ground arith in rw (small, e)

line_round-found :
    (again : Wire → Option Wire) (n : ℕ) (w : Wire) (p : Bytes × Bytes)
    → line_round again n w (some p) ≡ some w
unfolding line_round
line_round-found again n w p = refl

line_loop_lem :
    (fuel n : ℕ) (w : Wire) (line rest : Bytes)
    → length w.incoming < fuel
    → length line ≤ n
    → cut 10 (available w) ≡ some (line, rest)
    → Found w line rest (line_loop fuel n w)
unfolding line_loop
line_loop_lem zero n w line rest h small whole = absurd (omega arith)
line_loop_lem (suc fuel) n w line rest h small whole = elim (Option-cases (cut 10 w.read_buffer)) [
  | inr (p, at_front) ↦
      let both : some (p.0, p.1 ++ readable w.incoming) ≡ some (line, rest) =
        sym (cut-append 10 w.read_buffer (readable w.incoming) p.0 p.1 at_front) ∙ whole in
      record {
        after = w;
        made =
            ap (line_round (line_loop fuel n) n w) at_front
            ∙ line_round-found (line_loop fuel n) n w p;
        same = refl;
        at_front = (
          p.1,
          at_front
              ∙ ap (λ (l : Bytes). some (l, p.1))
                  (ap (λ (q : Bytes × Bytes). q.0) (eq-of_some both)),
          ap (λ (q : Bytes × Bytes). q.1) (eq-of_some both),
        );
      }
  | inl missing ↦ elim (fill_cases w w.incoming refl) [
    | inl over ↦ absurd (none-ne-some _ (sym missing ∙ ap (cut 10) (sym over) ∙ whole))
    | inr (w', filled, same, fewer) ↦
        let later =
          line_loop_lem fuel n w' line rest (omega arith) small (ap (cut 10) same ∙ whole) in
        record {
          after = later.after;
          made =
              ap (line_round (line_loop fuel n) n w) missing
              ∙ line_round-more (line_loop fuel n) n w w'
                  (omega (
                    arith,
                    no_line-short w.read_buffer (readable w.incoming) line rest missing whole,
                  ))
                  filled
              ∙ later.made;
          same = later.same ∙ same;
          at_front = later.at_front;
        }
  ]
]

-- The next line of the wire, where it fits.
pub find_line_lem :
    (n : ℕ) (w : Wire) (line rest : Bytes)
    → length line ≤ n
    → cut 10 (available w) ≡ some (line, rest)
    → Found w line rest (find_line n w)
unfolding find_line
find_line_lem n w line rest small whole =
    line_loop_lem (length w.incoming + 1) n w line rest (omega arith) small whole
