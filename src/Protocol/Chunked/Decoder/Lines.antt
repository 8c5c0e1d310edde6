-- ===== src/Protocol/Chunked/Decoder/Lines.antt =====
-- `read_line` gives the next line of the source, however it arrives.
use libnhttp.Base.{
  eq-of_some, ℕ, zero, suc, ◌+◌, ◌<◌, ◌≡◌, refl, sym, ap, ◌∙◌, [], ◌∷◌, ◌++◌, arith, Bytes, ◌==◌,
  Bool, true, false, Bool-cases, Option-cases, inl, inr, Option, some, none, length, if◌then◌else◌,
}
use mathlib.Core.Option.{none-ne-some}
use libnhttp.Protocol.HttpHeader.{cut, strip_cr}
use libnhttp.Protocol.Chunked.Decoder.{
  Decoder, fill_more, line_round, line_loop, read_line, readable, available,
}
use libnhttp.Protocol.Chunked.Decoder.Feed.{
  Alike, Alike-refl, Alike-trans, Ended, Grown, fill_more_cases, available-ended,
}

extended : Option (Bytes × Bytes) → Bytes → Option (Bytes × Bytes)
extended none ys = none
extended (some (l, r)) ys = some (l, r ++ ys)

rest_length : Option (Bytes × Bytes) → ℕ
rest_length none = 0
rest_length (some (l, r)) = length r

pub cut-append :
    (c : ℕ) (xs ys l r : Bytes) → cut c xs ≡ some (l, r) → cut c (xs ++ ys) ≡ some (l, r ++ ys)
unfolding cut extended
cut-append c [] ys l r e = absurd (cc)
cut-append c (x ∷ xs) ys l r e = elim (Bool-cases (x == c)) [
  | inl here ↦ rw here (ap (λ (o : Option (Bytes × Bytes)). extended o ys) (rw here at e))
  | inr there ↦ elim (Option-cases (cut c xs)) [
    | inl missing ↦ absurd (cc (rw (there, cut, missing) at e))
    | inr (found, at_rest) ↦
        let later = cut-append c xs ys found.0 found.1 at_rest in
        rw (there, cut, later)
          (ap (λ (o : Option (Bytes × Bytes)). extended o ys) (rw (there, cut, at_rest) at e))
  ]
]

-- What is cut off comes back, and is shorter.
pub cut-length : (c : ℕ) (xs l r : Bytes) → cut c xs ≡ some (l, r) → length r < length xs
unfolding cut rest_length
cut-length c [] l r e = absurd (cc)
cut-length c (x ∷ xs) l r e = elim (Bool-cases (x == c)) [
  | inl here ↦ omega (arith, ap (λ (o : Option (Bytes × Bytes)). rest_length o) (rw here at e))
  | inr there ↦ elim (Option-cases (cut c xs)) [
    | inl missing ↦ absurd (cc (rw (there, cut, missing) at e))
    | inr (found, at_rest) ↦ omega (
      arith,
      cut-length c xs found.0 found.1 at_rest,
      ap (λ (o : Option (Bytes × Bytes)). rest_length o) (rw (there, cut, at_rest) at e),
    )
  ]
]

-- The bytes that are there hold a line that the buffer begins with, or the buffer holds none.
pub record Line (d : Decoder) (line rest : Bytes) (r : Option Bytes × Decoder) : Type 0 where
  pub read : r.0 ≡ some (strip_cr line)
  pub left : available r.1 ≡ rest
  pub alike : Alike d r.1

line_round-found :
    (again : Decoder → Option Bytes × Decoder) (d : Decoder) (line rest l r : Bytes)
    → cut 10 (available d) ≡ some (line, rest)
    → cut 10 d.buffer ≡ some (l, r)
    → Line d line rest (line_round again d (some (l, r)))
unfolding line_round
line_round-found again d line rest l r whole found =
    let both : some (l, r ++ (if d.eof_source then [] else readable d.incoming))
        ≡ some (line, rest) =
      sym (cut-append 10 d.buffer (if d.eof_source then [] else readable d.incoming) l r found)
      ∙ whole in
    record {
      read =
          ap (λ (s : Bytes). some (strip_cr s)) (ap (λ (p : Bytes × Bytes). p.0) (eq-of_some both));
      left = ap (λ (p : Bytes × Bytes). p.1) (eq-of_some both);
      alike = record { finished = refl; remaining = refl; need = refl };
    }

line_round-more :
    (again : Decoder → Option Bytes × Decoder) (d : Decoder)
    → d.eof_source ≡ false
    → line_round again d none ≡ again (fill_more d).1
unfolding line_round
line_round-more again d e = ap (λ (b : Bool). if b then (none, d) else again (fill_more d).1) e

Line-later :
    {d e : Decoder} (line rest : Bytes) (r : Option Bytes × Decoder)
    → Alike d e
    → Line e line rest r
    → Line d line rest r
Line-later line rest r a l = record { read = l.read; left = l.left; alike = Alike-trans a l.alike }

line_loop_lem :
    (fuel : ℕ) (d : Decoder) (line rest : Bytes)
    → length d.incoming < fuel
    → cut 10 (available d) ≡ some (line, rest)
    → Line d line rest (line_loop fuel d)
unfolding line_loop
line_loop_lem zero d line rest h whole = absurd (omega arith)
line_loop_lem (suc fuel) d line rest h whole = elim (Option-cases (cut 10 d.buffer)) [
  | inr (found, at_front) ↦
      rw at_front (line_round-found (line_loop fuel) d line rest found.0 found.1 whole at_front)
  | inl missing ↦ elim (Bool-cases d.eof_source) [
    | inl ended ↦
        absurd (none-ne-some _ (sym missing ∙ ap (cut 10) (sym (available-ended d ended)) ∙ whole))
    | inr running ↦
        rw (missing, line_round-more (line_loop fuel) d running)
          (elim (fill_more_cases d running) [
            | inl last ↦
                absurd (none-ne-some _ (sym missing ∙ ap (cut 10) (sym last.whole) ∙ whole))
            | inr more ↦ Line-later line rest (line_loop fuel (fill_more d).1) more.alike (
                line_loop_lem fuel (fill_more d).1 line rest (omega (arith, more.taken))
                  (ap (cut 10) more.same ∙ whole))
          ])
  ]
]

-- The next line, without its end, and what follows it, whatever the reads.
pub read_line_lem :
    (d : Decoder) (line rest : Bytes)
    → cut 10 (available d) ≡ some (line, rest)
    → Line d line rest (read_line d)
unfolding read_line
read_line_lem d line rest whole =
    line_loop_lem (length d.incoming + 2) d line rest (omega arith) whole

line_round-ended :
    (again : Decoder → Option Bytes × Decoder) (d : Decoder)
    → d.eof_source ≡ true
    → line_round again d none ≡ (none, d)
unfolding line_round
line_round-ended again d e = ap (λ (b : Bool). if b then (none, d) else again (fill_more d).1) e

-- Where there is no line, the loop ends with none.
pub record Lineless (d : Decoder) (r : Option Bytes × Decoder) : Type 0 where
  pub missing : r.0 ≡ none
  pub same : available r.1 ≡ available d
  pub alike : Alike d r.1

fuel-Ended :
    {d : Decoder} {fuel : ℕ}
    → length d.incoming + (if d.eof_source then 0 else 1) < suc fuel
    → d.eof_source ≡ false
    → Ended d (fill_more d).1
    → length (fill_more d).1.incoming + (if (fill_more d).1.eof_source then 0 else 1) < fuel
fuel-Ended h e l = ground (arith, l.done, l.fewer)

fuel-Grown :
    {d : Decoder} {fuel : ℕ}
    → length d.incoming + (if d.eof_source then 0 else 1) < suc fuel
    → d.eof_source ≡ false
    → Grown d (fill_more d).1
    → length (fill_more d).1.incoming + (if (fill_more d).1.eof_source then 0 else 1) < fuel
fuel-Grown h e g = ground (arith, g.taken)

line_loop-none :
    (fuel : ℕ) (d : Decoder)
    → length d.incoming + (if d.eof_source then 0 else 1) < fuel
    → cut 10 (available d) ≡ none
    → Lineless d (line_loop fuel d)
unfolding line_loop
line_loop-none zero d h whole = absurd (omega arith)
line_loop-none (suc fuel) d h whole = elim (Option-cases (cut 10 d.buffer)) [
  | inr (found, at_front) ↦ absurd (
      none-ne-some _ (
        sym whole
        ∙ cut-append 10 d.buffer (if d.eof_source then [] else readable d.incoming) found.0 found.1
            at_front))
  | inl missing ↦ elim (Bool-cases d.eof_source) [
    | inl ended ↦
        rw (missing, line_round-ended (line_loop fuel) d ended)
          (record { missing = refl; same = refl; alike = Alike-refl d })
    | inr running ↦
        rw (missing, line_round-more (line_loop fuel) d running)
          (elim (fill_more_cases d running) [
            | inl last ↦
                let over = (fill_more d).1 in
                let rest =
                  line_loop-none fuel over (fuel-Ended h running last)
                    (ap (cut 10) (available-ended over last.done ∙ last.kept) ∙ missing) in
                record {
                  missing = rest.missing;
                  same = rest.same ∙ available-ended over last.done ∙ last.kept ∙ sym last.whole;
                  alike = Alike-trans last.alike rest.alike;
                }
            | inr more ↦
                let rest =
                  line_loop-none fuel (fill_more d).1 (fuel-Grown h running more)
                    (ap (cut 10) more.same ∙ whole) in
                record {
                  missing = rest.missing;
                  same = rest.same ∙ more.same;
                  alike = Alike-trans more.alike rest.alike;
                }
          ])
  ]
]

fuel_enough :
    (d : Decoder) → length d.incoming + (if d.eof_source then 0 else 1) < length d.incoming + 2
fuel_enough d = ground arith

pub read_line-none : (d : Decoder) → cut 10 (available d) ≡ none → Lineless d (read_line d)
unfolding read_line
read_line-none d whole = line_loop-none (length d.incoming + 2) d (fuel_enough d) whole
