-- ===== src/Protocol/Chunked/Decoder/Steps.antt =====
-- A read, where the source goes on with a chunk, with the header of one, or with the last one.
use libnhttp.Base.{
  ℕ, zero, suc, ◌+◌, ◌^◌, ◌<◌, ◌≡◌, ◌≢◌, refl, sym, ap, ◌∙◌, [], ◌∷◌, ◌++◌, arith, append_assoc,
  Bytes, All, All-append, Bool, true, false, Option, some, length, codes,
}
use mathlib.Core.Path.{subst}
use libnhttp.Protocol.HttpHeader.{cut, strip_cr}
use libnhttp.Protocol.HttpHeader.RoundTrip.{cut-found}
use libnhttp.Protocol.Chunked.{format_chunk_header, digit_value, read_digits, chunk_size}
use libnhttp.Protocol.Chunked.RoundTrip.{chunk_line}
use libnhttp.Protocol.Chunked.Decoder.{
  Decoder, read_line, available, trailer_round, trailer_loop, on_size, on_line, begin_next_chunk,
  read,
}
use libnhttp.Protocol.Chunked.Decoder.Lines.{Line, read_line_lem}

-- Before a chunk header, with `rest` to come.
pub record AtHeader (d : Decoder) (rest : Bytes) : Type 0 where
  pub running : d.finished ≡ false
  pub need : d.need_new_chunk ≡ true
  pub to_come : available d ≡ rest

-- In a chunk, with the bytes `b ∷ bs` of it to come, its end, and `rest`.
pub record InChunk (d : Decoder) (b : ℕ) (bs rest : Bytes) : Type 0 where
  pub running : d.finished ≡ false
  pub need : d.need_new_chunk ≡ false
  pub remaining : d.remaining_in_chunk ≡ length (b ∷ bs)
  pub to_come : available d ≡ (b ∷ bs) ++ 13 ∷ 10 ∷ rest

-- Where a decoder stands that has the bytes `left` of a chunk to come.
abbrev pub Standing : Decoder → Bytes → Bytes → Type 0
Standing d [] rest = AtHeader d rest
Standing d (b ∷ bs) rest = InChunk d b bs rest

strip_cr-last : (xs : Bytes) → strip_cr (xs ++ 13 ∷ []) ≡ xs
unfolding strip_cr
strip_cr-last [] = refl
strip_cr-last (x ∷ []) = refl
strip_cr-last (x ∷ y ∷ xs) = ap (λ (r : Bytes). x ∷ r) (strip_cr-last (y ∷ xs))

-- A line of the source with both characters of its end.
pub read_line-ended :
    (d : Decoder) (line rest : Bytes)
    → All (λ x. x ≢ 10) line
    → available d ≡ line ++ 13 ∷ 10 ∷ rest
    → Line d (line ++ 13 ∷ []) rest (read_line d) × ((read_line d).0 ≡ some line)
read_line-ended d line rest free e =
    let found = read_line_lem d (line ++ 13 ∷ []) rest (
      ap (cut 10) (e ∙ sym (append_assoc line (13 ∷ []) (10 ∷ rest)))
      ∙ cut-found 10 (line ++ 13 ∷ []) rest
          (All-append (λ x. x ≢ 10) line (13 ∷ []) free (omega arith, tt))) in
    (found, found.read ∙ ap some (strip_cr-last line))

pair_eta : (r : Option Bytes × Decoder) (o : Option Bytes) → r.0 ≡ o → r ≡ (o, r.1)
pair_eta r o e = ap (λ (x : Option Bytes). (x, r.1)) e

-- What a header leads to.
pub record Begun (n : ℕ) (rest : Bytes) (r : Bool × Decoder) : Type 0 where
  pub on : r.0 ≡ true
  pub running : r.1.finished ≡ false
  pub remaining : r.1.remaining_in_chunk ≡ n
  pub need : r.1.need_new_chunk ≡ false
  pub to_come : available r.1 ≡ rest

on_size-Begun :
    (n : ℕ) (rest : Bytes) (d : Decoder)
    → 0 < n
    → d.finished ≡ false
    → available d ≡ rest
    → Begun n rest (on_size (some n) d)
unfolding on_size
on_size-Begun zero rest d h f e = absurd (omega arith)
on_size-Begun (suc n) rest d h f e = record {
  on = refl;
  running = f;
  remaining = refl;
  need = refl;
  to_come = e;
}

pub begin-header :
    (d : Decoder) (n : ℕ) (rest : Bytes)
    → 0 < n
    → n < 2 ^ 64
    → AtHeader d (format_chunk_header n ++ rest)
    → Begun n rest (begin_next_chunk d)
unfolding begin_next_chunk on_line
begin-header d n rest some_bytes fits at =
    let h = chunk_line n fits in
    let whole : available d ≡ h.line ++ 13 ∷ 10 ∷ rest =
      at.to_come
      ∙ ap (λ (bs : Bytes). bs ++ rest) h.text
      ∙ append_assoc h.line (13 ∷ 10 ∷ []) rest in
    let (line, read) = read_line-ended d h.line rest h.in_line whole in
    subst (λ r. Begun n rest (on_line r)) (sym (pair_eta (read_line d) (some h.line) read))
      (subst (λ o. Begun n rest (on_size o (read_line d).1)) (sym h.size)
        (on_size-Begun n rest (read_line d).1 some_bytes (line.alike.finished ∙ at.running)
          line.left))

-- The last chunk, without trailers.
pub record Over (rest : Bytes) (r : Bool × Decoder) : Type 0 where
  pub off : r.0 ≡ false
  pub done : r.1.finished ≡ true
  pub to_come : available r.1 ≡ rest

trailer_loop-empty :
    (fuel : ℕ) (d : Decoder) (rest : Bytes)
    → available d ≡ 13 ∷ 10 ∷ rest
    → available (trailer_loop (suc fuel) d) ≡ rest
unfolding trailer_loop trailer_round
trailer_loop-empty fuel d rest e =
    let (line, read) = read_line-ended d [] rest tt e in
    ap (λ r. available (trailer_round (trailer_loop fuel) r))
      (pair_eta (read_line d) (some []) read)
    ∙ line.left

on_size-Over :
    (rest : Bytes) (d : Decoder) → available d ≡ 13 ∷ 10 ∷ rest → Over rest (on_size (some 0) d)
unfolding on_size
on_size-Over rest d e = record {
  off = refl;
  done = refl;
  to_come =
      ap (λ (k : ℕ). available (trailer_loop k d)) {x = length (available d) + 1}
        {y = suc (length (available d))} (omega arith)
      ∙ trailer_loop-empty (length (available d)) d rest e;
}

pub begin-last :
    (d : Decoder) (rest : Bytes)
    → AtHeader d (codes "0\r\n\r\n" ++ rest)
    → Over rest (begin_next_chunk d)
unfolding begin_next_chunk on_line chunk_size read_digits digit_value
begin-last d rest at =
    let (line, read) = read_line-ended d (48 ∷ []) (13 ∷ 10 ∷ rest) (omega arith, tt) at.to_come in
    subst (λ r. Over rest (on_line r)) (sym (pair_eta (read_line d) (some (48 ∷ [])) read))
      (on_size-Over rest (read_line d).1 line.left)
