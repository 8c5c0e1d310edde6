-- ===== src/Server/Http1/Headers/RoundTrip.antt =====
-- A block of headers is read back.
use libnhttp.Base.{
  eq-of_some, ℕ, zero, suc, ◌+◌, ◌≤◌, ◌<◌, ◌≡◌, ◌≢◌, refl, sym, ap, ◌∙◌, List, [], ◌∷◌, ◌++◌, arith,
  append_assoc, append-nil, Bytes, All, All-append, ◌==◌, false, Bool-cases, Option-cases, inl, inr,
  Option, some, ◌>>=◌, length, length-append, drop, drop-length_append,
}
use mathlib.Core.Path.{subst}
use libnhttp.Base.{ap₂}
use libnhttp.Protocol.HttpHeader.{
  HttpHeader, cut, strip_cr, consumed, try_parse, header_line, write_to,
}
use libnhttp.Protocol.HttpHeader.RoundTrip.{cut-found, IsHeader, try_parse-write_to}
use libnhttp.Server.Http1.Headers.{
  Wire, find_line, on_parsed, on_line, headers_loop, available, read_headers,
}
use libnhttp.Server.Http1.Headers.Lines.{Found, find_line_lem}

strip_cr-last : (xs : Bytes) → strip_cr (xs ++ 13 ∷ []) ≡ xs
unfolding strip_cr
strip_cr-last [] = refl
strip_cr-last (x ∷ []) = refl
strip_cr-last (x ∷ y ∷ xs) = ap (λ (r : Bytes). x ∷ r) (strip_cr-last (y ∷ xs))

-- What the lines of the headers write, and the empty line behind them.
abbrev pub block : List HttpHeader → Bytes → Bytes
block [] rest = 13 ∷ 10 ∷ rest
block (h ∷ hs) rest = header_line h ++ block hs rest

-- The text of a header, without the end of its line.
abbrev text_of : HttpHeader → Bytes
text_of h = h.name ++ 58 ∷ 32 ∷ h.value

in_line : (h : HttpHeader) → IsHeader h → All (λ x. x ≢ 10) (text_of h ++ 13 ∷ [])
in_line h v =
    All-append (λ x. x ≢ 10) (text_of h) (13 ∷ [])
      (All-append (λ x. x ≢ 10) h.name (58 ∷ 32 ∷ h.value) v.name_in_line
        (omega arith, (omega arith, v.value_in_line)))
      (omega arith, tt)

header_line-text :
    (h : HttpHeader) (rest : Bytes) → header_line h ++ rest ≡ (text_of h ++ 13 ∷ []) ++ 10 ∷ rest
header_line-text h rest =
    append_assoc h.name (58 ∷ 32 ∷ (h.value ++ 13 ∷ 10 ∷ [])) rest
    ∙ ap (λ (xs : Bytes). h.name ++ 58 ∷ 32 ∷ xs)
        (append_assoc h.value (13 ∷ 10 ∷ []) rest
          ∙ sym (append_assoc h.value (13 ∷ []) (10 ∷ rest)))
    ∙ sym (append_assoc h.name (58 ∷ 32 ∷ (h.value ++ 13 ∷ [])) (10 ∷ rest))
    ∙ ap (λ (xs : Bytes). xs ++ 10 ∷ rest) (sym (append_assoc h.name (58 ∷ 32 ∷ h.value) (13 ∷ [])))

write_to-block :
    (hs : List HttpHeader) (out rest : Bytes)
    → write_to hs out ++ 13 ∷ 10 ∷ rest ≡ out ++ block hs rest
write_to-block [] out rest = refl
write_to-block (h ∷ hs) out rest =
    write_to-block hs (out ++ header_line h) rest ∙ append_assoc out (header_line h) (block hs rest)

-- What a text is made of that is cut.
cut-parts : (c : ℕ) (xs l r : Bytes) → cut c xs ≡ some (l, r) → xs ≡ l ++ c ∷ r
unfolding cut
cut-parts c [] l r e = absurd (cc)
cut-parts c (x ∷ xs) l r e = elim (Bool-cases (x == c)) [
  | inl here ↦
      let p = eq-of_some (rw here at e) in
      ap₂ (λ (a : ℕ) (bs : Bytes). a ∷ bs) {x = x} {y = c} (ground arith)
        (ap (λ (q : Bytes × Bytes). q.1) p)
      ∙ ap (λ (ls : Bytes). ls ++ c ∷ r) (ap (λ (q : Bytes × Bytes). q.0) p)
  | inr there ↦ elim (Option-cases (cut c xs)) [
    | inl missing ↦ absurd (cc (rw (there, cut, missing) at e))
    | inr (q, later) ↦
        let p = eq-of_some (rw (there, cut, later) at e) in
        ap (◌∷◌ x) (cut-parts c xs q.0 q.1 later)
        ∙ ap₂ (λ (ls rs : Bytes). ls ++ c ∷ rs) (ap (λ (k : Bytes × Bytes). k.0) p)
            (ap (λ (k : Bytes × Bytes). k.1) p)
  ]
]

on_line-end :
    (again : Wire → List HttpHeader → Option (List HttpHeader × Wire)) (w : Wire)
    (out : List HttpHeader) (more : Bytes)
    → on_line again w out (some (13 ∷ [], more)) ≡ some (out, record w { read_buffer = more })
unfolding on_line strip_cr
on_line-end again w out more = refl

on_line-header :
    (again : Wire → List HttpHeader → Option (List HttpHeader × Wire)) (w : Wire)
    (out : List HttpHeader) (h : HttpHeader) (more : Bytes)
    → IsHeader h
    → w.read_buffer ≡ header_line h ++ more
    → on_line again w out (some (text_of h ++ 13 ∷ [], more))
      ≡ again (record w { read_buffer = more }) (out ++ h ∷ [])
unfolding on_line on_parsed
on_line-header again w out h more v e =
    let full : (length (strip_cr (text_of h ++ 13 ∷ [])) == 0) ≡ false =
      ap (λ (xs : Bytes). length xs == 0) (strip_cr-last (text_of h))
      ∙ not_empty (text_of h) (omega (arith, length-append h.name (58 ∷ 32 ∷ h.value))) in
    let parsed : try_parse w.read_buffer ≡ consumed (length (header_line h)) h =
      ap try_parse e ∙ try_parse-write_to h more v in
    let dropped : drop (length (header_line h)) w.read_buffer ≡ more =
      ap (drop (length (header_line h))) e ∙ drop-length_append (header_line h) more in
    rw full (
      ap (on_parsed again w out) parsed
      ∙ ap (λ (bs : Bytes). again (record w { read_buffer = bs }) (out ++ h ∷ [])) dropped)
  where
    not_empty : (xs : Bytes) → 0 < length xs → (length xs == 0) ≡ false
    not_empty xs h = ground arith

-- The headers that are read, and a wire before `rest`.
pub record ReadBlock (hs : List HttpHeader) (rest : Bytes) (o : Option (List HttpHeader × Wire))
    : Type 0 where
  pub after : Wire
  pub made : o ≡ some (hs, after)
  pub left : available after ≡ rest

ReadBlock-of :
    {hs : List HttpHeader} {rest : Bytes} {o p : Option (List HttpHeader × Wire)}
    → o ≡ p
    → ReadBlock hs rest p
    → ReadBlock hs rest o
ReadBlock-of e r = record { after = r.after; made = e ∙ r.made; left = r.left }

loop-Found :
    (fuel n : ℕ) (w : Wire) (out : List HttpHeader) (line rest : Bytes)
    (f : Found w line rest (find_line n w))
    → headers_loop (suc fuel) n w out
      ≡ on_line (headers_loop fuel n) f.after out (some (line, f.at_front.0))
unfolding headers_loop
loop-Found fuel n w out line rest f =
    ap (λ o. o >>= λ w'. on_line (headers_loop fuel n) w' out (cut 10 w'.read_buffer)) f.made
    ∙ ap (on_line (headers_loop fuel n) f.after out) f.at_front.1

headers_loop_lem :
    (fuel n : ℕ) (w : Wire) (out hs : List HttpHeader) (rest : Bytes)
    → All IsHeader hs
    → All (λ h. length (header_line h) ≤ n) hs
    → 1 ≤ n
    → length hs < fuel
    → available w ≡ block hs rest
    → ReadBlock (out ++ hs) rest (headers_loop fuel n w out)
headers_loop_lem zero n w out hs rest v small one h e = absurd (omega arith)
headers_loop_lem (suc fuel) n w out [] rest v small one h e =
    let f =
      find_line_lem n w (13 ∷ []) rest one
        (ap (cut 10) e ∙ cut-found 10 (13 ∷ []) rest (omega arith, tt)) in
    subst (λ hs. ReadBlock hs rest (headers_loop (suc fuel) n w out)) (sym (append-nil out))
      (record {
        after = record f.after { read_buffer = f.at_front.0 };
        made =
            loop-Found fuel n w out (13 ∷ []) rest f
            ∙ on_line-end (headers_loop fuel n) f.after out f.at_front.0;
        left = f.at_front.2;
      })
headers_loop_lem (suc fuel) n w out (h ∷ hs) rest v small one k e =
    let line : Bytes = text_of h ++ 13 ∷ [] in
    let fits : length line ≤ n = omega (
      arith,
      small.0,
      ap length (append-nil (header_line h)),
      ap length (header_line-text h []),
      length-append line (10 ∷ []),
    ) in
    let f = find_line_lem n w line (block hs rest) fits (
      ap (cut 10) (e ∙ header_line-text h (block hs rest))
      ∙ cut-found 10 line (block hs rest) (in_line h v.0)) in
    let more : Bytes = f.at_front.0 in
    let buffered : f.after.read_buffer ≡ header_line h ++ more =
      cut-parts 10 f.after.read_buffer line more f.at_front.1 ∙ sym (header_line-text h more) in
    let next : Wire = record f.after { read_buffer = more } in
    let later =
      headers_loop_lem fuel n next (out ++ h ∷ []) hs rest v.1 small.1 one (omega arith)
        f.at_front.2 in
    subst (λ all. ReadBlock all rest (headers_loop (suc fuel) n w out))
      (append_assoc out (h ∷ []) hs)
      (ReadBlock-of
        (loop-Found fuel n w out line (block hs rest) f
          ∙ on_line-header (headers_loop fuel n) f.after out h more v.0 buffered)
        later)

block-length : (hs : List HttpHeader) (rest : Bytes) → length hs < length (block hs rest) + 1
block-length [] rest = omega arith
block-length (h ∷ hs) rest = omega (
  arith,
  block-length hs rest,
  length-append (header_line h) (block hs rest),
  length-append h.name (58 ∷ 32 ∷ (h.value ++ 13 ∷ 10 ∷ [])),
)

-- The headers that `write_to` writes, each line no longer than the limit, and the empty line behind them are
-- read back in their order, however the bytes arrive, and what follows them is left. Names are
-- not empty and have no colon, values have no blank at their ends, and neither has a line feed.
pub read_headers-block :
    (n : ℕ) (w : Wire) (hs : List HttpHeader) (rest : Bytes)
    → All IsHeader hs
    → All (λ h. length (header_line h) ≤ n) hs
    → 1 ≤ n
    → available w ≡ write_to hs [] ++ 13 ∷ 10 ∷ rest
    → ReadBlock hs rest (read_headers n w)
unfolding read_headers
read_headers-block n w hs rest v small one e =
    let whole : available w ≡ block hs rest = e ∙ write_to-block hs [] rest in
    headers_loop_lem (length (available w) + 1) n w [] hs rest v small one
      (omega (arith, ap length whole, block-length hs rest)) whole
