-- ===== src/Protocol/QueryString/RoundTrip.antt =====
-- A query string of encoded pairs is read back.
use libnhttp.Base.{
  ap₂, ℕ, zero, suc, ◌≤◌, ◌<◌, ◌≡◌, ◌≢◌, refl, ap, ◌∙◌, List, [], ◌∷◌, ◌++◌, arith, Bytes, IsByte,
  All, All-append, ◌==◌, true, false, Bool-cases, inl, inr, sym, Option, some, none, if◌then◌else◌,
  length, length-append,
}
use mathlib.Core.Path.{subst}
use libnhttp.Base.Text.{bytes_eq, bytes_eq_refl, eq-of_bytes_eq}
use libnhttp.Protocol.HttpHeader.{cut}
use libnhttp.Protocol.HttpHeader.RoundTrip.{cut-found}
use libnhttp.Protocol.UrlEncode.{url_encode}
use libnhttp.Protocol.UrlEncode.RoundTrip.{url_decode-url_encode, url_encode_apart}
use libnhttp.Protocol.QueryString.{
  assign, assign_cut, assign_pair, pair_and_rest, parse_loop, parse_query, get_query,
}

-- A pair as a client writes it, and pairs with `&` between them.
abbrev pub pair_text : Bytes × Bytes → Bytes
pair_text (k, v) = url_encode k ++ 61 ∷ url_encode v

abbrev pub query_text : List (Bytes × Bytes) → Bytes
query_text [] = []
query_text (p ∷ []) = pair_text p
query_text (p ∷ q ∷ ps) = pair_text p ++ 38 ∷ query_text (q ∷ ps)

-- The pairs assigned in turn.
abbrev pub assigned : List (Bytes × Bytes) → List (Bytes × Bytes) → List (Bytes × Bytes)
assigned [] values = values
assigned ((k, v) ∷ ps) values = assigned ps (assign k v values)

cut-none : (c : ℕ) (xs : Bytes) → All (λ x. x ≢ c) xs → cut c xs ≡ none
unfolding cut
cut-none c [] h = refl
cut-none c (x ∷ xs) h =
    let other : (x == c) ≡ false = ground arith in
    let rest = cut-none c xs h.1 in rw (other, cut, rest) refl

pair_text_apart : (p : Bytes × Bytes) → All (λ c. c ≢ 38) (pair_text p)
pair_text_apart (k, v) =
    All-append (λ c. c ≢ 38) (url_encode k) (61 ∷ url_encode v) (url_encode_apart k).0
      (omega arith, (url_encode_apart v).0)

text_some : (p : Bytes × Bytes) → 0 < length (pair_text p)
text_some (k, v) = omega (arith, length-append (url_encode k) (61 ∷ url_encode v))

assign_text :
    (t : Bytes) (k v : Bytes) (values : List (Bytes × Bytes))
    → t ≡ pair_text (k, v)
    → All IsByte k
    → All IsByte v
    → assign_pair t values ≡ assign k v values
assign_text [] k v values e bk bv = absurd (omega (arith, ap length e, text_some (k, v)))
assign_text (c ∷ t) k v values e bk bv =
    ap (λ (o : Option (Bytes × Bytes)). assign_cut (c ∷ t) o values)
      (ap (cut 61) e ∙ cut-found 61 (url_encode k) (url_encode v) (url_encode_apart k).1)
    ∙ ap₂ (λ (x y : Bytes). assign x y values) (url_decode-url_encode k bk)
        (url_decode-url_encode v bv)

-- One round.
parse_round :
    (n : ℕ) (t pair rest : Bytes) (values : List (Bytes × Bytes))
    → 0 < length t
    → pair_and_rest t (cut 38 t) ≡ (pair, rest)
    → parse_loop (suc n) t values ≡ parse_loop n rest (assign_pair pair values)
unfolding parse_loop
parse_round n [] pair rest values h e = absurd (omega arith)
parse_round n (c ∷ cs) pair rest values h e =
    ap (λ (q : Bytes × Bytes). parse_loop n q.1 (assign_pair q.0 values)) e

parse_loop-text :
    (ps : List (Bytes × Bytes)) (n : ℕ) (values : List (Bytes × Bytes))
    → length ps ≤ n
    → All (λ (p : Bytes × Bytes). All IsByte p.0 × All IsByte p.1) ps
    → parse_loop n (query_text ps) values ≡ assigned ps values
unfolding parse_loop
parse_loop-text [] n values h bytes = refl
parse_loop-text (p ∷ ps) zero values h bytes = absurd (omega arith)
parse_loop-text ((k, v) ∷ []) (suc n) values h bytes =
    parse_round n (pair_text (k, v)) (pair_text (k, v)) [] values (text_some (k, v)) (
      ap (pair_and_rest (pair_text (k, v)))
        (cut-none 38 (pair_text (k, v)) (pair_text_apart (k, v))))
    ∙ assign_text (pair_text (k, v)) k v values refl bytes.0.0 bytes.0.1
parse_loop-text ((k, v) ∷ q ∷ ps) (suc n) values h bytes =
    let text : Bytes = pair_text (k, v) in
    let rest : Bytes = query_text (q ∷ ps) in
    parse_round n (text ++ 38 ∷ rest) text rest values
      (omega (arith, text_some (k, v), length-append text (38 ∷ rest)))
      (ap (pair_and_rest (text ++ 38 ∷ rest)) (cut-found 38 text rest (pair_text_apart (k, v))))
    ∙ ap (parse_loop n rest) (assign_text text k v values refl bytes.0.0 bytes.0.1)
    ∙ parse_loop-text (q ∷ ps) n (assign k v values) (omega arith) bytes.1

text_length : (ps : List (Bytes × Bytes)) → length ps ≤ length (query_text ps)
text_length [] = omega arith
text_length (p ∷ []) = omega (arith, text_some p)
text_length (p ∷ q ∷ ps) =
    omega (arith, text_length (q ∷ ps), length-append (pair_text p) (38 ∷ query_text (q ∷ ps)))

parse_query-assigned :
    (ps : List (Bytes × Bytes))
    → All (λ (p : Bytes × Bytes). All IsByte p.0 × All IsByte p.1) ps
    → parse_query (query_text ps) ≡ assigned ps []
parse_query-assigned ps bytes =
    parse_loop-text ps (length (query_text ps)) [] (text_length ps) bytes

-- A value that is replaced does not matter.
shadowed :
    (key k v w : Bytes) (values : List (Bytes × Bytes))
    → get_query key ((k, v) ∷ values)
      ≡ (if bytes_eq k key then some v else get_query key ((k, w) ∷ values))
unfolding get_query
shadowed key k v w values = elim (Bool-cases (bytes_eq k key)) [
  | inl hit ↦ rw hit refl
  | inr miss ↦ rw miss refl
]

not_both : (k l key : Bytes) → bytes_eq l k ≡ false → bytes_eq l key ≡ true → bytes_eq k key ≡ false
not_both k l key other hit = elim (Bool-cases (bytes_eq k key)) [
  | inr apart ↦ apart
  | inl same ↦ absurd (cc (sym other ∙ ap (bytes_eq l) (eq-of_bytes_eq k key same) ∙ hit))
]

get_query-assign :
    (key k v : Bytes) (values : List (Bytes × Bytes))
    → get_query key (assign k v values) ≡ (if bytes_eq k key then some v else get_query key values)
unfolding get_query assign
get_query-assign key k v [] = refl
get_query-assign key k v ((l, w) ∷ values) = elim (Bool-cases (bytes_eq l k)) [
  | inl same ↦
      let equal : l ≡ k = eq-of_bytes_eq l k same in
      subst
        (λ (x : Bytes).
          get_query key (if bytes_eq x k then (x, v) ∷ values else (x, w) ∷ assign k v values)
          ≡ (if bytes_eq k key then some v else get_query key ((x, w) ∷ values)))
        (sym equal) (rw (bytes_eq_refl k) (shadowed key k v w values))
  | inr other ↦ elim (Bool-cases (bytes_eq l key)) [
    | inl hit ↦
        let apart : bytes_eq k key ≡ false = not_both k l key other hit in
        rw (other, get_query, hit, apart) refl
    | inr miss ↦ rw (other, get_query, miss) (get_query-assign key k v values)
  ]
]

-- The value that the last pair with a key has, or the one that was there.
unfoldable pub last_value : Bytes → List (Bytes × Bytes) → Option Bytes → Option Bytes
last_value key [] before = before
last_value key ((k, v) ∷ ps) before = last_value key ps (if bytes_eq k key then some v else before)

get_query-assigned :
    (key : Bytes) (ps values : List (Bytes × Bytes))
    → get_query key (assigned ps values) ≡ last_value key ps (get_query key values)
unfolding last_value
get_query-assigned key [] values = refl
get_query-assigned key ((k, v) ∷ ps) values =
    get_query-assigned key ps (assign k v values)
    ∙ ap (last_value key ps) (get_query-assign key k v values)

-- Of a query string that joins pairs by `&`, each a key and a value behind `url_encode` with `=` between
-- them, every key has the value of the last of its pairs, and a key of no pair has none. The
-- keys and values of the pairs are any bytes.
pub parse_query-query_text :
    (ps : List (Bytes × Bytes)) (key : Bytes)
    → All (λ (p : Bytes × Bytes). All IsByte p.0 × All IsByte p.1) ps
    → get_query key (parse_query (query_text ps)) ≡ last_value key ps none
unfolding get_query
parse_query-query_text ps key bytes =
    ap (get_query key) (parse_query-assigned ps bytes) ∙ get_query-assigned key ps []
