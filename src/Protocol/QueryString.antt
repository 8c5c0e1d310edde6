-- ===== src/Protocol/QueryString.antt =====
-- src/protocol/http_query_string.cpp. The map is the list of its entries, a key once; the order in which
-- the source's map stands is not modelled.
pub mod RoundTrip
mod Runs
use libnhttp.Base.{ℕ, zero, suc, List, [], ◌∷◌, Bytes, Option, some, none, length, if◌then◌else◌}
use libnhttp.Base.Text.{
  bytes_eq, bytes_lt, bytes_eq_refl, eq-of_bytes_eq, bytes_eq_iff, bytes_lt_irrefl, bytes_lt_trans,
  bytes_lt_total,
}
use libnhttp.Protocol.HttpHeader.{cut}
use libnhttp.Protocol.UrlEncode.{url_decode}

-- An assignment to `values_[key]`.
unfoldable pub assign : Bytes → Bytes → List (Bytes × Bytes) → List (Bytes × Bytes)
assign key value [] = (key, value) ∷ []
assign key value ((k, v) ∷ values) =
    let rest = assign key value values in
    if bytes_eq k key then (k, value) ∷ values else (k, v) ∷ rest

-- The body of the loop, behind the test for an empty pair.
abbrev pub assign_cut : Bytes → Option (Bytes × Bytes) → List (Bytes × Bytes) → List (Bytes × Bytes)
assign_cut pair none values = assign (url_decode pair) [] values
assign_cut pair (some (key, value)) values = assign (url_decode key) (url_decode value) values

abbrev pub assign_pair : Bytes → List (Bytes × Bytes) → List (Bytes × Bytes)
assign_pair [] values = values
assign_pair (c ∷ pair) values = assign_cut (c ∷ pair) (cut 61 (c ∷ pair)) values

-- The next pair, and what is left of the string.
abbrev pub pair_and_rest : Bytes → Option (Bytes × Bytes) → Bytes × Bytes
pair_and_rest raw none = (raw, [])
pair_and_rest raw (some (pair, rest)) = (pair, rest)

-- The loop; a round takes a character at least.
unfoldable pub parse_loop : ℕ → Bytes → List (Bytes × Bytes) → List (Bytes × Bytes)
parse_loop n [] values = values
parse_loop zero (c ∷ cs) values = values
parse_loop (suc n) (c ∷ cs) values =
    let next = pair_and_rest (c ∷ cs) (cut 38 (c ∷ cs)) in
    parse_loop n next.1 (assign_pair next.0 values)

abbrev pub parse_query : Bytes → List (Bytes × Bytes)
parse_query raw = parse_loop (length raw) raw []

unfoldable pub get_query : Bytes → List (Bytes × Bytes) → Option Bytes
get_query key [] = none
get_query key ((k, v) ∷ values) = if bytes_eq k key then some v else get_query key values
