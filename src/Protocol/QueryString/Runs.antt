-- ===== src/Protocol/QueryString/Runs.antt =====
-- Query strings on small inputs, and an instance of the theorem.
use libnhttp.Base.{◌≡◌, refl, [], ◌∷◌, arith, List, Bytes, some, none, codes}
use libnhttp.Base.Text.{bytes_eq}
use libnhttp.Protocol.HttpHeader.{cut}
use libnhttp.Protocol.QueryString.{assign, parse_loop, parse_query, get_query}
use libnhttp.Protocol.QueryString.RoundTrip.{
  query_text, assigned, last_value, parse_query-query_text,
}

empty_pairs_run : parse_query (codes "&&") ≡ []
unfolding parse_loop cut
empty_pairs_run = refl

last_value_run :
    get_query (codes "a") (assigned ((codes "a", codes "1") ∷ (codes "a", codes "2") ∷ []) [])
    ≡ some (codes "2")
unfolding get_query assign bytes_eq
last_value_run = refl

abbrev pairs : List (Bytes × Bytes)
pairs = (codes "a", codes "1") ∷ (codes "b", codes "&") ∷ (codes "a", codes "2") ∷ []

parse_query-query_text_example :
    get_query (codes "a") (parse_query (query_text pairs)) ≡ last_value (codes "a") pairs none
parse_query-query_text_example = parse_query-query_text pairs (codes "a") (
  ((omega arith, tt), (omega arith, tt)),
  (((omega arith, tt), (omega arith, tt)), (((omega arith, tt), (omega arith, tt)), tt)),
)
