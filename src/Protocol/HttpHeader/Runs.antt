-- ===== src/Protocol/HttpHeader/Runs.antt =====
-- Headers on small inputs, and instances of the theorems.
use libnhttp.Base.{◌≡◌, refl, List, [], ◌∷◌, ◌++◌, arith, false, codes}
use libnhttp.Protocol.HttpHeader.{
  HttpHeader, cut, strip_cr, trim_front, trim_back, refused, consumed, try_parse, same_letters,
  header_name_equals, unset_header, add_header, isset, get_all,
}
use libnhttp.Protocol.HttpHeader.RoundTrip.{IsHeader}

abbrev host : HttpHeader
host = record { name = codes "Host"; value = codes "a b" }

abbrev hosts : List HttpHeader
hosts = add_header (codes "HOST") (codes "c") (host ∷ [])

blanks_run :
    try_parse (codes "A: \t b " ++ 10 ∷ [])
    ≡ consumed 8 (record { name = codes "A"; value = codes "b" })
unfolding cut strip_cr trim_front trim_back
blanks_run = refl

no_colon_run : try_parse (codes "A" ++ 10 ∷ []) ≡ refused
unfolding cut strip_cr
no_colon_run = refl

get_all_run : get_all (codes "host") hosts ≡ codes "a b" ∷ codes "c" ∷ []
unfolding get_all header_name_equals same_letters
get_all_run = refl

unset_run : unset_header (codes "hOST") hosts ≡ []
unfolding unset_header header_name_equals same_letters
unset_run = refl

isset_run : isset (codes "Hos") hosts ≡ false
unfolding isset header_name_equals same_letters
isset_run = refl

host-IsHeader : IsHeader host
unfolding trim_front trim_back
host-IsHeader = record {
  named = (λ e. cc);
  no_colon = (omega arith, (omega arith, (omega arith, (omega arith, tt))));
  name_in_line = (omega arith, (omega arith, (omega arith, (omega arith, tt))));
  value_in_line = (omega arith, (omega arith, (omega arith, tt)));
  front = refl;
  back = refl;
}
