-- ===== src/Server/StaticContent/Etags/Runs.antt =====
-- Concrete runs of `etag_list_contains`, and its theorem at a concrete list.
use libnhttp.Base.{◌≡◌, refl, [], arith, true, false, codes}
use libnhttp.Base.Text.{bytes_eq}
use libnhttp.Protocol.HttpHeader.{cut}
use libnhttp.Server.StaticContent.Etags.{
  trim_front, trim_back, token_round, contains_loop, etag_list_contains,
}
use libnhttp.Server.StaticContent.Etags.Listed.{IsTag}

found_run : etag_list_contains (codes "\"a\",  \"b\" ,\"c\"") (codes "\"b\"") ≡ true
unfolding etag_list_contains contains_loop token_round trim_front trim_back cut bytes_eq
found_run = refl

empty_run : etag_list_contains [] [] ≡ false
unfolding etag_list_contains contains_loop
empty_run = refl

weak_run : etag_list_contains (codes "W/\"a\"") (codes "\"a\"") ≡ false
unfolding etag_list_contains contains_loop token_round trim_front trim_back cut bytes_eq
weak_run = refl

first-IsTag : IsTag (codes "\"a\"")
unfolding trim_front trim_back
first-IsTag = record {
  not_empty = λ e. cc;
  no_comma = (omega arith, (omega arith, (omega arith, tt)));
  front = refl;
  back = refl;
}

second-IsTag : IsTag (codes "\"b\"")
unfolding trim_front trim_back
second-IsTag = record {
  not_empty = λ e. cc;
  no_comma = (omega arith, (omega arith, (omega arith, tt)));
  front = refl;
  back = refl;
}
