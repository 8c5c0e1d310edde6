-- ===== src/Protocol/Resource/Runs.antt =====
-- Request lines on small inputs.
use libnhttp.Base.{ℕ, ◌≡◌, refl, [], ◌∷◌, ◌++◌, Option, some, none, codes}
use libnhttp.Base.Text.{bytes_eq}
use libnhttp.Protocol.HttpHeader.{cut, strip_cr}
use libnhttp.Protocol.Resource.{ParsedLine, wants_more, malformed, parsed, parse_resource}

abbrev version : ParsedLine → Option (ℕ × ℕ)
version wants_more = none
version malformed = none
version (parsed n r) = some (r.http_major, r.http_minor)

version_run : version (parse_resource (codes "GET / HTTP/1.0" ++ 13 ∷ 10 ∷ [])) ≡ some (1, 0)
unfolding cut strip_cr bytes_eq
version_run = refl

cut_off_run : parse_resource (codes "GET / HT") ≡ wants_more
unfolding cut
cut_off_run = refl

one_space_run : parse_resource (codes "GET /" ++ 10 ∷ []) ≡ malformed
unfolding cut strip_cr
one_space_run = refl
