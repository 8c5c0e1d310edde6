-- ===== src/Protocol/MimeType/Parameters/Runs.antt =====
-- Concrete runs of the parameters of a header.
use libnhttp.Base.{◌≡◌, refl, codes, some, ◌++◌, ◌∷◌, []}
use libnhttp.Base.Text.{bytes_eq, bytes_lt}
use libnhttp.Protocol.HttpHeader.{cut, trim_front, trim_back}
use libnhttp.Protocol.MimeType.Parameters.{
  emplace, parameters_loop, parse_header_parameters, parse, parameter, parameters_text, mime_text,
}

charset_run :
    parameter
      (codes "charset")
      (parse (codes "text/html; q=1 ; charset=" ++ 34 ∷ codes "utf-8" ++ 34 ∷ [])).parameters
    ≡ some (codes "utf-8")
unfolding parse_header_parameters parameters_loop emplace parameter bytes_eq bytes_lt cut trim_front
    trim_back
charset_run = refl

first_run : parameter (codes "a") (parse_header_parameters (codes "a=1;a=2")) ≡ some (codes "1")
unfolding parse_header_parameters parameters_loop emplace parameter bytes_eq bytes_lt cut trim_front
    trim_back
first_run = refl

-- A semicolon inside quotes ends the parameter.
cut_run :
    parameter
      (codes "boundary")
      (parse_header_parameters (codes "boundary=" ++ 34 ∷ codes "a;b" ++ 34 ∷ []))
    ≡ some (34 ∷ codes "a")
unfolding parse_header_parameters parameters_loop emplace parameter bytes_eq bytes_lt cut trim_front
    trim_back
cut_run = refl

sorted_run : mime_text (parse (codes "a/b;z=1;c=2")) ≡ codes "a/b; c=2; z=1"
unfolding parse_header_parameters parameters_loop emplace parameters_text bytes_eq bytes_lt cut
    trim_front trim_back
sorted_run = refl
