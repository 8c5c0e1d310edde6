-- ===== src/Server/StaticContent/RangeHeader/Runs.antt =====
-- Concrete runs of `parse_range_header`, and its theorems at concrete headers.
use libnhttp.Base.{◌-◌, ◌≤◌, ◌<◌, ◌≡◌, refl, ◌++◌, arith, true, false, some, min, codes}
use libnhttp.Base.Int.{pos, ◌≤ℤ◌}
use libnhttp.Base.Text.{bytes_eq}
use libnhttp.Protocol.HttpHeader.{cut}
use libnhttp.Server.StaticContent.RangeHeader.{
  RangeRequest, absent, judged, suffix_range, last_of, bounded_range, first_range, dash_range,
  parse_digits, range_of_value, parse_range_header,
}
use libnhttp.Server.StaticContent.RangeHeader.Bounds.{parse_range_header-inside}
use libnhttp.Server.StaticContent.RangeHeader.Written.{
  from_to, from_on, last_bytes, asked, parse_range_header-written,
}

middle_run : parse_range_header (some (codes "bytes=2-5,8-9")) (pos 10) ≡ some (asked 2 5)
unfolding parse_range_header range_of_value dash_range first_range bounded_range last_of
    parse_digits judged cut bytes_eq
middle_run = refl

suffix_run : parse_range_header (some (codes "bytes=-3")) (pos 10) ≡ some (asked 7 9)
unfolding parse_range_header range_of_value dash_range suffix_range parse_digits judged cut bytes_eq
suffix_run = refl

-- A header that is not understood is neither present nor unsatisfiable.
unit_run : parse_range_header (some (codes "items=0-1")) (pos 10) ≡ some absent
unfolding parse_range_header range_of_value bytes_eq
unit_run = refl

parse_range_header-inside_example : (2 ≤ 5) × (pos 6 ≤ℤ pos 10)
parse_range_header-inside_example =
    parse_range_header-inside (some (codes "bytes=2-5,8-9")) (pos 10) (asked 2 5) middle_run refl
      refl

parse_range_header-written_example :
    (2 < 10
      → parse_range_header (some (codes "bytes=" ++ from_to 2 5)) (pos 10)
        ≡ some (asked 2 (min 5 9)))
    × (2 < 10 → parse_range_header (some (codes "bytes=" ++ from_on 2)) (pos 10) ≡ some (asked 2 9))
    × (parse_range_header (some (codes "bytes=" ++ last_bytes 3)) (pos 10)
        ≡ some (asked (10 - 3) 9))
    × (10 ≤ 2
        → (r : RangeRequest) × (parse_range_header (some (codes "bytes=" ++ from_to 2 5)) (pos 10)
            ≡ some r)
          × (r.present ≡ true)
          × (r.satisfiable ≡ false))
parse_range_header-written_example =
    parse_range_header-written 10 2 5 3 (omega arith) (omega arith) (omega arith) (omega arith)
      (omega arith) (omega arith)
