-- ===== src/Protocol/HttpDate/Runs.antt =====
-- A run of the dates, and the round trip at the date of RFC 9110.
use libnhttp.Base.{◌≡◌, refl, arith, codes}
use libnhttp.Base.Int.{ℤ, pos, negsuc}
use libnhttp.Base.Text.{bytes_eq}
use libnhttp.Base.Decimal.{decimal, to_string}
use libnhttp.Base.Decimal.Padded.{zeros, padded}
use libnhttp.Protocol.HttpDate.{
  Tm, date_text, month_from, month_index, to_int, parse_month, parse_http_date, format_http_date,
}
use libnhttp.Protocol.HttpDate.RoundTrip.{IsDate, parse_http_date-format_http_date}

abbrev example : Tm
example = record { wday = 0; mday = 6; mon = 10; year = pos 94; hour = 8; minute = 49; second = 37 }

abbrev gmtime : ℤ → Tm
gmtime time = example

abbrev timegm : Tm → ℤ
timegm tm = pos 784111777

format_run : format_http_date gmtime (pos 784111777) ≡ codes "Sun, 06 Nov 1994 08:49:37 GMT"
unfolding format_http_date date_text padded zeros to_string decimal
format_run = refl

-- A year that is no number is not refused.
year_run : parse_http_date (λ tm. tm.year) (codes "Sun, 06 Nov abcd 08:49:37 GMT") ≡ negsuc 1900
unfolding parse_http_date parse_month month_index month_from to_int bytes_eq
year_run = refl

day_run : parse_http_date timegm (codes "Sun, xx Nov 1994 08:49:37 GMT") ≡ negsuc 0
unfolding parse_http_date parse_month month_index month_from to_int bytes_eq
day_run = refl

example-IsDate : IsDate example
example-IsDate = record {
  weekday = omega arith;
  day = omega arith;
  month = omega arith;
  year_of = 1994;
  year_lem = refl;
  year_fits = omega arith;
  hours = omega arith;
  minutes = omega arith;
  seconds = omega arith;
}

parse_http_date-format_http_date_example :
    parse_http_date timegm (format_http_date gmtime (pos 784111777)) ≡ pos 784111777
parse_http_date-format_http_date_example =
    parse_http_date-format_http_date gmtime timegm (pos 784111777) example-IsDate refl
