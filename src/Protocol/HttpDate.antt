-- ===== src/Protocol/HttpDate.antt =====
-- src/protocol/http_date.cpp. `gmtime` and `timegm` are the C library's, parameters here. The buffer
-- of `format_http_date` holds the text of every year of six digits at most.
pub mod RoundTrip
mod Runs
use libnhttp.Base.{
  ℕ, ◌+◌, ◌-◌, ◌*◌, List, [], ◌∷◌, ◌++◌, Bytes, ltb, Bool, ◌||◌, Option, some, none, length, take,
  drop, get_or, if◌then◌else◌, codes,
}
use libnhttp.Base.Int.{ℤ, pos, negsuc, pos_part, neg_part, ◌+ℤ◌, ◌-ℤ◌, ltb_ℤ}
use libnhttp.Base.Text.{bytes_eq}
use libnhttp.Base.Decimal.Padded.{padded}

-- `std::tm`, as far as it is used.
pub record Tm : Type 0 where
  pub wday : ℕ
  pub mday : ℕ
  pub mon : ℕ
  pub year : ℤ
  pub hour : ℕ
  pub minute : ℕ
  pub second : ℕ

abbrev pub weekday_names : List Bytes
weekday_names =
    codes "Sun"
    ∷ codes "Mon"
    ∷ codes "Tue"
    ∷ codes "Wed"
    ∷ codes "Thu"
    ∷ codes "Fri"
    ∷ codes "Sat"
    ∷ []

abbrev pub month_names : List Bytes
month_names =
    codes "Jan"
    ∷ codes "Feb"
    ∷ codes "Mar"
    ∷ codes "Apr"
    ∷ codes "May"
    ∷ codes "Jun"
    ∷ codes "Jul"
    ∷ codes "Aug"
    ∷ codes "Sep"
    ∷ codes "Oct"
    ∷ codes "Nov"
    ∷ codes "Dec"
    ∷ []

-- `none` is the result -1.
pub month_from : Bytes → ℕ → List Bytes → Option ℕ
month_from name i [] = none
month_from name i (m ∷ ms) = if bytes_eq name m then some i else month_from name (i + 1) ms

pub month_index : Bytes → Option ℕ
unfolding month_from
month_index name = month_from name 0 month_names

-- The call of `snprintf`, for a year that is not negative.
pub date_text : Tm → Bytes
date_text tm =
    get_or weekday_names tm.wday []
    ++ codes ", "
    ++ padded 2 tm.mday
    ++ codes " "
    ++ get_or month_names tm.mon []
    ++ codes " "
    ++ padded 4 (pos_part (tm.year +ℤ pos 1900))
    ++ codes " "
    ++ padded 2 tm.hour
    ++ codes ":"
    ++ padded 2 tm.minute
    ++ codes ":"
    ++ padded 2 tm.second
    ++ codes " GMT"

pub to_int : Bytes → ℕ → ℤ
to_int [] value = pos value
to_int (c ∷ cs) value =
    let rest = to_int cs (value * 10 + (c - 48)) in if ltb c 48 || ltb 57 c then negsuc 0 else rest

-- `substr`
abbrev pub part : ℕ → ℕ → Bytes → Bytes
part at count text = take count (drop at text)

abbrev pub tm_of : ℕ → Bytes → Tm
tm_of month text = record {
  wday = 0;
  mday = pos_part (to_int (part 5 2 text) 0);
  mon = month;
  year = to_int (part 12 4 text) 0 -ℤ pos 1900;
  hour = pos_part (to_int (part 17 2 text) 0);
  minute = pos_part (to_int (part 20 2 text) 0);
  second = pos_part (to_int (part 23 2 text) 0);
}

abbrev pub fails : ℤ → Bool
fails z = ltb_ℤ z (pos 0)

pub parse_month : (Tm → ℤ) → Bytes → Option ℕ → ℤ
parse_month timegm text none = negsuc 0
parse_month timegm text (some month) =
    if fails (to_int (part 5 2 text) 0)
      || fails (to_int (part 17 2 text) 0)
      || fails (to_int (part 20 2 text) 0)
      || fails (to_int (part 23 2 text) 0)
    then negsuc 0
    else timegm (tm_of month text)

pub parse_http_date : (Tm → ℤ) → Bytes → ℤ
parse_http_date timegm text =
    if ltb (length text) 29 then negsuc 0 else parse_month timegm text (month_index (part 8 3 text))

pub format_http_date : (ℤ → Tm) → ℤ → Bytes
format_http_date gmtime time = date_text (gmtime time)
