-- ===== src/Protocol/HttpDate/RoundTrip.antt =====
-- A date that is printed is read back.
use libnhttp.Base.{
  ℕ, ◌+◌, ◌-◌, ◌*◌, ◌/◌, ◌%◌, ◌<◌, ◌≡◌, refl, sym, ap, ◌∙◌, [], ◌∷◌, ◌++◌, arith, Bytes, ltb, ◌==◌,
  ==_iff, Bool, true, false, Option, some, none, length, get_or, codes,
}
use libnhttp.Base.Int.{pos-nonneg, ℤ, pos, pos_part, ◌+ℤ◌, ◌-ℤ◌}
use libnhttp.Base.Bits.{holds_below, holds_below-at}
use libnhttp.Base.Text.{bytes_eq}
use libnhttp.Base.Decimal.Padded.{fixed, padded-fixed}
use libnhttp.Protocol.HttpDate.{
  Tm, weekday_names, month_names, month_from, month_index, date_text, to_int, parse_month,
  parse_http_date, format_http_date,
}

-- Fields that the format has room for.
pub record IsDate (tm : Tm) : Type 0 where
  pub weekday : tm.wday < 7
  pub day : tm.mday < 100
  pub month : tm.mon < 12
  pub year_of : ℕ
  pub year_lem : tm.year ≡ pos year_of -ℤ pos 1900
  pub year_fits : year_of < 10000
  pub hours : tm.hour < 100
  pub minutes : tm.minute < 100
  pub seconds : tm.second < 100

-- Three letters.
record Three (name : Bytes) : Type 0 where
  a : ℕ
  b : ℕ
  c : ℕ
  letters : name ≡ a ∷ b ∷ c ∷ []

Three-of : (s : Bytes) → length s ≡ 3 → Three s
Three-of [] h = absurd (omega arith)
Three-of (a ∷ []) h = absurd (omega arith)
Three-of (a ∷ b ∷ []) h = absurd (omega arith)
Three-of (a ∷ b ∷ c ∷ []) h = record { a = a; b = b; c = c; letters = refl }
Three-of (a ∷ b ∷ c ∷ d ∷ s) h = absurd (omega arith)

weekday-Three : (n : ℕ) → n < 7 → Three (get_or weekday_names n [])
unfolding holds_below
weekday-Three n h =
    Three-of (get_or weekday_names n [])
      ((==_iff _ 3).0 (holds_below-at (λ k. length (get_or weekday_names k []) == 3) 7 n h refl))

month-Three : (n : ℕ) → n < 12 → Three (get_or month_names n [])
unfolding holds_below
month-Three n h =
    Three-of (get_or month_names n [])
      ((==_iff _ 3).0 (holds_below-at (λ k. length (get_or month_names k []) == 3) 12 n h refl))

found_at : ℕ → Option ℕ → Bool
found_at n none = false
found_at n (some m) = m == n

found_at_lem : (n : ℕ) (o : Option ℕ) → found_at n o ≡ true → o ≡ some n
unfolding found_at
found_at_lem n none h = absurd (cc)
found_at_lem n (some m) h = ap some ((==_iff m n).0 h)

month_index-month_names : (n : ℕ) → n < 12 → month_index (get_or month_names n []) ≡ some n
unfolding holds_below month_index month_from found_at bytes_eq
month_index-month_names n h =
    found_at_lem n (month_index (get_or month_names n []))
      (holds_below-at (λ k. found_at k (month_index (get_or month_names k []))) 12 n h refl)

to_int-digit :
    (d : ℕ) (rest : Bytes) (value : ℕ)
    → d < 10
    → to_int ((48 + d) ∷ rest) value ≡ to_int rest (value * 10 + d)
unfolding to_int
to_int-digit d rest value h =
    let low : ltb (48 + d) 48 ≡ false = ground arith in
    let high : ltb 57 (48 + d) ≡ false = ground arith in
    rw (low, high)
      (ap (λ (k : ℕ). to_int rest (value * 10 + k)) {x = 48 + d - 48} {y = d} (omega arith))

to_int_end : (value n : ℕ) → value ≡ n → to_int [] value ≡ pos n
unfolding to_int
to_int_end value n e = ap pos e

two_digits : (n : ℕ) → n < 100 → to_int (fixed 2 n) 0 ≡ pos n
two_digits n h =
    to_int-digit (n / 10 % 10) ((48 + n % 10) ∷ []) 0 (omega arith)
    ∙ to_int-digit (n % 10) [] (0 * 10 + n / 10 % 10) (omega arith)
    ∙ to_int_end ((0 * 10 + n / 10 % 10) * 10 + n % 10) n (omega arith)

four_digits : (n : ℕ) → n < 10000 → to_int (fixed 4 n) 0 ≡ pos n
four_digits n h =
    let a : ℕ = n / 10 / 10 / 10 % 10 in
    let b : ℕ = n / 10 / 10 % 10 in
    let c : ℕ = n / 10 % 10 in
    to_int-digit a (_ ∷ _ ∷ _ ∷ []) 0 (omega arith)
    ∙ to_int-digit b (_ ∷ _ ∷ []) (0 * 10 + a) (omega arith)
    ∙ to_int-digit c (_ ∷ []) ((0 * 10 + a) * 10 + b) (omega arith)
    ∙ to_int-digit (n % 10) [] (((0 * 10 + a) * 10 + b) * 10 + c) (omega arith)
    ∙ to_int_end ((((0 * 10 + a) * 10 + b) * 10 + c) * 10 + n % 10) n (omega arith)

-- The text with its parts spelled out.
abbrev spelled : (w m : Bytes) → (day year hour minute second : ℕ) → Bytes
spelled w m day year hour minute second =
    w
    ++ codes ", "
    ++ fixed 2 day
    ++ codes " "
    ++ m
    ++ codes " "
    ++ fixed 4 year
    ++ codes " "
    ++ fixed 2 hour
    ++ codes ":"
    ++ fixed 2 minute
    ++ codes ":"
    ++ fixed 2 second
    ++ codes " GMT"

date_text-spelled :
    (tm : Tm) (d : IsDate tm)
    → date_text tm
      ≡ spelled
          (get_or weekday_names tm.wday [])
          (get_or month_names tm.mon [])
          tm.mday
          d.year_of
          tm.hour
          tm.minute
          tm.second
unfolding date_text
date_text-spelled tm d =
    let year : pos_part (tm.year +ℤ pos 1900) ≡ d.year_of =
      ap (λ (z : ℤ). pos_part (z +ℤ pos 1900)) d.year_lem ∙ ground arith in
    rw (
      year,
      padded-fixed 1 tm.mday d.day,
      padded-fixed 3 d.year_of d.year_fits,
      padded-fixed 1 tm.hour d.hours,
      padded-fixed 1 tm.minute d.minutes,
      padded-fixed 1 tm.second d.seconds,
    )

parse-spelled :
    (timegm : Tm → ℤ) (w m : Bytes) (wv : Three w) (mv : Three m)
    (mon day year hour minute second : ℕ)
    → month_index m ≡ some mon
    → day < 100
    → year < 10000
    → hour < 100
    → minute < 100
    → second < 100
    → parse_http_date timegm (spelled w m day year hour minute second)
      ≡ timegm (record {
        wday = 0;
        mday = day;
        mon = mon;
        year = pos year -ℤ pos 1900;
        hour = hour;
        minute = minute;
        second = second;
      })
unfolding parse_http_date parse_month
parse-spelled timegm w m wv mv mon day year hour minute second found hd hy hh hm hs =
    let shape : month_index (mv.a ∷ mv.b ∷ mv.c ∷ []) ≡ some mon =
      ap month_index (sym mv.letters) ∙ found in
    rw (
      wv.letters,
      mv.letters,
      shape,
      two_digits day hd,
      four_digits year hy,
      two_digits hour hh,
      two_digits minute hm,
      two_digits second hs,
      pos-nonneg day,
      pos-nonneg hour,
      pos-nonneg minute,
      pos-nonneg second,
    )

-- The date that `format_http_date` prints is read back as the time that it stands for: the fields
-- that `gmtime` gives fit their places in the text, and `timegm` is its inverse there, whatever the
-- day of the week.
pub parse_http_date-format_http_date :
    (gmtime : ℤ → Tm) (timegm : Tm → ℤ) (time : ℤ)
    → IsDate (gmtime time)
    → timegm (record (gmtime time) { wday = 0 }) ≡ time
    → parse_http_date timegm (format_http_date gmtime time) ≡ time
unfolding format_http_date
parse_http_date-format_http_date gmtime timegm time d inverse =
    let tm = gmtime time in
    ap (parse_http_date timegm) (date_text-spelled tm d)
    ∙ parse-spelled timegm (get_or weekday_names tm.wday []) (get_or month_names tm.mon [])
        (weekday-Three tm.wday d.weekday) (month-Three tm.mon d.month) tm.mon tm.mday d.year_of
        tm.hour tm.minute tm.second (month_index-month_names tm.mon d.month) d.day d.year_fits
        d.hours d.minutes d.seconds
    ∙ ap (λ (y : ℤ). timegm (record tm { wday = 0; year = y })) (sym d.year_lem)
    ∙ inverse
