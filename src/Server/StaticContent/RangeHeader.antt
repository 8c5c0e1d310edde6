-- ===== src/Server/StaticContent/RangeHeader.antt =====
-- `parse_digits` and `parse_range_header` of src/server/extensions/static_content.cpp. An int64_t
-- that overflows is undefined, and ends the model with `none` or `overflow`. No number is negative
-- behind the test of the size.
pub mod Bounds
pub mod Written
mod Runs
use libnhttp.Base.{
  ℕ, ◌+◌, ◌-◌, ◌*◌, ◌^◌, [], ◌∷◌, Bytes, leb, ltb, ◌==◌, Bool, true, false, ◌||◌, Option, some,
  none, take, drop, if◌then◌else◌, min, codes,
}
use libnhttp.Base.Int.{ℤ, pos, pos_part, neg_part, ltb_ℤ}
use libnhttp.Base.Text.{bytes_eq}
use libnhttp.Protocol.HttpHeader.{cut}

abbrev pub int64_end : ℕ
int64_end = 2 ^ 63

pub data Digits : Type 0 where
  number : ℕ → Digits
  malformed : Digits
  overflow : Digits

unfoldable pub parse_digits : Bytes → ℕ → Digits
parse_digits [] out = number out
parse_digits (c ∷ cs) out =
    let next = out * 10 + (c - 48) in
    let rest = parse_digits cs next in
    if ltb c 48 || ltb 57 c then malformed else if ltb next int64_end then rest else overflow

-- `last` is the source's `end`, the last byte itself.
pub record RangeRequest : Type 0 where
  pub present : Bool
  pub satisfiable : Bool
  pub first : ℕ
  pub last : ℕ

abbrev pub absent : RangeRequest
absent = record { present = false; satisfiable = true; first = 0; last = 0 }

abbrev pub unsatisfiable : RangeRequest
unsatisfiable = record { present = true; satisfiable = false; first = 0; last = 0 }

-- The test at the end.
unfoldable pub judged : ℕ → ℕ → ℕ → RangeRequest
judged size first last = record {
  present = true;
  satisfiable = if ltb last first || leb size first then false else true;
  first = first;
  last = last;
}

pub suffix_range : ℕ → Digits → Option RangeRequest
suffix_range size overflow = none
suffix_range size malformed = some unsatisfiable
suffix_range size (number n) =
    if n == 0 then some unsatisfiable else some (judged size (size - n) (size - 1))

unfoldable pub last_of : ℕ → Bytes → Digits
last_of size [] = number (size - 1)
last_of size (c ∷ cs) = parse_digits (c ∷ cs) 0

unfoldable pub bounded_range : ℕ → ℕ → Digits → Option RangeRequest
bounded_range size first overflow = none
bounded_range size first malformed = some unsatisfiable
bounded_range size first (number last) = some (judged size first (min last (size - 1)))

unfoldable pub first_range : ℕ → Bytes → Digits → Option RangeRequest
first_range size end_s overflow = none
first_range size end_s malformed = some unsatisfiable
first_range size end_s (number first) = bounded_range size first (last_of size end_s)

-- What stands before the dash, and behind it.
unfoldable pub dash_range : ℕ → Option (Bytes × Bytes) → Option RangeRequest
dash_range size none = some absent
dash_range size (some ([], [])) = some unsatisfiable
dash_range size (some ([], c ∷ cs)) = suffix_range size (parse_digits (c ∷ cs) 0)
dash_range size (some (c ∷ cs, end_s)) = first_range size end_s (parse_digits (c ∷ cs) 0)

abbrev pub before_comma : Bytes → Option (Bytes × Bytes) → Bytes
before_comma v none = v
before_comma v (some (v', rest)) = v'

unfoldable pub range_of_value : ℕ → Bytes → Option RangeRequest
range_of_value size v =
    if bytes_eq (take 6 v) (codes "bytes=")
    then dash_range size (cut 45 (before_comma (drop 6 v) (cut 44 (drop 6 v))))
    else some absent

unfoldable pub parse_range_header : Option Bytes → ℤ → Option RangeRequest
parse_range_header none content_size = some absent
parse_range_header (some v) content_size =
    if ltb_ℤ (pos 0) content_size then range_of_value (pos_part content_size) v else some absent
