-- ===== src/Server/StaticContent/RangeHeader/Bounds.antt =====
-- A range that can be served lies in the content.
use libnhttp.Base.{
  eq-of_some, ℕ, ◌+◌, ◌-◌, ◌≤◌, ◌<◌, ◌≡◌, ap, [], ◌∷◌, arith, Bytes, ◌==◌, true, Bool-cases, inl,
  inr, Option, some, none, take, drop, min, codes,
}
use mathlib.Core.Path.{subst}
use libnhttp.Base.Int.{ℤ, pos, pos_part, ltb_ℤ, ◌≤ℤ◌}
use libnhttp.Base.Text.{bytes_eq}
use libnhttp.Protocol.HttpHeader.{cut}
use libnhttp.Server.StaticContent.RangeHeader.{
  Digits, number, malformed, overflow, RangeRequest, judged, suffix_range, last_of, bounded_range,
  first_range, dash_range, before_comma, parse_digits, range_of_value, parse_range_header,
}

-- What is asked for, and can be served, is in the first `size` bytes.
abbrev Inside : ℕ → RangeRequest → Type 0
Inside size r = r.present ≡ true → r.satisfiable ≡ true → (r.first ≤ r.last) × (r.last < size)

judged-Inside : (size first last : ℕ) → last < size → Inside size (judged size first last)
unfolding judged
judged-Inside size first last h p s = ground arith

bounded_range-Inside :
    (size first : ℕ) (d : Digits) (r : RangeRequest)
    → 0 < size
    → bounded_range size first d ≡ some r
    → Inside size r
unfolding bounded_range
bounded_range-Inside size first overflow r h e = absurd (cc)
bounded_range-Inside size first malformed r h e =
    λ p s. absurd (cc (ap (λ (x : RangeRequest). x.satisfiable) (eq-of_some e)))
bounded_range-Inside size first (number last) r h e =
    subst (Inside size) (eq-of_some e)
      (judged-Inside size first (min last (size - 1)) (omega arith))

first_range-Inside :
    (size : ℕ) (end_s : Bytes) (d : Digits) (r : RangeRequest)
    → 0 < size
    → first_range size end_s d ≡ some r
    → Inside size r
unfolding first_range
first_range-Inside size end_s overflow r h e = absurd (cc)
first_range-Inside size end_s malformed r h e =
    λ p s. absurd (cc (ap (λ (x : RangeRequest). x.satisfiable) (eq-of_some e)))
first_range-Inside size end_s (number first) r h e =
    bounded_range-Inside size first (last_of size end_s) r h e

suffix_range-Inside :
    (size : ℕ) (d : Digits) (r : RangeRequest)
    → 0 < size
    → suffix_range size d ≡ some r
    → Inside size r
unfolding suffix_range
suffix_range-Inside size overflow r h e = absurd (cc)
suffix_range-Inside size malformed r h e =
    λ p s. absurd (cc (ap (λ (x : RangeRequest). x.satisfiable) (eq-of_some e)))
suffix_range-Inside size (number n) r h e = elim (Bool-cases (n == 0)) [
  | inl zero_bytes ↦ λ p s.
      absurd (cc (ap (λ (x : RangeRequest). x.satisfiable) (eq-of_some (rw zero_bytes at e))))
  | inr some_bytes ↦
      subst (Inside size) (eq-of_some (rw some_bytes at e))
        (judged-Inside size (size - n) (size - 1) (omega arith))
]

dash_range-Inside :
    (size : ℕ) (c : Option (Bytes × Bytes)) (r : RangeRequest)
    → 0 < size
    → dash_range size c ≡ some r
    → Inside size r
unfolding dash_range
dash_range-Inside size none r h e =
    λ p s. absurd (cc (ap (λ (x : RangeRequest). x.present) (eq-of_some e)))
dash_range-Inside size (some ([], [])) r h e =
    λ p s. absurd (cc (ap (λ (x : RangeRequest). x.satisfiable) (eq-of_some e)))
dash_range-Inside size (some ([], c ∷ cs)) r h e =
    suffix_range-Inside size (parse_digits (c ∷ cs) 0) r h e
dash_range-Inside size (some (c ∷ cs, end_s)) r h e =
    first_range-Inside size end_s (parse_digits (c ∷ cs) 0) r h e

-- A range that `parse_range_header` finds and holds for satisfiable is not empty and ends before the
-- end of the content.
pub parse_range_header-inside :
    (value : Option Bytes) (size : ℤ) (r : RangeRequest)
    → parse_range_header value size ≡ some r
    → r.present ≡ true
    → r.satisfiable ≡ true
    → (r.first ≤ r.last) × (pos (r.last + 1) ≤ℤ size)
unfolding parse_range_header range_of_value
parse_range_header-inside none size r e p s =
    absurd (cc (ap (λ (x : RangeRequest). x.present) (eq-of_some e)))
parse_range_header-inside (some v) size r e p s = elim (Bool-cases (ltb_ℤ (pos 0) size)) [
  | inl full ↦ elim (Bool-cases (bytes_eq (take 6 v) (codes "bytes="))) [
    | inl unit ↦
        let found =
          dash_range-Inside (pos_part size) (cut 45 (before_comma (drop 6 v) (cut 44 (drop 6 v)))) r
            (ground arith) (rw (full, unit) at e) p s in
        (found.0, ground (arith, found.1))
    | inr other ↦
        absurd (cc (ap (λ (x : RangeRequest). x.present) (eq-of_some (rw (full, other) at e))))
  ]
  | inr empty ↦ absurd (cc (ap (λ (x : RangeRequest). x.present) (eq-of_some (rw empty at e))))
]
