-- ===== src/Server/StaticContent/Serve/Partial.antt =====
-- The bytes of a partial answer of `serve_stream_conditionally`, src/server/extensions/static_content.cpp.
use libnhttp.Base.{
  eq-of_some, ℕ, ◌+◌, ◌-◌, ◌^◌, ◌≤◌, ◌<◌, ◌≡◌, refl, sym, ap, ◌∙◌, ◌++◌, arith, Bytes, Bool, false,
  some, none, length, min, if◌then◌else◌, codes,
}
use libnhttp.Base.{ap₂}
use libnhttp.Base.Int.{ℤ, pos}
use libnhttp.Io.Stream.{Stream, IsSeekable}
use libnhttp.Io.Range.{range_stream}
use libnhttp.Io.Range.Window.{bounded_range, IsWindow, range_stream-IsWindow}
use libnhttp.Protocol.HttpDate.{Tm}
use libnhttp.Protocol.HttpHeader.{get_header}
use libnhttp.Server.Response.{Response}
use libnhttp.Server.StaticContent.RangeHeader.{RangeRequest, parse_range_header}
use libnhttp.Server.StaticContent.RangeHeader.Written.{
  asked, from_to, from_on, last_bytes, parse_range_header-written,
}
use libnhttp.Server.StaticContent.Serve.{
  Body, ranged, content_range, Asked, is_head, serve_stream_conditionally,
}
use libnhttp.Server.StaticContent.Serve.Ranged.{served-range}

-- A `Range` header as a client writes it, with the first and the last byte that it asks for of `size` bytes.
pub data WantsRange (size : ℕ) : Bytes → ℕ → ℕ → Type 0 where
  closed :
      {a b : ℕ}
      → a < 2 ^ 63
      → b < 2 ^ 63
      → a ≤ b
      → a < size
      → WantsRange size (codes "bytes=" ++ from_to a b) a (min b (size - 1))
  open_ended :
      {a : ℕ} → a < 2 ^ 63 → a < size → WantsRange size (codes "bytes=" ++ from_on a) a (size - 1)
  suffix :
      {n : ℕ}
      → n < 2 ^ 63
      → 0 < n
      → WantsRange size (codes "bytes=" ++ last_bytes n) (size - n) (size - 1)

WantsRange-parsed :
    {size first last : ℕ} {v : Bytes}
    → 0 < size
    → WantsRange size v first last
    → (parse_range_header (some v) (pos size) ≡ some (asked first last))
      × (first ≤ last)
      × (last < size)
WantsRange-parsed full (closed {a = a} {b = b} fa fb le inside) = (
  (parse_range_header-written _ a b 1 full fa fb (omega arith) le (omega arith)).0 inside,
  omega arith,
  omega arith,
)
WantsRange-parsed full (open_ended {a = a} fa inside) = (
  (parse_range_header-written _ a a 1 full fa fa (omega arith) (omega arith) (omega arith)).1
      inside,
  omega arith,
  omega arith,
)
WantsRange-parsed full (suffix {n = n} fn some_n) = (
  (parse_range_header-written _ 0 0 n full (omega arith) (omega arith) fn (omega arith) some_n).2,
  omega arith,
  omega arith,
)

module _ {S : Type 0} (i : Stream S) (laws : IsSeekable i) (s : S) (mime : Bytes) where
  open laws use {Good, content}

  -- A partial answer with the bytes from `first` to `last` of the content, and no other.
  pub record Partial (first last : ℕ) (r : Response (Body S)) : Type 0 where
    pub body_lem : r.body ≡ some (ranged (bounded_range s false first (last + 1) 0))
    pub is_window : IsWindow i laws s false first (last + 1) 0
    pub announced :
        get_header (codes "Content-Range") r.headers
        ≡ some (content_range first last (pos (length (content s))))
    pub count : r.content_length ≡ pos (last + 1 - first)

  range_lem :
      (first last : ℕ)
      → Good s
      → first ≤ last
      → last < length (content s)
      → (range_stream i s (pos first) (pos (last + 1)) ≡ bounded_range s false first (last + 1) 0)
        × IsWindow i laws s false first (last + 1) 0
  range_lem first last g le inside =
      let (b, e, made, b_lem, e_lem, w) = range_stream-IsWindow i laws s first (last + 1) g in
      let from : b ≡ first = omega (arith, b_lem) in
      let to : e ≡ last + 1 = omega (arith, b_lem, e_lem) in
      (
        made ∙ ap₂ (λ x y. bounded_range s false x y 0) from to,
        record { good = g; ordered = omega arith; inside = omega arith; placed = refl },
      )

  -- Where the `Range` header is written as one of the three forms for bytes from `first` to `last`, and the answer
  -- to a request other than HEAD has the status 206, its body is a range of the content that holds
  -- just these bytes, `Content-Range` names them, and the length is theirs. The stream can be
  -- sought, and holds as many bytes as the size says, at least one.
  pub serve_stream_conditionally-range :
      (gmtime : ℤ → Tm) (timegm : Tm → ℤ) (req : Asked) (mtime : ℤ) (etag v : Bytes)
      (first last : ℕ) (r : Response (Body S))
      → Good s
      → 0 < length (content s)
      → get_header (codes "Range") req.headers ≡ some v
      → WantsRange (length (content s)) v first last
      → is_head req ≡ false
      → serve_stream_conditionally i s (pos (length (content s))) mime gmtime timegm req mtime etag
        ≡ some r
      → r.status ≡ 206
      → Partial first last r
  serve_stream_conditionally-range gmtime timegm req mtime etag v first last r g full header wants
        get made status =
      let (parsed, le, inside) = WantsRange-parsed full wants in
      let (rr, good, _) =
        served-range i s (pos (length (content s))) mime gmtime timegm req mtime etag r made
          status in
      let same : rr ≡ asked first last = eq-of_some (
        sym good.parsed
        ∙ ap (λ o. parse_range_header o (pos (length (content s)))) header
        ∙ parsed) in
      let (range, w) = range_lem first last g le inside in
      record {
        body_lem =
            good.body_lem
            ∙ ap₂
                (λ (b : Bool) (x : RangeRequest).
                  if b
                  then none
                  else some (ranged (range_stream i s (pos x.first) (pos (x.last + 1)))))
                get same
            ∙ ap (λ x. some (ranged x)) range;
        is_window = w;
        announced =
            good.announced
            ∙ ap
                (λ (x : RangeRequest).
                  some (content_range x.first x.last (pos (length (content s)))))
                same;
        count =
            good.count (
              omega (
                arith,
                le,
                ap (λ (x : RangeRequest). x.first) same,
                ap (λ (x : RangeRequest). x.last) same,
              ))
            ∙ ap (λ (x : RangeRequest). pos (x.last + 1 - x.first)) same;
      }
