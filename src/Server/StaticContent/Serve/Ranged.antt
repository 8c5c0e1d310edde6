-- ===== src/Server/StaticContent/Serve/Ranged.antt =====
-- Partial answers.
use libnhttp.Base.{
  eq-of_some, ◌+◌, ◌-◌, ◌≤◌, ◌≡◌, ◌≢◌, refl, sym, ap, ◌∙◌, arith, Bytes, Bool, true, false, not,
  Bool-cases, inl, inr, some, none, >>=-eq-some, if◌then◌else◌, codes,
}
use mathlib.Core.Path.{subst}
use libnhttp.Base.Int.{◌≤ℤ◌, ℤ, pos, -ℤ-pos, pos-nonneg}
use libnhttp.Io.Stream.{Stream}
use libnhttp.Io.Range.{range_stream}
use libnhttp.Protocol.HttpDate.{Tm, format_http_date}
use libnhttp.Protocol.HttpHeader.{get_header, same_letters, header_name_equals}
use libnhttp.Protocol.HttpHeader.Lookup.{get_header-set_header}
use libnhttp.Server.Response.{Response}
use libnhttp.Server.StaticContent.RangeHeader.{RangeRequest, parse_range_header}
use libnhttp.Server.StaticContent.RangeHeader.Bounds.{parse_range_header-inside}
use libnhttp.Server.StaticContent.Serve.{
  Body, ranged, content_range, Asked, is_head, Verdict, modified, not_modified, failed, finalize,
  refused_answer, range_answer, partial_answer, whole_answer, answer, serve_stream_conditionally,
}

module _ {S : Type 0} (i : Stream S) (content : S) (size : ℤ) (mime : Bytes) where
  -- An answer with a part of the content: what the header is parsed to, under the status 206.
  pub record Serves (req : Asked) (rr : RangeRequest) (r : Response (Body S)) : Type 0 where
    pub parsed : parse_range_header (get_header (codes "Range") req.headers) size ≡ some rr
    pub can : rr.satisfiable ≡ true
    pub body_lem : r.body ≡ (
        if is_head req
        then none
        else some (ranged (range_stream i content (pos rr.first) (pos (rr.last + 1)))))
    pub announced :
        get_header (codes "Content-Range") r.headers ≡ some (content_range rr.first rr.last size)
    pub count : rr.first ≤ rr.last → r.content_length ≡ pos (rr.last + 1 - rr.first)

  partial-Serves :
      (req : Asked) (rr : RangeRequest) (etag last : Bytes)
      → parse_range_header (get_header (codes "Range") req.headers) size ≡ some rr
      → rr.satisfiable ≡ true
      → Serves req rr (finalize req etag last (partial_answer i content size mime rr))
  unfolding finalize partial_answer header_name_equals same_letters
  partial-Serves req rr etag last e h = record {
    parsed = e;
    can = h;
    body_lem = refl;
    announced =
        get_header-set_header (codes "Cache-Control") (codes "Content-Range") _ _
        ∙ get_header-set_header (codes "Last-Modified") (codes "Content-Range") last _
        ∙ get_header-set_header (codes "ETag") (codes "Content-Range") etag _
        ∙ get_header-set_header (codes "Accept-Ranges") (codes "Content-Range") (codes "bytes") _
        ∙ get_header-set_header (codes "Content-Range") (codes "Content-Range")
            (content_range rr.first rr.last size) _;
    count = λ k.
        rw (-ℤ-pos (rr.last + 1) rr.first (omega (arith, k)), pos-nonneg (rr.last + 1 - rr.first));
  }

  refused_status :
      (req : Asked) (etag last : Bytes)
      → (finalize req etag last (refused_answer i content size mime)).status ≢ 206
  unfolding finalize refused_answer
  refused_status req etag last = λ h. absurd (omega (arith, h))

  range_answer-satisfiable :
      (rr : RangeRequest) (b : Bool)
      → rr.satisfiable ≡ b
      → range_answer i content size mime rr ≡ (
          if not b
          then refused_answer i content size mime
          else partial_answer i content size mime rr)
  unfolding range_answer
  range_answer-satisfiable rr b e =
      ap
        (λ (x : Bool).
          if not x
          then refused_answer i content size mime
          else partial_answer i content size mime rr)
        e

  range_answer-Serves :
      (req : Asked) (rr : RangeRequest) (etag last : Bytes)
      → parse_range_header (get_header (codes "Range") req.headers) size ≡ some rr
      → (finalize req etag last (range_answer i content size mime rr)).status ≡ 206
      → Serves req rr (finalize req etag last (range_answer i content size mime rr))
  range_answer-Serves req rr etag last e h = elim (Bool-cases rr.satisfiable) [
    | inl good ↦
        subst (λ x. Serves req rr (finalize req etag last x))
          (sym (range_answer-satisfiable rr true good)) (partial-Serves req rr etag last e good)
    | inr bad ↦ absurd (
        refused_status req etag last (
          ap (λ x. (finalize req etag last x).status) (sym (range_answer-satisfiable rr false bad))
          ∙ h))
  ]

  answer-Serves :
      (fails : Bool) (req : Asked) (ranges : Bool) (v : Verdict) (etag last : Bytes)
      (a : Response (Body S))
      → answer i content size mime fails (get_header (codes "Range") req.headers) ranges v ≡ some a
      → (finalize req etag last a).status ≡ 206
      → (rr : RangeRequest) × Serves req rr (finalize req etag last a)
  unfolding answer whole_answer finalize
  answer-Serves true req ranges v etag last a e h =
      absurd (omega (arith, ap (λ x. x.status) (eq-of_some e)))
  answer-Serves false req ranges failed etag last a e h =
      absurd (omega (arith, ap (λ x. x.status) (eq-of_some e)))
  answer-Serves false req ranges not_modified etag last a e h =
      absurd (omega (arith, ap (λ x. x.status) (eq-of_some e)))
  answer-Serves false req false modified etag last a e h =
      absurd (omega (arith, ap (λ x. x.status) (eq-of_some e)))
  answer-Serves false req true modified etag last a e h =
      let (rr, parsed, made) =
        >>=-eq-some (parse_range_header (get_header (codes "Range") req.headers) size)
          (λ rr. some (range_answer i content size mime rr)) e in
      (
        rr,
        subst (λ x. Serves req rr (finalize req etag last x)) (eq-of_some made)
            (range_answer-Serves req rr etag last parsed
              (subst (λ x. (finalize req etag last x).status ≡ 206) (sym (eq-of_some made)) h)),
      )

  -- An answer with the status 206 serves what the `Range` header is parsed to.
  pub served-range :
      (gmtime : ℤ → Tm) (timegm : Tm → ℤ) (req : Asked) (mtime : ℤ) (etag : Bytes)
      (r : Response (Body S))
      → serve_stream_conditionally i content size mime gmtime timegm req mtime etag ≡ some r
      → r.status ≡ 206
      → (rr : RangeRequest) × Serves req rr r
        × (rr.present ≡ true
            → (rr.first ≤ rr.last)
              × (pos (rr.last + 1) ≤ℤ size)
              × (r.content_length ≡ pos (rr.last + 1 - rr.first)))
  unfolding serve_stream_conditionally
  served-range gmtime timegm req mtime etag r e h =
      let last = format_http_date gmtime mtime in
      let (a, made, done) =
        >>=-eq-some (answer i content size mime _ _ _ _) (λ a. some (finalize req etag last a)) e in
      let (rr, serves) =
        answer-Serves _ req _ _ etag last a made (ap (λ x. x.status) (eq-of_some done) ∙ h) in
      let good : Serves req rr r = subst (λ x. Serves req rr x) (eq-of_some done) serves in
      (
        rr,
        good,
        λ p.
            (let inside = parse_range_header-inside _ size rr good.parsed p good.can in
              (inside.0, inside.1, good.count inside.0)),
      )
