-- ===== src/Server/StaticContent/Serve/Answers.antt =====
-- What every answer has, and which answer is given.
use libnhttp.Base.{
  eq-of_some, ℕ, ◌≡◌, refl, sym, ap, ◌∙◌, Bytes, ◌==◌, Bool, true, false, ◌||◌, Bool-cases, inl,
  inr, Option, some, none, >>=-eq-some, codes,
}
use mathlib.Core.Path.{subst}
use libnhttp.Base.Int.{ℤ}
use libnhttp.Io.Stream.{Stream}
use libnhttp.Protocol.HttpDate.{Tm, format_http_date}
use libnhttp.Protocol.HttpHeader.{get_header, same_letters, header_name_equals}
use libnhttp.Protocol.HttpHeader.Lookup.{get_header-set_header}
use libnhttp.Server.Response.{Response}
use libnhttp.Server.StaticContent.RangeHeader.{RangeRequest, parse_range_header}
use libnhttp.Server.StaticContent.Serve.{
  Body, Asked, is_head, Verdict, modified, not_modified, failed, finalize, refused_answer,
  range_answer, partial_answer, whole_answer, answer, serve_stream_conditionally,
}

-- `finalize` puts its headers behind those of the answer.
finalize-ETag :
    {B : Type 0} (req : Asked) (etag last : Bytes) (r : Response B)
    → get_header (codes "ETag") (finalize req etag last r).headers ≡ some etag
unfolding finalize header_name_equals same_letters
finalize-ETag req etag last r =
    get_header-set_header (codes "Cache-Control") (codes "ETag") _ _
    ∙ get_header-set_header (codes "Last-Modified") (codes "ETag") last _
    ∙ get_header-set_header (codes "ETag") (codes "ETag") etag _

finalize-Last-Modified :
    {B : Type 0} (req : Asked) (etag last : Bytes) (r : Response B)
    → get_header (codes "Last-Modified") (finalize req etag last r).headers ≡ some last
unfolding finalize header_name_equals same_letters
finalize-Last-Modified req etag last r =
    get_header-set_header (codes "Cache-Control") (codes "Last-Modified") _ _
    ∙ get_header-set_header (codes "Last-Modified") (codes "Last-Modified") last _

finalize-head :
    {B : Type 0} (req : Asked) (etag last : Bytes) (r : Response B)
    → is_head req ≡ true
    → (finalize req etag last r).body ≡ none
unfolding finalize
finalize-head req etag last r h = rw h

finalize-bodiless :
    {B : Type 0} (req : Asked) (etag last : Bytes) (r : Response B)
    → r.body ≡ none
    → (finalize req etag last r).body ≡ none
unfolding finalize
finalize-bodiless req etag last r h = elim (Bool-cases (is_head req)) [
  | inl e ↦ rw e
  | inr e ↦ rw e h
]

pub finalize-status :
    {B : Type 0} (req : Asked) (etag last : Bytes) (r : Response B)
    → (finalize req etag last r).status ≡ r.status
unfolding finalize
finalize-status req etag last r = refl

-- The statuses that carry no content.
abbrev pub is_bodiless : ℕ → Bool
is_bodiless n = (n == 304) || (n == 412) || (n == 416)

module _ {S : Type 0} (i : Stream S) (content : S) (size : ℤ) (mime : Bytes) where
  range_answer-status :
      (rr : RangeRequest)
      → is_bodiless (range_answer i content size mime rr).status ≡ true
      → (range_answer i content size mime rr).body ≡ none
  unfolding range_answer refused_answer partial_answer
  range_answer-status rr h = elim (Bool-cases rr.satisfiable) [
    | inl good ↦ absurd (cc (rw good at h))
    | inr bad ↦ rw bad
  ]

  answer-bodiless :
      (fails : Bool) (range : Option Bytes) (ranges : Bool) (v : Verdict) (r : Response (Body S))
      → answer i content size mime fails range ranges v ≡ some r
      → is_bodiless r.status ≡ true
      → r.body ≡ none
  unfolding answer whole_answer
  answer-bodiless true range ranges v r e h = ap (λ x. x.body) (sym (eq-of_some e))
  answer-bodiless false range ranges failed r e h = ap (λ x. x.body) (sym (eq-of_some e))
  answer-bodiless false range ranges not_modified r e h = ap (λ x. x.body) (sym (eq-of_some e))
  answer-bodiless false range false modified r e h =
      absurd (cc (ap (λ x. is_bodiless x.status) (eq-of_some e) ∙ h))
  answer-bodiless false range true modified r e h =
      let (rr, parsed, made) =
        >>=-eq-some (parse_range_header range size)
          (λ rr. some (range_answer i content size mime rr)) e in
      subst (λ x. is_bodiless x.status ≡ true → x.body ≡ none) (eq-of_some made)
        (range_answer-status rr) h

  -- Every answer carries the entity tag and the date of the last change; an answer to HEAD, and one
  -- with the status 304, 412 or 416, has no body.
  pub serve_stream_conditionally-headers :
      (gmtime : ℤ → Tm) (timegm : Tm → ℤ) (req : Asked) (mtime : ℤ) (etag : Bytes)
      (r : Response (Body S))
      → serve_stream_conditionally i content size mime gmtime timegm req mtime etag ≡ some r
      → (get_header (codes "ETag") r.headers ≡ some etag)
        × (get_header (codes "Last-Modified") r.headers ≡ some (format_http_date gmtime mtime))
        × (is_head req ≡ true → r.body ≡ none)
        × (is_bodiless r.status ≡ true → r.body ≡ none)
  unfolding serve_stream_conditionally
  serve_stream_conditionally-headers gmtime timegm req mtime etag r e =
      let last = format_http_date gmtime mtime in
      let (a, made, done) =
        >>=-eq-some (answer i content size mime _ _ _ _) (λ a. some (finalize req etag last a)) e in
      subst
        (λ x.
          (get_header (codes "ETag") x.headers ≡ some etag)
          × (get_header (codes "Last-Modified") x.headers ≡ some last)
          × (is_head req ≡ true → x.body ≡ none)
          × (is_bodiless x.status ≡ true → x.body ≡ none))
        (eq-of_some done)
        (
          finalize-ETag req etag last a,
          finalize-Last-Modified req etag last a,
          finalize-head req etag last a,
          λ h. finalize-bodiless req etag last a (
              answer-bodiless _ _ _ _ a made
                (sym (ap is_bodiless (finalize-status req etag last a)) ∙ h)),
        )
