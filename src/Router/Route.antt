-- ===== src/Router/Route.antt =====
-- `router::route` of src/router/route.cpp: the trie of paths. A node is the value of its fields; a
-- change of a node that is reached by a path is a change at that place of the tree. Names are
-- compared as `std::string` compares them.
pub mod Walk
pub mod Complete
pub mod Child
pub mod Deepest
use libnhttp.Base.{
  ◌+◌, [], ◌∷◌, Bytes, ltb, ◌==◌, Bool, true, false, Option, some, none, if◌then◌else◌,
}
use libnhttp.Base.Text.{
  bytes_eq, bytes_lt, bytes_eq_refl, eq-of_bytes_eq, bytes_eq_iff, bytes_lt_irrefl, bytes_lt_trans,
  bytes_lt_total,
}
use libnhttp.Router.Captures.{CaptureMap, set_capture, RouteState}

pub data RouteKind : Type 0 where
  root : RouteKind
  static_segment : RouteKind
  param : RouteKind
  wildcard : RouteKind

-- `E` is what a node holds besides: its targets and its middlewares.
mutual
  pub data Route (E : Type 0) : Type 0 where
    route :
        RouteKind → Bytes → Option (Bytes → Bool) → Routes E → Routes E → Wildcard E → E → Route E

  -- The vectors of children.
  pub data Routes (E : Type 0) : Type 0 where
    nil : Routes E
    cons : Route E → Routes E → Routes E

  pub data Wildcard (E : Type 0) : Type 0 where
    absent : Wildcard E
    present : Route E → Wildcard E

-- `path.find('/')`: the part before it, and the part behind it where there is one.
unfoldable pub split : Bytes → Bytes × Option Bytes
split [] = ([], none)
split (c ∷ cs) = if c == 47 then ([], some cs) else (c ∷ (split cs).0, (split cs).1)

unfoldable pub strip_slash : Bytes → Bytes
strip_slash [] = []
strip_slash (c ∷ cs) = if c == 47 then cs else c ∷ cs

abbrev pub or_empty : Option Bytes → Bytes
or_empty none = []
or_empty (some rest) = rest

-- A route that was reached, and the state there.
abbrev pub Match : Type 0 → Type 0
Match E = Route E × RouteState

module _ {E : Type 0} where
  abbrev pub name : Route E → Bytes
  name (route kind n predicate statics params wild e) = n

  -- `p->predicate_ && !p->predicate_(segment)` skips a child.
  abbrev pub accepts : Route E → Bytes → Bool
  accepts (route kind n none statics params wild e) segment = true
  accepts (route kind n (some predicate) statics params wild e) segment = predicate segment

  -- A trial counts if it returned a route.
  abbrev pub accepted : Option (Route E) × RouteState → Option (Match E)
  accepted (none, s) = none
  accepted (some r, s) = some (r, s)

  -- The best match, and the next one that was found or not.
  unfoldable pub better : Option (Match E) → Option (Match E) → Option (Match E)
  better best none = best
  better none (some c) = some c
  better (some b) (some c) = if ltb b.1.depth c.1.depth then some c else some b

  -- The three steps in turn, at the state `s`.
  unfoldable pub choose :
      Option (Match E)
      → Option (Match E)
      → Wildcard E
      → Bytes
      → RouteState
      → Option (Route E) × RouteState
  choose (some (r, t)) best wild path s = (some r, t)
  choose none (some (r, t)) wild path s = (some r, t)
  choose none none (present w) path s =
      (some w, record s { captures = set_capture (name w) path s.captures })
  choose none none absent path s = (none, s)

unfoldable mutual
  -- `route::route_match` behind the removal of the slash.
  pub match_stripped : {E : Type 0} → Route E → RouteState → Bytes → Option (Route E) × RouteState
  match_stripped r s [] = (some r, s)
  match_stripped (route kind n predicate statics params wild e) s (c ∷ cs) =
      let parts = split (c ∷ cs) in
      let rest = or_empty parts.1 in
      let deeper : RouteState = record s { depth = s.depth + 1 } in
      choose (match_static statics deeper parts.0 rest)
        (match_params params deeper parts.0 rest none) wild (c ∷ cs) deeper

  -- `find_static_child`, and the trial of the child that it finds. On the sorted vector
  -- `std::lower_bound` gives the first child whose name is not less.
  pub match_static : {E : Type 0} → Routes E → RouteState → Bytes → Bytes → Option (Match E)
  match_static nil s segment rest = none
  match_static (cons r rs) s segment rest = elim (bytes_lt (name r) segment) [
    | true ↦ match_static rs s segment rest
    | false ↦ elim (bytes_eq (name r) segment) [
      | true ↦ accepted (match_stripped r s (strip_slash rest))
      | false ↦ none
    ]
  ]

  -- The loop over the parameter children.
  pub match_params :
      {E : Type 0} → Routes E → RouteState → Bytes → Bytes → Option (Match E) → Option (Match E)
  match_params nil s segment rest best = best
  match_params (cons p ps) s segment rest best =
      let trial : RouteState = record s { captures = set_capture (name p) segment s.captures } in
      match_params ps s segment rest (
        better best (elim (accepts p segment) [
          | true ↦ accepted (match_stripped p trial (strip_slash rest))
          | false ↦ none
        ]))

abbrev pub route_match : {E : Type 0} → Route E → RouteState → Bytes → Option (Route E) × RouteState
route_match r s path = match_stripped r s (strip_slash path)
