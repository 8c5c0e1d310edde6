-- ===== src/Router/Route/Child.antt =====
-- `route::child` of src/router/route.cpp and the functions that find or create a child. The node
-- that they return is changed by the caller: here the change `f` is applied at its place.
pub mod Order
pub mod Lookup
pub mod Registered
use libnhttp.Base.{
  ℕ, zero, suc, [], ◌∷◌, Bytes, ◌==◌, Bool, false, ◌||◌, some, none, length, if◌then◌else◌,
}
use libnhttp.Base.Text.{
  bytes_eq, bytes_lt, bytes_eq_refl, eq-of_bytes_eq, bytes_eq_iff, bytes_lt_irrefl, bytes_lt_trans,
  bytes_lt_total,
}
use libnhttp.Router.Route.{
  RouteKind, static_segment, param, wildcard, Route, Routes, Wildcard, route, nil, cons, absent,
  present, split, strip_slash, name,
}

abbrev pub starts_param : Bytes → Bool
starts_param [] = false
starts_param (c ∷ cs) = c == 58

abbrev pub is_wildcard_segment : Bytes → Bool
is_wildcard_segment segment = bytes_eq segment [] || bytes_eq segment (42 ∷ [])

module _ {E : Type 0} (fresh : E) where
  -- `std::make_shared<route>(kind, name)`; `fresh` has no target and no middleware.
  abbrev pub created : RouteKind → Bytes → Route E
  created kind n = route kind n none nil nil absent fresh

  -- The place is `std::lower_bound`: the first child whose name is not less.
  unfoldable pub find_or_create_static_child : Bytes → (Route E → Route E) → Routes E → Routes E
  find_or_create_static_child n f nil = cons (f (created static_segment n)) nil
  find_or_create_static_child n f (cons r rs) =
      let rest = find_or_create_static_child n f rs in
      if bytes_lt (name r) n
      then cons r rest
      else if bytes_eq (name r) n
      then cons (f r) rs
      else cons (f (created static_segment n)) (cons r rs)

  unfoldable pub find_or_create_param_child : Bytes → (Route E → Route E) → Routes E → Routes E
  find_or_create_param_child n f nil = cons (f (created param n)) nil
  find_or_create_param_child n f (cons p ps) =
      let rest = find_or_create_param_child n f ps in
      if bytes_eq (name p) n then cons (f p) ps else cons p rest

  unfoldable pub find_or_create_wildcard_child : (Route E → Route E) → Wildcard E → Wildcard E
  find_or_create_wildcard_child f absent = present (f (created wildcard (42 ∷ [])))
  find_or_create_wildcard_child f (present w) = present (f w)

  -- The child that a segment names: a wildcard for an empty one and `*`, a parameter behind `:`.
  abbrev pub at_wildcard : (Route E → Route E) → Route E → Route E
  at_wildcard f (route k n p statics params wild e) =
      route k n p statics params (find_or_create_wildcard_child f wild) e

  abbrev pub at_param : Bytes → (Route E → Route E) → Route E → Route E
  at_param segment f (route k n p statics params wild e) =
      route k n p statics (find_or_create_param_child segment f params) wild e

  abbrev pub at_static : Bytes → (Route E → Route E) → Route E → Route E
  at_static segment f (route k n p statics params wild e) =
      route k n p (find_or_create_static_child segment f statics) params wild e

  -- The loop, on a bound of the path's length.
  unfoldable pub child_loop : ℕ → (Route E → Route E) → Bytes → Route E → Route E
  child_loop n f [] r = f r
  child_loop zero f (c ∷ cs) r = f r
  child_loop (suc n) f (c ∷ cs) r =
      let parts = split (c ∷ cs) in
      let onward : Route E → Route E = elim parts.1 [
        | none ↦ f
        | some rest ↦ child_loop n f rest
      ] in
      if is_wildcard_segment parts.0
      then at_wildcard f r
      else if starts_param parts.0
      then at_param parts.0 onward r
      else at_static parts.0 onward r

  abbrev pub child : Bytes → (Route E → Route E) → Route E → Route E
  child path f r = child_loop (length path) f (strip_slash path) r
