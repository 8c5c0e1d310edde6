-- ===== src/Router/Route/Deepest.antt =====
-- The choice among the parameter children.
use libnhttp.Base.{◌≤◌, ◌≡◌, ap, arith, Bytes, ltb, true, Bool-cases, inl, inr, Option, some, none}
use mathlib.Core.Path.{subst}
use libnhttp.Router.Captures.{RouteState}
use libnhttp.Router.Route.{
  Route, Routes, Match, better, nil, cons, match_params, name, accepts, accepted, match_stripped,
  strip_slash,
}
use libnhttp.Router.Route.Walk.{Among, captured}
use libnhttp.Router.Route.Complete.{attempt}

module _ {E : Type 0} where
  -- At least as deep as `best`, where there is one.
  abbrev AtLeast : Option (Match E) → Match E → Type 0
  AtLeast none m = Unit
  AtLeast (some b) m = b.1.depth ≤ m.1.depth

  better-deepest :
      (best next : Option (Match E)) (m : Match E)
      → AtLeast (better best next) m
      → AtLeast best m × AtLeast next m
  unfolding better
  better-deepest none none m h = (h, h)
  better-deepest none (some c) m h = (tt, h)
  better-deepest (some b) none m h = (h, tt)
  better-deepest (some b) (some c) m h = elim (Bool-cases (ltb b.1.depth c.1.depth)) [
    | inl deeper ↦
        let bound : c.1.depth ≤ m.1.depth = rw (deeper, better) at h in (ground arith, bound)
    | inr kept ↦ let bound : b.1.depth ≤ m.1.depth = rw (kept, better) at h in (bound, ground arith)
  ]

  params-deepest :
      (ps : Routes E) (s : RouteState) (segment rest : Bytes) (best : Option (Match E))
      (m : Match E)
      → match_params ps s segment rest best ≡ some m
      → AtLeast best m × ((x : Route E) → Among x ps → AtLeast (attempt x s segment rest) m)
  unfolding match_params
  params-deepest nil s segment rest best m h = (rw h (omega arith), (λ x among. absurd among))
  params-deepest (cons p ps) s segment rest best m h =
      let (first, others) =
        params-deepest ps s segment rest (better best (attempt p s segment rest)) m h in
      let (kept, tried) = better-deepest best (attempt p s segment rest) m first in
      (
        kept,
        (λ x among. elim among [
          | inl same ↦ subst (λ (q : Route E). AtLeast (attempt q s segment rest) m) same tried
          | inr later ↦ others x later
        ]),
      )

  -- Of the parameter children that accept the segment and reach a route, none reaches it at a
  -- greater depth than the one that the loop keeps.
  pub match_params-deepest :
      (ps : Routes E) (s : RouteState) (segment rest : Bytes) (leaf y x : Route E)
      (t u : RouteState)
      → match_params ps s segment rest none ≡ some (leaf, t)
      → Among x ps
      → accepts x segment ≡ true
      → match_stripped x (captured (name x) segment s) (strip_slash rest) ≡ (some y, u)
      → u.depth ≤ t.depth
  match_params-deepest ps s segment rest leaf y x t u h among agrees found =
      let tried : attempt x s segment rest ≡ some (y, u) =
        rw (attempt, agrees) (ap accepted found) in
      subst (λ (o : Option (Match E)). AtLeast o (leaf, t)) tried
        ((params-deepest ps s segment rest none (leaf, t) h).1 x among)
