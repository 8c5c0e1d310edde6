-- ===== src/Router/Route/Walk.antt =====
-- What a path may match, as a relation, and that the search finds such a match.
use libnhttp.Base.{
  ℕ, ◌+◌, ◌≡◌, ◌⊎◌, refl, sym, ap, [], ◌∷◌, arith, Bytes, true, Bool-cases, inl, inr, Option, some,
  none,
}
use libnhttp.Base.Text.{bytes_eq, bytes_lt, eq-of_bytes_eq}
use libnhttp.Router.Captures.{set_capture, RouteState}
use libnhttp.Router.Route.{
  match_stripped, Route, Routes, Wildcard, route, nil, cons, absent, present, split, strip_slash,
  or_empty, name, accepts, Match, accepted, better, choose, match_static, match_params,
}

module _ {E : Type 0} where
  abbrev pub statics_of : Route E → Routes E
  statics_of (route k n p statics params wild e) = statics

  abbrev pub params_of : Route E → Routes E
  params_of (route k n p statics params wild e) = params

  abbrev pub wildcard_of : Route E → Wildcard E
  wildcard_of (route k n p statics params wild e) = wild

  abbrev pub Among : Route E → Routes E → Type 0
  Among x nil = ⊥
  Among x (cons r rs) = (r ≡ x) ⊎ Among x rs

-- The state one level below, and with a segment captured.
abbrev pub below : RouteState → RouteState
below s = record s { depth = s.depth + 1 }

abbrev pub captured : Bytes → Bytes → RouteState → RouteState
captured key value s = record s { captures = set_capture key value s.captures }

-- The routes that a path, without its slash, may lead to from a route, in any order of choice: the
-- route itself where nothing is left of the path, a wildcard child with all that is left, or on
-- through a child whose name is the next segment, or a parameter child that accepts it.
pub data Walk {E : Type 0} (leaf : Route E) (last : RouteState)
    : Route E → RouteState → Bytes → Type 0 where
  here :
      {r : Route E} {s : RouteState} {path : Bytes}
      → path ≡ []
      → r ≡ leaf
      → s ≡ last
      → Walk leaf last r s path
  by_static :
      {r : Route E} {s : RouteState} {path : Bytes} (c : ℕ) (cs : Bytes) (x : Route E)
      → path ≡ c ∷ cs
      → Among x (statics_of r)
      → name x ≡ (split path).0
      → Walk leaf last x (below s) (strip_slash (or_empty (split path).1))
      → Walk leaf last r s path
  by_param :
      {r : Route E} {s : RouteState} {path : Bytes} (c : ℕ) (cs : Bytes) (x : Route E)
      → path ≡ c ∷ cs
      → Among x (params_of r)
      → accepts x (split path).0 ≡ true
      → Walk leaf last x
          (captured (name x) (split path).0 (below s))
          (strip_slash (or_empty (split path).1))
      → Walk leaf last r s path
  by_wildcard :
      {r : Route E} {s : RouteState} {path : Bytes} (c : ℕ) (cs : Bytes)
      → path ≡ c ∷ cs
      → wildcard_of r ≡ present leaf
      → captured (name leaf) path (below s) ≡ last
      → Walk leaf last r s path

accepted-some :
    {E : Type 0} (r : Option (Route E) × RouteState) (leaf : Route E) (t : RouteState)
    → accepted r ≡ some (leaf, t)
    → r ≡ (some leaf, t)
accepted-some (none, s) leaf t e = cc
accepted-some (some x, s) leaf t e = cc

none_never : {A : Type 0} {x : A} → none ≡ some x → ⊥
none_never e = cc

-- What a pair that was found says of its parts.
module _ {E : Type 0} {x leaf : Route E} {s t : RouteState}
    (e : ◌≡◌ {A = Option (Route E) × RouteState} (some x, s) (some leaf, t)) where
  found_route : x ≡ leaf
  found_route = cc

  found_state : s ≡ t
  found_state = cc

-- Which step gave the result.
choose-some :
    {E : Type 0} (m best : Option (Match E)) (w : Wildcard E) (path : Bytes) (s : RouteState)
    (leaf : Route E) (t : RouteState)
    → choose m best w path s ≡ (some leaf, t)
    → (m ≡ some (leaf, t))
      ⊎ (best ≡ some (leaf, t))
      ⊎ ((w ≡ present leaf) × (captured (name leaf) path s ≡ t))
unfolding choose
choose-some (some (r, q)) best w path s leaf t e = inl (cc)
choose-some none (some (r, q)) w path s leaf t e = inr (inl (cc))
choose-some none none (present x) path s leaf t e =
    inr (inr (ap present (found_route e), rw (sym (found_route e)) (found_state e)))
choose-some none none absent path s leaf t e = cc

better-some :
    {E : Type 0} (best next : Option (Match E)) (m : Match E)
    → better best next ≡ some m
    → (best ≡ some m) ⊎ (next ≡ some m)
unfolding better
better-some best none m e = inl e
better-some none (some c) m e = inr e
better-some (some b) (some c) m e = ground arith

mutual
  unfolding match_stripped match_static match_params

  -- Where the search finds a route, the path leads to it, with the captures and the depth of that way.
  pub match_stripped-Walk :
      {E : Type 0} (r : Route E) (s : RouteState) (path : Bytes) (leaf : Route E) (t : RouteState)
      → match_stripped r s path ≡ (some leaf, t)
      → Walk leaf t r s path
  match_stripped-Walk r s [] leaf t h = here refl (found_route h) (found_state h)
  match_stripped-Walk (route k n p statics params wild e) s (c ∷ cs) leaf t h =
      elim (choose-some _ _ wild (c ∷ cs) (below s) leaf t h) [
        | inl found ↦
            let (x, among, same, walk) = match_static-Walk statics (below s) _ _ leaf t found in
            by_static c cs x refl among same walk
        | inr (inl found) ↦ elim (match_params-Walk params (below s) _ _ none leaf t found) [
          | inl never ↦ absurd (none_never never)
          | inr (x, among, agrees, walk) ↦ by_param c cs x refl among agrees walk
        ]
        | inr (inr (found, state)) ↦ by_wildcard c cs refl found state
      ]

  match_static-Walk :
      {E : Type 0} (rs : Routes E) (s : RouteState) (segment rest : Bytes) (leaf : Route E)
      (t : RouteState)
      → match_static rs s segment rest ≡ some (leaf, t)
      → (x : Route E) × Among x rs × (name x ≡ segment) × Walk leaf t x s (strip_slash rest)
  match_static-Walk nil s segment rest leaf t h = cc
  match_static-Walk (cons r rs) s segment rest leaf t h =
      elim (Bool-cases (bytes_lt (name r) segment)) [
        | inl less ↦
            let (x, among, same, walk) =
              match_static-Walk rs s segment rest leaf t (rw (less, match_static) at h) in
            (x, inr among, same, walk)
        | inr not_less ↦ elim (Bool-cases (bytes_eq (name r) segment)) [
          | inl same ↦ (
            r,
            inl refl,
            eq-of_bytes_eq (name r) segment same,
            match_stripped-Walk r s (strip_slash rest) leaf t (
                accepted-some (match_stripped r s (strip_slash rest)) leaf t
                  (rw (not_less, same, match_static) at h)),
          )
          | inr other ↦ absurd (none_never (rw (not_less, other, match_static) at h))
        ]
      ]

  match_params-Walk :
      {E : Type 0} (ps : Routes E) (s : RouteState) (segment rest : Bytes) (best : Option (Match E))
      (leaf : Route E) (t : RouteState)
      → match_params ps s segment rest best ≡ some (leaf, t)
      → (best ≡ some (leaf, t))
        ⊎ ((x : Route E) × Among x ps
            × (accepts x segment ≡ true)
            × Walk leaf t x (captured (name x) segment s) (strip_slash rest))
  match_params-Walk nil s segment rest best leaf t h = inl h
  match_params-Walk (cons p ps) s segment rest best leaf t h =
      elim (match_params-Walk ps s segment rest _ leaf t h) [
        | inl kept ↦ elim (better-some best _ (leaf, t) kept) [
          | inl earlier ↦ inl earlier
          | inr now ↦ elim (Bool-cases (accepts p segment)) [
            | inl agrees ↦ inr (
              p,
              inl refl,
              agrees,
              match_stripped-Walk p _ (strip_slash rest) leaf t
                  (accepted-some _ leaf t (rw agrees at now)),
            )
            | inr refused ↦ absurd (none_never (rw refused at now))
          ]
        ]
        | inr (x, among, agrees, walk) ↦ inr (x, inr among, agrees, walk)
      ]
