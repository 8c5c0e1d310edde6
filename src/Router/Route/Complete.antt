-- ===== src/Router/Route/Complete.antt =====
-- The order of the static children, and that the search finds a route wherever the path leads to
-- one.
use libnhttp.Base.{
  ℕ, ◌≡◌, ◌↔◌, refl, sym, ap, ◌∙◌, ◌∷◌, Bytes, ltb, true, false, Bool-cases, inl, inr, Option, some,
  none,
}
use libnhttp.Base.Text.{bytes_eq, bytes_lt, bytes_eq_refl, bytes_lt_irrefl}
use mathlib.Core.Path.{subst}
use libnhttp.Router.Captures.{RouteState}
use libnhttp.Router.Route.{
  Route, Routes, Wildcard, route, nil, cons, present, split, strip_slash, or_empty, name, accepts,
  Match, accepted, better, choose, match_stripped, match_static, match_params, route_match,
}
use libnhttp.Router.Route.Walk.{
  Walk, here, by_static, by_param, by_wildcard, Among, statics_of, params_of, wildcard_of, below,
  captured, match_stripped-Walk,
}

-- The vector of static children is sorted by name, without duplicates, at every node.
abbrev pub Below : {E : Type 0} → Bytes → Routes E → Type 0
Below n nil = Unit
Below n (cons r rs) = (bytes_lt n (name r) ≡ true) × Below n rs

abbrev pub Ascending : {E : Type 0} → Routes E → Type 0
Ascending nil = Unit
Ascending (cons r rs) = Below (name r) rs × Ascending rs

unfoldable mutual
  pub IsOrdered : {E : Type 0} → Route E → Type 0
  IsOrdered (route k n p statics params wild e) =
      Ascending statics × AllOrdered statics × AllOrdered params

  pub AllOrdered : {E : Type 0} → Routes E → Type 0
  AllOrdered nil = Unit
  AllOrdered (cons r rs) = IsOrdered r × AllOrdered rs

module _ {E : Type 0} where
  Below-Among :
      (n : Bytes) (x : Route E) (rs : Routes E)
      → Below n rs
      → Among x rs
      → bytes_lt n (name x) ≡ true
  Below-Among n x nil b among = absurd among
  Below-Among n x (cons r rs) b (inl same) = rw (sym same) (b.0)
  Below-Among n x (cons r rs) b (inr among) = Below-Among n x rs b.1 among

  IsOrdered-Among : (x : Route E) (rs : Routes E) → AllOrdered rs → Among x rs → IsOrdered x
  unfolding AllOrdered
  IsOrdered-Among x nil o among = absurd among
  IsOrdered-Among x (cons r rs) o (inl same) = subst IsOrdered same o.0
  IsOrdered-Among x (cons r rs) o (inr among) = IsOrdered-Among x rs o.1 among

  -- The child that the walk goes through is the one that the search finds.
  pub match_static-Among :
      (x : Route E) (rs : Routes E) (s : RouteState) (segment rest : Bytes)
      → Ascending rs
      → Among x rs
      → name x ≡ segment
      → match_static rs s segment rest ≡ accepted (match_stripped x s (strip_slash rest))
  unfolding match_static
  match_static-Among x nil s segment rest a among same = absurd among
  match_static-Among x (cons r rs) s segment rest a (inl e) same =
      let named : name r ≡ segment = ap name e ∙ same in
      let not_less : bytes_lt (name r) segment ≡ false = rw named (bytes_lt_irrefl segment) in
      let equal : bytes_eq (name r) segment ≡ true = rw named (bytes_eq_refl segment) in
      rw (match_static, not_less, equal, e) refl
  match_static-Among x (cons r rs) s segment rest a (inr among) same =
      let less : bytes_lt (name r) segment ≡ true =
        rw (sym same) (Below-Among (name r) x rs a.0 among) in
      rw (match_static, less) (match_static-Among x rs s segment rest a.1 among same)

  better-keeps :
      (b : Match E) (next : Option (Match E)) → (m : Match E) × (better (some b) next ≡ some m)
  unfolding better
  better-keeps b none = (b, refl)
  better-keeps b (some c) = elim (Bool-cases (ltb b.1.depth c.1.depth)) [
    | inl deeper ↦ (c, rw deeper refl)
    | inr kept ↦ (b, rw kept refl)
  ]

  better-takes :
      (best : Option (Match E)) (c : Match E) → (m : Match E) × (better best (some c) ≡ some m)
  unfolding better
  better-takes none c = (c, refl)
  better-takes (some b) c = better-keeps b (some c)

  -- A parameter child's trial.
  abbrev pub attempt : Route E → RouteState → Bytes → Bytes → Option (Match E)
  attempt p s segment rest =
      let trial : RouteState = captured (name p) segment s in
      elim (accepts p segment) [
        | true ↦ accepted (match_stripped p trial (strip_slash rest))
        | false ↦ none
      ]

  match_params-keeps :
      (ps : Routes E) (s : RouteState) (segment rest : Bytes) (b : Match E)
      → (m : Match E) × (match_params ps s segment rest (some b) ≡ some m)
  unfolding match_params
  match_params-keeps nil s segment rest b = (b, refl)
  match_params-keeps (cons p ps) s segment rest b =
      let (c, e) = better-keeps b (attempt p s segment rest) in
      let (m, f) = match_params-keeps ps s segment rest c in (m, rw e f)

  -- A parameter child that reaches a route keeps the loop from ending without one.
  match_params-Among :
      (x : Route E) (ps : Routes E) (s : RouteState) (segment rest : Bytes)
      (best : Option (Match E)) (c : Match E)
      → Among x ps
      → attempt x s segment rest ≡ some c
      → (m : Match E) × (match_params ps s segment rest best ≡ some m)
  unfolding match_params
  match_params-Among x nil s segment rest best c among found = absurd among
  match_params-Among x (cons p ps) s segment rest best c (inl e) found =
      let tried : attempt p s segment rest ≡ some c = rw e found in
      let (b, f) = better-takes best c in
      let (m, g) = match_params-keeps ps s segment rest b in (m, rw (tried, f) g)
  match_params-Among x (cons p ps) s segment rest best c (inr among) found =
      match_params-Among x ps s segment rest (better best (attempt p s segment rest)) c among found

  pub choose-of_static :
      (m best : Option (Match E)) (w : Wildcard E) (path : Bytes) (s : RouteState) (c : Match E)
      → m ≡ some c
      → choose m best w path s ≡ (some c.0, c.1)
  unfolding choose
  choose-of_static m best w path s c e = rw e refl

  choose-of_param :
      (m best : Option (Match E)) (w : Wildcard E) (path : Bytes) (s : RouteState) (c : Match E)
      → best ≡ some c
      → (d : Match E) × (choose m best w path s ≡ (some d.0, d.1))
  unfolding choose
  choose-of_param none best w path s c e = (c, rw e refl)
  choose-of_param (some d) best w path s c e = (d, refl)

  choose-of_wildcard :
      (m best : Option (Match E)) (w : Wildcard E) (x : Route E) (path : Bytes) (s : RouteState)
      → w ≡ present x
      → (d : Match E) × (choose m best w path s ≡ (some d.0, d.1))
  unfolding choose
  choose-of_wildcard none none w x path s e = ((x, captured (name x) path s), rw e refl)
  choose-of_wildcard none (some c) w x path s e = (c, refl)
  choose-of_wildcard (some d) best w x path s e = (d, refl)

-- One level of the search, on a path that is not empty.
pub match_stripped-step :
    {E : Type 0} (r : Route E) (u : RouteState) (path : Bytes) (c : ℕ) (cs : Bytes)
    → path ≡ c ∷ cs
    → match_stripped r u path
      ≡ choose
          (match_static (statics_of r) (below u) (split path).0 (or_empty (split path).1))
          (match_params (params_of r) (below u) (split path).0 (or_empty (split path).1) none)
          (wildcard_of r)
          path
          (below u)
unfolding match_stripped
match_stripped-step (route k n p statics params wild e) u path c cs more = rw more refl

-- Wherever the path leads to a route, the search finds one, in every state.
Walk-match_stripped :
    {E : Type 0} {leaf : Route E} {last : RouteState} (r : Route E) (s u : RouteState)
    (path : Bytes)
    → IsOrdered r
    → Walk leaf last r s path
    → (m : Match E) × (match_stripped r u path ≡ (some m.0, m.1))
unfolding IsOrdered match_stripped
Walk-match_stripped r s u path o (here empty same state) = ((r, u), rw (empty, match_stripped) refl)
Walk-match_stripped (route k n p statics params wild e) s u path o
      (by_static c cs x more among same walk) =
    let (m, found) =
      Walk-match_stripped x (below s) (below u) _ (IsOrdered-Among x statics o.1 among) walk in
    let first = match_static-Among x statics (below u) _ _ o.0 among same ∙ ap accepted found in
    (m, match_stripped-step _ u path c cs more ∙ choose-of_static _ _ wild path (below u) m first)
Walk-match_stripped (route k n p statics params wild e) s u path o
      (by_param c cs x more among agrees walk) =
    let (m, found) =
      Walk-match_stripped x _ (captured (name x) (split path).0 (below u)) _
        (IsOrdered-Among x params o.2 among) walk in
    let tried : attempt x (below u) (split path).0 (or_empty (split path).1) ≡ some m =
      rw (attempt, agrees) (ap accepted found) in
    let (d, best) = match_params-Among x params (below u) _ _ none m among tried in
    let (l, last) = choose-of_param _ _ wild path (below u) d best in
    (l, match_stripped-step _ u path c cs more ∙ last)
Walk-match_stripped (route k n p statics params wild e) s u path o
      (by_wildcard c cs more wild_is state) =
    let (d, last) = choose-of_wildcard _ _ wild _ path (below u) wild_is in
    (d, match_stripped-step _ u path c cs more ∙ last)

-- In a tree whose static children are sorted at every node, `route_match` returns a route exactly
-- when the path, its leading slash removed, leads to one by some choice of children.
pub route_match-Walk_iff :
    {E : Type 0} (r : Route E) (s : RouteState) (path : Bytes)
    → IsOrdered r
    → ((m : Match E) × (route_match r s path ≡ (some m.0, m.1)))
      ↔ ((m : Match E) × Walk m.0 m.1 r s (strip_slash path))
route_match-Walk_iff r s path o = (
  (λ found. (found.0, match_stripped-Walk r s (strip_slash path) found.0.0 found.0.1 found.1)),
  (λ leads. Walk-match_stripped r s s (strip_slash path) o leads.1),
)
