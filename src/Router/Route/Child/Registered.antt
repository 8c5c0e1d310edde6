-- ===== src/Router/Route/Child/Registered.antt =====
-- A registered path is found.
use libnhttp.Base.{
  ℕ, zero, suc, ◌+◌, ◌≤◌, ◌≡◌, ◌≢◌, refl, ap, ◌∙◌, List, [], ◌∷◌, ◌++◌, arith, Bytes, All, true,
  false, inl, inr, Option, some, none, length, length-append,
}
use mathlib.Core.Path.{subst}
use libnhttp.Base.{sym}
use libnhttp.Base.Text.{bytes_eq}
use libnhttp.Router.Captures.{RouteState}
use libnhttp.Router.Route.{
  Match, Route, route, split, strip_slash, or_empty, accepted, match_stripped, match_static,
  route_match,
}
use libnhttp.Router.Route.Walk.{below}
use libnhttp.Router.Route.Complete.{Ascending, IsOrdered, match_stripped-step, choose-of_static}
use libnhttp.Router.Route.Child.Order.{IsChange, child_loop-IsChange, child-IsOrdered}
use libnhttp.Router.Route.Child.Lookup.{
  has_child, get_child, node_of, Holds, Apart, statics_of, match_static-get_child,
  get_child-IsOrdered, has_child-made, get_child-made, has_child-apart, get_child-apart,
}
use libnhttp.Router.Route.Child.{
  find_or_create_static_child, at_static, starts_param, is_wildcard_segment, child_loop, child,
}

-- A segment of a path that names a static child.
abbrev pub IsName : Bytes → Type 0
IsName n = All (λ c. c ≢ 47) n × (is_wildcard_segment n ≡ false) × (starts_param n ≡ false)

abbrev pub joined : List Bytes → Bytes
joined [] = []
joined (n ∷ []) = n
joined (n ∷ m ∷ ns) = n ++ 47 ∷ joined (m ∷ ns)

split-last : (n : Bytes) → All (λ c. c ≢ 47) n → split n ≡ (n, none)
unfolding split
split-last [] h = refl
split-last (c ∷ n) h = ground (arith, split-last n h.1)

split-more : (n rest : Bytes) → All (λ c. c ≢ 47) n → split (n ++ 47 ∷ rest) ≡ (n, some rest)
unfolding split
split-more [] rest h = refl
split-more (c ∷ n) rest h = ground (arith, split-more n rest h.1)

joined-stripped : (ns : List Bytes) → All IsName ns → strip_slash (joined ns) ≡ joined ns
unfolding strip_slash bytes_eq
joined-stripped [] h = refl
joined-stripped ([] ∷ ns) h = cc
joined-stripped ((c ∷ n) ∷ []) h = ground arith
joined-stripped ((c ∷ n) ∷ m ∷ ns) h = ground arith

-- The loop, where a name starts the path.
loop_step :
    {E : Type 0} (fresh : E) (f : Route E → Route E) (k : ℕ) (r : Route E) (n path : Bytes)
    (o : Option Bytes) (c : ℕ) (cs : Bytes)
    → path ≡ c ∷ cs
    → split path ≡ (n, o)
    → IsName n
    → child_loop fresh (suc k) f path r
      ≡ at_static fresh n (elim o [ none ↦ f | some rest ↦ child_loop fresh k f rest ]) r
unfolding child_loop
loop_step fresh f k r n path o c cs more parts named =
    let split_more : split (c ∷ cs) ≡ (n, o) = rw more at parts in
    let not_wild = named.1 in
    let not_param = named.2 in rw (more, child_loop, split_more, not_wild, not_param) refl

IsName-nonempty : ¬ IsName []
unfolding bytes_eq
IsName-nonempty h = cc

stripped_below :
    {E : Type 0} (r : Route E) (s : RouteState)
    → match_stripped r (below s) (strip_slash []) ≡ (some r, record s { depth = s.depth + 1 })
unfolding match_stripped strip_slash
stripped_below r s = refl

stripped_end :
    {E : Type 0} (r : Route E) (s : RouteState)
    → match_stripped r s [] ≡ (some r, record s { depth = s.depth + 0 })
unfolding match_stripped
stripped_end r s = let same : s.depth + 0 ≡ s.depth = omega arith in rw same refl

child_IsOrdered :
    {E : Type 0} (fresh : E) (n : Bytes) (r : Route E)
    → IsOrdered r
    → IsOrdered (get_child fresh n (statics_of r))
unfolding IsOrdered
child_IsOrdered fresh n (route k m p statics params wild e) o =
    get_child-IsOrdered fresh n statics o.1

-- One level of the search, where there is a child with the first name.
level :
    {E : Type 0} (fresh : E) (r : Route E) (s : RouteState) (m : Match E) (n path : Bytes)
    (o : Option Bytes) (c : ℕ) (cs : Bytes)
    → IsOrdered r
    → has_child n (statics_of r) ≡ true
    → path ≡ c ∷ cs
    → split path ≡ (n, o)
    → match_stripped (get_child fresh n (statics_of r)) (below s) (strip_slash (or_empty o))
      ≡ (some m.0, m.1)
    → match_stripped r s path ≡ (some m.0, m.1)
unfolding IsOrdered
level fresh (route k q p statics params wild e) s m n path o c cs ordered there more parts deeper =
    let first : match_static statics (below s) (split path).0 (or_empty (split path).1) ≡ some m =
      rw parts (
        match_static-get_child fresh n (or_empty o) statics (below s) ordered.0 there
        ∙ ap accepted deeper) in
    match_stripped-step _ s path c cs more ∙ choose-of_static _ _ wild path (below s) m first

-- The nodes with the names are found, whatever else the tree holds.
match_stripped-names :
    {E : Type 0} (fresh : E) (ns : List Bytes) (r : Route E) (s : RouteState)
    → IsOrdered r
    → All IsName ns
    → Holds fresh ns r
    → match_stripped r s (joined ns)
      ≡ (some (node_of fresh ns r), record s { depth = s.depth + length ns })
unfolding node_of
match_stripped-names fresh [] r s o named held = stripped_end r s
match_stripped-names fresh ([] ∷ ns) r s o named held = absurd (IsName-nonempty named.0)
match_stripped-names fresh ((c ∷ n) ∷ []) r s o named held =
    level fresh r s (get_child fresh (c ∷ n) (statics_of r), record s { depth = s.depth + 1 })
      (c ∷ n) (c ∷ n) none c n o held.0 refl (split-last (c ∷ n) named.0.0)
      (stripped_below (get_child fresh (c ∷ n) (statics_of r)) s)
match_stripped-names fresh ((c ∷ n) ∷ m ∷ ns) r s o named held =
    let rest : Bytes = joined (m ∷ ns) in
    let x = get_child fresh (c ∷ n) (statics_of r) in
    level fresh r s
      (node_of fresh (m ∷ ns) x, record s { depth = s.depth + length ((c ∷ n) ∷ m ∷ ns) }) (c ∷ n)
      ((c ∷ n) ++ 47 ∷ rest) (some rest) c (n ++ 47 ∷ rest) o held.0 refl
      (split-more (c ∷ n) rest named.0.0)
      (rw (joined-stripped (m ∷ ns) named.1) (
        match_stripped-names fresh (m ∷ ns) x (below s) (child_IsOrdered fresh (c ∷ n) r o) named.1
          held.1
        ∙ ap (λ (d : ℕ). (some (node_of fresh (m ∷ ns) x), record s { depth = d })) (omega arith)))

at_static-statics :
    {E : Type 0} (fresh : E) (n : Bytes) (f : Route E → Route E) (r : Route E)
    → statics_of (at_static fresh n f r) ≡ find_or_create_static_child fresh n f (statics_of r)
at_static-statics fresh n f (route k m p statics params wild e) = refl

statics_Ascending : {E : Type 0} (r : Route E) → IsOrdered r → Ascending (statics_of r)
unfolding IsOrdered
statics_Ascending (route k m p statics params wild e) o = o.0

joined-length : (ns : List Bytes) → All IsName ns → length ns ≤ length (joined ns)
joined-length [] h = omega arith
joined-length ([] ∷ ns) h = absurd (IsName-nonempty h.0)
joined-length ((c ∷ n) ∷ []) h = omega arith
joined-length ((c ∷ n) ∷ m ∷ ns) h =
    omega (arith, joined-length (m ∷ ns) h.1, length-append n (47 ∷ joined (m ∷ ns)))

-- The change that a registration makes of the child with the first name.
abbrev onward : {E : Type 0} → E → (Route E → Route E) → ℕ → List Bytes → Route E → Route E
onward fresh f k [] = f
onward fresh f k (m ∷ ns) = child_loop fresh k f (joined (m ∷ ns))

onward-IsChange :
    {E : Type 0} (fresh : E) (f : Route E → Route E) (k : ℕ) (ns : List Bytes)
    → IsChange f
    → IsChange (onward fresh f k ns)
onward-IsChange fresh f k [] ch = ch
onward-IsChange fresh f k (m ∷ ns) ch = child_loop-IsChange fresh k f (joined (m ∷ ns)) ch

onward-end :
    {E : Type 0} (fresh : E) (f : Route E → Route E) (k : ℕ) (ns : List Bytes) (r : Route E)
    → onward fresh f k ns r ≡ child_loop fresh k f (joined ns) r
unfolding child_loop
onward-end fresh f k [] r = refl
onward-end fresh f k (m ∷ ns) r = refl

child_loop-names :
    {E : Type 0} (fresh : E) (f : Route E → Route E) (k : ℕ) (n : Bytes) (ns : List Bytes)
    (r : Route E)
    → All IsName (n ∷ ns)
    → statics_of (child_loop fresh (suc k) f (joined (n ∷ ns)) r)
      ≡ find_or_create_static_child fresh n (onward fresh f k ns) (statics_of r)
child_loop-names fresh f k [] ns r named = absurd (IsName-nonempty named.0)
child_loop-names fresh f k (c ∷ n) [] r named =
    ap statics_of
      (loop_step fresh f k r (c ∷ n) (c ∷ n) none c n refl (split-last (c ∷ n) named.0.0) named.0)
    ∙ at_static-statics fresh (c ∷ n) f r
child_loop-names fresh f k (c ∷ n) (m ∷ ns) r named =
    let rest : Bytes = joined (m ∷ ns) in
    ap statics_of (
      loop_step fresh f k r (c ∷ n) ((c ∷ n) ++ 47 ∷ rest) (some rest) c (n ++ 47 ∷ rest) refl
        (split-more (c ∷ n) rest named.0.0) named.0)
    ∙ at_static-statics fresh (c ∷ n) (child_loop fresh k f rest) r

module _ {E : Type 0} (fresh : E) (f : Route E → Route E) (ch : IsChange f) where
  child_loop-Holds :
      (ns : List Bytes) (k : ℕ) (r : Route E)
      → length ns ≤ k
      → IsOrdered r
      → All IsName ns
      → Holds fresh ns (child_loop fresh k f (joined ns) r)
        × (node_of fresh ns (child_loop fresh k f (joined ns) r) ≡ f (node_of fresh ns r))
  unfolding node_of child_loop
  child_loop-Holds [] k r h o named = (tt, refl)
  child_loop-Holds (n ∷ ns) zero r h o named = absurd (omega arith)
  child_loop-Holds (n ∷ ns) (suc k) r h o named =
      let moves = onward-IsChange fresh f k ns ch in
      let made = child_loop-names fresh f k n ns r named in
      let x = get_child fresh n (statics_of r) in
      let reached : get_child fresh n (statics_of (child_loop fresh (suc k) f (joined (n ∷ ns)) r))
          ≡ child_loop fresh k f (joined ns) x =
        ap (get_child fresh n) made
        ∙ get_child-made fresh (onward fresh f k ns) (λ q. (moves q).0) n (statics_of r)
            (statics_Ascending r o)
        ∙ onward-end fresh f k ns x in
      let deep = child_loop-Holds ns k x (omega arith) (child_IsOrdered fresh n r o) named.1 in
      (
        (
          ap (has_child n) made
              ∙ has_child-made fresh (onward fresh f k ns) (λ q. (moves q).0) n (statics_of r),
          subst (Holds fresh ns) (sym reached) deep.0,
        ),
        ap (node_of fresh ns) reached ∙ deep.1,
      )

  child_loop-Apart :
      (ms ns : List Bytes) (k : ℕ) (r : Route E)
      → length ns ≤ k
      → IsOrdered r
      → All IsName ns
      → Apart ms ns
      → (Holds fresh ms r → Holds fresh ms (child_loop fresh k f (joined ns) r))
        × (node_of fresh ms (child_loop fresh k f (joined ns) r) ≡ node_of fresh ms r)
  unfolding node_of
  child_loop-Apart [] ns k r h o named apart = absurd apart
  child_loop-Apart (m ∷ ms) [] k r h o named apart = absurd apart
  child_loop-Apart (m ∷ ms) (n ∷ ns) zero r h o named apart = absurd (omega arith)
  child_loop-Apart (m ∷ ms) (n ∷ ns) (suc k) r h o named (inl apart) =
      let moves = onward-IsChange fresh f k ns ch in
      let made = child_loop-names fresh f k n ns r named in
      let same : get_child fresh m (statics_of (child_loop fresh (suc k) f (joined (n ∷ ns)) r))
          ≡ get_child fresh m (statics_of r) =
        ap (get_child fresh m) made
        ∙ get_child-apart fresh (onward fresh f k ns) (λ q. (moves q).0) n m apart (statics_of r) in
      (
        λ held. (
          ap (has_child m) made
              ∙ has_child-apart fresh (onward fresh f k ns) (λ q. (moves q).0) n m apart
                  (statics_of r)
              ∙ held.0,
          subst (Holds fresh ms) (sym same) held.1,
        ),
        ap (node_of fresh ms) same,
      )
  child_loop-Apart (m ∷ ms) (n ∷ ns) (suc k) r h o named (inr (e, apart)) =
      let moves = onward-IsChange fresh f k ns ch in
      let made = child_loop-names fresh f k n ns r named in
      let t = child_loop fresh (suc k) f (joined (n ∷ ns)) r in
      let x = get_child fresh n (statics_of r) in
      let reached : get_child fresh n (statics_of t) ≡ child_loop fresh k f (joined ns) x =
        ap (get_child fresh n) made
        ∙ get_child-made fresh (onward fresh f k ns) (λ q. (moves q).0) n (statics_of r)
            (statics_Ascending r o)
        ∙ onward-end fresh f k ns x in
      let there =
        ap (has_child n) made
        ∙ has_child-made fresh (onward fresh f k ns) (λ q. (moves q).0) n (statics_of r) in
      let deep =
        child_loop-Apart ms ns k x (omega arith) (child_IsOrdered fresh n r o) named.1 apart in
      subst
        (λ l.
          (Holds fresh (l ∷ ms) r → Holds fresh (l ∷ ms) t)
          × (node_of fresh (l ∷ ms) t ≡ node_of fresh (l ∷ ms) r))
        (sym e)
        (
          λ held. (there, subst (Holds fresh ms) (sym reached) (deep.0 held.1)),
          ap (node_of fresh ms) reached ∙ deep.1,
        )

-- A tree after further registrations, of paths of plain names that part from a path.
pub data Later {E : Type 0} (fresh : E) (ns : List Bytes) (t : Route E) : Route E → Type 0 where
  now : Later fresh ns t t
  and_then :
      {u : Route E} (ms : List Bytes) (g : Route E → Route E)
      → Later fresh ns t u
      → IsChange g
      → All IsName ms
      → Apart ns ms
      → Later fresh ns t (child fresh (47 ∷ joined ms) g u)

Later-kept :
    {E : Type 0} (fresh : E) (ns : List Bytes) (t u : Route E)
    → IsOrdered t
    → Holds fresh ns t
    → Later fresh ns t u
    → IsOrdered u × Holds fresh ns u × (node_of fresh ns u ≡ node_of fresh ns t)
unfolding strip_slash
Later-kept fresh ns t u o held now = (o, held, refl)
Later-kept fresh ns t u o held (and_then {u = v} ms g before ch named apart) =
    let (ordered, there, same) = Later-kept fresh ns t v o held before in
    let kept =
      child_loop-Apart fresh g ch ns ms (length (47 ∷ joined ms)) v
        (omega (arith, joined-length ms named)) ordered named apart in
    (child-IsOrdered fresh (47 ∷ joined ms) g v ch ordered, kept.0 there, kept.1 ∙ same)

-- A path of plain names (not empty, without a slash, not `*`, not behind a colon) that `child`
-- registers in a tree is found by `route_match` from then on, after any further registrations of
-- paths of plain names that part from it, whatever else the tree holds: the route is the node that
-- the tree had under the names, or a new one, with the change applied, one level deeper for each
-- name, and nothing is captured. The tree's static children are in order, and the changes keep the
-- names of nodes and the order below them.
pub child-found :
    {E : Type 0} (fresh : E) (f : Route E → Route E) (ns : List Bytes) (r u : Route E)
    (s : RouteState)
    → IsChange f
    → All IsName ns
    → IsOrdered r
    → Later fresh ns (child fresh (47 ∷ joined ns) f r) u
    → route_match u s (47 ∷ joined ns)
      ≡ (some (f (node_of fresh ns r)), record s { depth = s.depth + length ns })
unfolding strip_slash
child-found fresh f ns r u s ch named o later =
    let path : Bytes = 47 ∷ joined ns in
    let (held, made) =
      child_loop-Holds fresh f ch ns (length path) r (omega (arith, joined-length ns named)) o
        named in
    let (ordered, there, same) =
      Later-kept fresh ns (child fresh path f r) u (child-IsOrdered fresh path f r ch o) held
        later in
    match_stripped-names fresh ns u s ordered named there
    ∙ ap (λ x. (some x, record s { depth = s.depth + length ns })) (same ∙ made)
