-- ===== src/Router/Route/Child/Order.antt =====
-- What `child` keeps of the tree: the order of the static children.
use libnhttp.Base.{
  ℕ, zero, suc, ◌≡◌, refl, sym, [], ◌∷◌, Bytes, true, Bool-cases, inl, inr, Option, some, none,
  length,
}
use libnhttp.Base.Text.{bytes_eq, bytes_lt, bytes_lt_trans, bytes_lt_total}
use mathlib.Core.Path.{subst}
use libnhttp.Router.Route.{
  RouteKind, static_segment, param, Route, Routes, route, nil, cons, split, strip_slash, name,
}
use libnhttp.Router.Route.Complete.{Below, Ascending, IsOrdered, AllOrdered}
use libnhttp.Router.Route.Child.{
  created, find_or_create_static_child, find_or_create_param_child, at_wildcard, at_param,
  at_static, starts_param, is_wildcard_segment, child_loop, child,
}

-- A change of a node that leaves its name and the order below it.
abbrev pub IsChange : {E : Type 0} → (Route E → Route E) → Type 0
IsChange {E} f = (r : Route E) → (name (f r) ≡ name r) × (IsOrdered r → IsOrdered (f r))

module _ {E : Type 0} (fresh : E) where
  pub created-IsOrdered : (k : RouteKind) (n : Bytes) → IsOrdered (created fresh k n)
  unfolding IsOrdered
  created-IsOrdered k n = (tt, tt, tt)

  static_child-Below :
      (f : Route E → Route E) (n b : Bytes) (rs : Routes E)
      → IsChange f
      → bytes_lt b n ≡ true
      → Below b rs
      → Below b (find_or_create_static_child fresh n f rs)
  unfolding find_or_create_static_child
  static_child-Below f n b nil ch less below =
      (rw ((ch (created fresh static_segment n)).0) less, tt)
  static_child-Below f n b (cons r rs) ch less below =
      let rest = static_child-Below f n b rs ch less below.1 in
      elim (Bool-cases (bytes_lt (name r) n)) [
        | inl before ↦ rw before (below.0, rest)
        | inr not_before ↦ elim (Bool-cases (bytes_eq (name r) n)) [
          | inl same ↦ rw (not_before, same) (rw ((ch r).0) (below.0), below.1)
          | inr other ↦
              rw (not_before, other) (rw ((ch (created fresh static_segment n)).0) less, below)
        ]
      ]

  Below-trans : (a b : Bytes) (rs : Routes E) → bytes_lt a b ≡ true → Below b rs → Below a rs
  Below-trans a b nil less below = tt
  Below-trans a b (cons r rs) less below =
      (bytes_lt_trans a b (name r) less below.0, Below-trans a b rs less below.1)

  static_child-Ascending :
      (f : Route E → Route E) (n : Bytes) (rs : Routes E)
      → IsChange f
      → Ascending rs
      → Ascending (find_or_create_static_child fresh n f rs)
  unfolding find_or_create_static_child
  static_child-Ascending f n nil ch asc = (tt, tt)
  static_child-Ascending f n (cons r rs) ch asc =
      let rest = static_child-Ascending f n rs ch asc.1 in
      elim (Bool-cases (bytes_lt (name r) n)) [
        | inl before ↦ rw before (static_child-Below f n (name r) rs ch before asc.0, rest)
        | inr not_before ↦ elim (Bool-cases (bytes_eq (name r) n)) [
          | inl same ↦ rw (not_before, same) (rw ((ch r).0) (asc.0), asc.1)
          | inr other ↦
              let after = bytes_lt_total (name r) n not_before other in
              let named = (ch (created fresh static_segment n)).0 in
              rw (not_before, other)
                (
                  subst (λ (b : Bytes). Below b (cons r rs)) (sym named)
                      (after, Below-trans n (name r) rs after asc.0),
                  asc,
                )
        ]
      ]

  static_child-AllOrdered :
      (f : Route E → Route E) (n : Bytes) (rs : Routes E)
      → IsChange f
      → AllOrdered rs
      → AllOrdered (find_or_create_static_child fresh n f rs)
  unfolding find_or_create_static_child AllOrdered
  static_child-AllOrdered f n nil ch all =
      ((ch (created fresh static_segment n)).1 (created-IsOrdered static_segment n), tt)
  static_child-AllOrdered f n (cons r rs) ch all =
      let rest = static_child-AllOrdered f n rs ch all.1 in
      elim (Bool-cases (bytes_lt (name r) n)) [
        | inl before ↦ rw before (all.0, rest)
        | inr not_before ↦ elim (Bool-cases (bytes_eq (name r) n)) [
          | inl same ↦ rw (not_before, same) ((ch r).1 all.0, all.1)
          | inr other ↦
              rw (not_before, other)
                ((ch (created fresh static_segment n)).1 (created-IsOrdered static_segment n), all)
        ]
      ]

  param_child-AllOrdered :
      (f : Route E → Route E) (n : Bytes) (rs : Routes E)
      → IsChange f
      → AllOrdered rs
      → AllOrdered (find_or_create_param_child fresh n f rs)
  unfolding find_or_create_param_child AllOrdered
  param_child-AllOrdered f n nil ch all =
      ((ch (created fresh param n)).1 (created-IsOrdered param n), tt)
  param_child-AllOrdered f n (cons r rs) ch all =
      let rest = param_child-AllOrdered f n rs ch all.1 in
      elim (Bool-cases (bytes_eq (name r) n)) [
        | inl same ↦ rw same ((ch r).1 all.0, all.1)
        | inr other ↦ rw other (all.0, rest)
      ]

  at_static-IsChange :
      (n : Bytes) (f : Route E → Route E) → IsChange f → IsChange (at_static fresh n f)
  unfolding IsOrdered
  at_static-IsChange n f ch (route k m p statics params wild e) = (
    refl,
    λ o. (
      static_child-Ascending f n statics ch o.0,
      static_child-AllOrdered f n statics ch o.1,
      o.2,
    ),
  )

  at_param-IsChange :
      (n : Bytes) (f : Route E → Route E) → IsChange f → IsChange (at_param fresh n f)
  unfolding IsOrdered
  at_param-IsChange n f ch (route k m p statics params wild e) =
      (refl, λ o. (o.0, o.1, param_child-AllOrdered f n params ch o.2))

  at_wildcard-IsChange : (f : Route E → Route E) → IsChange (at_wildcard fresh f)
  unfolding IsOrdered
  at_wildcard-IsChange f (route k m p statics params wild e) = (refl, λ o. o)

  pub child_loop-IsChange :
      (n : ℕ) (f : Route E → Route E) (path : Bytes)
      → IsChange f
      → IsChange (child_loop fresh n f path)
  unfolding child_loop
  child_loop-IsChange n f [] ch r = ch r
  child_loop-IsChange zero f (c ∷ cs) ch r = ch r
  child_loop-IsChange (suc n) f (c ∷ cs) ch r =
      let path : Bytes = c ∷ cs in
      let onward : Option Bytes → Route E → Route E =
        λ o. elim o [ none ↦ f | some rest ↦ child_loop fresh n f rest ] in
      let moves : (o : Option Bytes) → IsChange (onward o) = λ o.
        elim o as (λ k. IsChange (onward k)) [
          | none ↦ ch
          | some rest ↦ child_loop-IsChange n f rest ch
        ] in
      elim (Bool-cases (is_wildcard_segment (split path).0)) [
        | inl wild ↦ rw wild (at_wildcard-IsChange f r)
        | inr not_wild ↦ elim (Bool-cases (starts_param (split path).0)) [
          | inl colon ↦
              rw (not_wild, colon)
                (at_param-IsChange (split path).0 (onward (split path).1) (moves (split path).1) r)
          | inr plain ↦
              rw (not_wild, plain)
                (at_static-IsChange (split path).0 (onward (split path).1) (moves (split path).1) r)
        ]
      ]

-- `child` keeps the static children of every node sorted, where the change at the end of the path
-- keeps the node's name and the order below it.
pub child-IsOrdered :
    {E : Type 0} (fresh : E) (path : Bytes) (f : Route E → Route E) (r : Route E)
    → IsChange f
    → IsOrdered r
    → IsOrdered (child fresh path f r)
child-IsOrdered fresh path f r ch o =
    (child_loop-IsChange fresh (length path) f (strip_slash path) ch r).1 o
