-- ===== src/Router/Route/Child/Lookup.antt =====
-- The static children of a node of src/router/route.cpp by their names, and what a registration
-- changes of them.
use libnhttp.Base.{
  ◌≡◌, ◌⊎◌, refl, sym, ap, ◌∙◌, List, [], ◌∷◌, Bytes, Bool, true, false, Bool-cases, inl, inr,
  if◌then◌else◌,
}
use libnhttp.Base.Text.{
  bytes_eq, bytes_lt, bytes_eq_refl, eq-of_bytes_eq, bytes_lt_irrefl, bytes_lt_trans,
  bytes_lt_total,
}
use libnhttp.Router.Captures.{RouteState}
use libnhttp.Router.Route.{
  Route, Routes, static_segment, nil, cons, route, strip_slash, name, accepted, match_stripped,
  match_static,
}
use libnhttp.Router.Route.Complete.{Below, Ascending, IsOrdered, AllOrdered}
use libnhttp.Router.Route.Child.Order.{created-IsOrdered}
use libnhttp.Router.Route.Child.{created, find_or_create_static_child}

not_equal : (n b : Bytes) → bytes_lt n b ≡ true → bytes_eq b n ≡ false
not_equal n b less = elim (Bool-cases (bytes_eq b n)) [
  | inr other ↦ other
  | inl same ↦
      absurd (cc (sym less ∙ ap (bytes_lt n) (eq-of_bytes_eq b n same) ∙ bytes_lt_irrefl n))
]

less_not_equal : (n b : Bytes) → bytes_lt b n ≡ true → bytes_eq b n ≡ false
less_not_equal n b less = elim (Bool-cases (bytes_eq b n)) [
  | inr other ↦ other
  | inl same ↦ absurd (
      cc
        (sym less ∙ ap (λ (x : Bytes). bytes_lt x n) (eq-of_bytes_eq b n same) ∙ bytes_lt_irrefl n))
]

both_true : (b : Bool) → (if b then true else true) ≡ true
both_true true = refl
both_true false = refl

-- The static children of a node.
abbrev pub statics_of : {E : Type 0} → Route E → Routes E
statics_of (route k n p statics params wild e) = statics

unfoldable pub has_child : {E : Type 0} → Bytes → Routes E → Bool
has_child n nil = false
has_child n (cons r rs) = let rest = has_child n rs in if bytes_eq (name r) n then true else rest

module _ {E : Type 0} (fresh : E) where
  -- The static child with a name, or a new one where there is none.
  unfoldable pub get_child : Bytes → Routes E → Route E
  get_child n nil = created fresh static_segment n
  get_child n (cons r rs) = let rest = get_child n rs in if bytes_eq (name r) n then r else rest

  -- The node at the end of a list of names, from a node on.
  unfoldable pub node_of : List Bytes → Route E → Route E
  unfolding get_child
  node_of [] r = r
  node_of (n ∷ ns) r = node_of ns (get_child n (statics_of r))

  -- That there are nodes with the names.
  abbrev pub Holds : List Bytes → Route E → Type 0
  Holds [] r = Unit {0}
  Holds (n ∷ ns) r = (has_child n (statics_of r) ≡ true) × Holds ns (get_child n (statics_of r))

-- Paths that part: neither goes on where the other ends.
abbrev pub Apart : List Bytes → List Bytes → Type 0
Apart [] ns = ⊥
Apart (m ∷ ms) [] = ⊥
Apart (m ∷ ms) (n ∷ ns) = (bytes_eq n m ≡ false) ⊎ ((m ≡ n) × Apart ms ns)

module _ {E : Type 0} where
  hits :
      (y : Route E) (rs : Routes E) (s : RouteState) (n rest : Bytes)
      → name y ≡ n
      → match_static (cons y rs) s n rest ≡ accepted (match_stripped y s (strip_slash rest))
  unfolding match_static
  hits y rs s n rest named =
      let not_less : bytes_lt (name y) n ≡ false = rw named (bytes_lt_irrefl n) in
      let equal : bytes_eq (name y) n ≡ true = rw named (bytes_eq_refl n) in
      rw (match_static, not_less, equal) refl

  passes :
      (y : Route E) (rs : Routes E) (s : RouteState) (n rest : Bytes)
      → bytes_lt (name y) n ≡ true
      → match_static (cons y rs) s n rest ≡ match_static rs s n rest
  unfolding match_static
  passes y rs s n rest less = rw (match_static, less) refl

  has_child-Below :
      (b n : Bytes) (rs : Routes E) → Below b rs → has_child n rs ≡ true → bytes_lt b n ≡ true
  unfolding has_child
  has_child-Below b n nil below h = cc
  has_child-Below b n (cons r rs) below h = elim (Bool-cases (bytes_eq (name r) n)) [
    | inl same ↦ ap (bytes_lt b) (sym (eq-of_bytes_eq (name r) n same)) ∙ below.0
    | inr other ↦
        let later : has_child n rs ≡ true = rw other at h in has_child-Below b n rs below.1 later
  ]

module _ {E : Type 0} (fresh : E) where
  pub match_static-get_child :
      (n rest : Bytes) (rs : Routes E) (s : RouteState)
      → Ascending rs
      → has_child n rs ≡ true
      → match_static rs s n rest
        ≡ accepted (match_stripped (get_child fresh n rs) s (strip_slash rest))
  unfolding get_child has_child
  match_static-get_child n rest nil s asc h = cc
  match_static-get_child n rest (cons r rs) s asc h = elim (Bool-cases (bytes_eq (name r) n)) [
    | inl same ↦ rw same (hits r rs s n rest (eq-of_bytes_eq (name r) n same))
    | inr other ↦
        let later : has_child n rs ≡ true = rw other at h in
        rw other (
          passes r rs s n rest (has_child-Below (name r) n rs asc.0 later)
          ∙ match_static-get_child n rest rs s asc.1 later)
  ]

  get_child-Below :
      (b n : Bytes) (rs : Routes E)
      → bytes_lt n b ≡ true
      → Below b rs
      → get_child fresh n rs ≡ created fresh static_segment n
  unfolding get_child
  get_child-Below b n nil less below = refl
  get_child-Below b n (cons r rs) less below =
      let other : bytes_eq (name r) n ≡ false =
        not_equal n (name r) (bytes_lt_trans n b (name r) less below.0) in
      rw other (get_child-Below b n rs less below.1)

  pub get_child-IsOrdered :
      (n : Bytes) (rs : Routes E) → AllOrdered rs → IsOrdered (get_child fresh n rs)
  unfolding get_child AllOrdered
  get_child-IsOrdered n nil o = created-IsOrdered fresh static_segment n
  get_child-IsOrdered n (cons r rs) o = elim (Bool-cases (bytes_eq (name r) n)) [
    | inl same ↦ rw same (o.0)
    | inr other ↦ rw other (get_child-IsOrdered n rs o.1)
  ]

  module _ (f : Route E → Route E) (keeps : (r : Route E) → name (f r) ≡ name r) (n : Bytes) where
    made_named : bytes_eq (name (f (created fresh static_segment n))) n ≡ true
    made_named = rw (keeps (created fresh static_segment n)) (bytes_eq_refl n)

    pub has_child-made :
        (rs : Routes E) → has_child n (find_or_create_static_child fresh n f rs) ≡ true
    unfolding has_child find_or_create_static_child
    has_child-made nil = rw made_named refl
    has_child-made (cons r rs) = elim (Bool-cases (bytes_lt (name r) n)) [
      | inl before ↦ rw (before, has_child-made rs) (both_true (bytes_eq (name r) n))
      | inr not_before ↦ elim (Bool-cases (bytes_eq (name r) n)) [
        | inl same ↦
            let kept : bytes_eq (name (f r)) n ≡ true = rw (keeps r) same in
            rw (not_before, same, kept) refl
        | inr other ↦ rw (not_before, other, made_named) refl
      ]
    ]

    pub get_child-made :
        (rs : Routes E)
        → Ascending rs
        → get_child fresh n (find_or_create_static_child fresh n f rs) ≡ f (get_child fresh n rs)
    unfolding get_child find_or_create_static_child
    get_child-made nil asc = rw made_named refl
    get_child-made (cons r rs) asc = elim (Bool-cases (bytes_lt (name r) n)) [
      | inl before ↦
          let other : bytes_eq (name r) n ≡ false = less_not_equal n (name r) before in
          rw (before, other) (get_child-made rs asc.1)
      | inr not_before ↦ elim (Bool-cases (bytes_eq (name r) n)) [
        | inl same ↦
            let kept : bytes_eq (name (f r)) n ≡ true = rw (keeps r) same in
            rw (not_before, same, get_child, kept) refl
        | inr other ↦
            rw (not_before, other, get_child, made_named)
              (sym (
                ap f (
                  get_child-Below (name r) n rs (bytes_lt_total (name r) n not_before other)
                    asc.0)))
      ]
    ]

    module _ (m : Bytes) (apart : bytes_eq n m ≡ false) where
      made_apart : bytes_eq (name (f (created fresh static_segment n))) m ≡ false
      made_apart = rw (keeps (created fresh static_segment n)) apart

      kept_apart : (r : Route E) → bytes_eq (name (f r)) m ≡ bytes_eq (name r) m
      kept_apart r = ap (λ (x : Bytes). bytes_eq x m) (keeps r)

      same_apart : (r : Route E) → bytes_eq (name r) n ≡ true → bytes_eq (name r) m ≡ false
      same_apart r same = ap (λ (x : Bytes). bytes_eq x m) (eq-of_bytes_eq (name r) n same) ∙ apart

      pub has_child-apart :
          (rs : Routes E) → has_child m (find_or_create_static_child fresh n f rs) ≡ has_child m rs
      unfolding has_child find_or_create_static_child
      has_child-apart nil = rw made_apart refl
      has_child-apart (cons r rs) = elim (Bool-cases (bytes_lt (name r) n)) [
        | inl before ↦ rw (before, has_child, has_child-apart rs) refl
        | inr not_before ↦ elim (Bool-cases (bytes_eq (name r) n)) [
          | inl same ↦ rw (not_before, same, has_child, kept_apart r) refl
          | inr other ↦ rw (not_before, other, has_child, made_apart) refl
        ]
      ]

      pub get_child-apart :
          (rs : Routes E)
          → get_child fresh m (find_or_create_static_child fresh n f rs) ≡ get_child fresh m rs
      unfolding get_child find_or_create_static_child
      get_child-apart nil = rw made_apart refl
      get_child-apart (cons r rs) = elim (Bool-cases (bytes_lt (name r) n)) [
        | inl before ↦ rw (before, get_child, get_child-apart rs) refl
        | inr not_before ↦ elim (Bool-cases (bytes_eq (name r) n)) [
          | inl same ↦ rw (not_before, same, get_child, kept_apart r, same_apart r same) refl
          | inr other ↦ rw (not_before, other, get_child, made_apart) refl
        ]
      ]
