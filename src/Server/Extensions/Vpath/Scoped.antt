-- ===== src/Server/Extensions/Vpath/Scoped.antt =====
-- What stands inside a path.
use libnhttp.Base.{
  ℕ, zero, suc, ◌<◌, ◌≡◌, ◌≢◌, ◌⊎◌, refl, sym, ap, ◌∙◌, List, [], ◌∷◌, ◌++◌, arith, Bytes, ltb,
  true, false, Bool-cases, inl, inr, Option, some, none, length, length-append, length-drop, take,
  drop, get_or, take-append-drop, drop-length_append, dec_lt, min, codes,
}
use libnhttp.Base.Text.{bytes_eq, eq-of_bytes_eq}
use libnhttp.Server.Extensions.Registry.{Extension, dispatch}
use libnhttp.Server.Extensions.Vpath.{
  Scope, last_or, subpath_of, ends_in_slash, without_last, has_bare_prefix, path_has_prefix,
  base_path, or_slash, enter, leave, answered, vpath,
}

last_or-append : (p s : Bytes) (ss : List Bytes) → last_or p (ss ++ s ∷ []) ≡ s
unfolding last_or
last_or-append p s [] = refl
last_or-append p s (t ∷ ts) = last_or-append t s ts

without_last-append : {A : Type 0} (x : A) (xs : List A) → without_last (xs ++ x ∷ []) ≡ xs
unfolding without_last
without_last-append x [] = refl
without_last-append x (y ∷ []) = refl
without_last-append x (y ∷ z ∷ zs) = ap (◌∷◌ y) (without_last-append x (z ∷ zs))

-- The rest of a path behind a prefix: nothing, or what begins with a slash.
abbrev pub IsRest : Bytes → Type 0
IsRest r = (r ≡ []) ⊎ ((t : Bytes) × (r ≡ 47 ∷ t))

drop-slash :
    (n : ℕ) (xs : Bytes) → n < length xs → get_or xs n 0 ≡ 47 → (t : Bytes) × (drop n xs ≡ 47 ∷ t)
drop-slash n [] h e = absurd (omega arith)
drop-slash zero (x ∷ xs) h e = (xs, ap (λ (c : ℕ). c ∷ xs) e)
drop-slash (suc n) (x ∷ xs) h e = drop-slash n xs (omega arith) e

nil_of : (xs : Bytes) → length xs ≡ 0 → xs ≡ []
nil_of [] h = refl
nil_of (x ∷ xs) h = absurd (omega arith)

-- A path with the prefix is the prefix and such a rest.
has_bare_prefix-split :
    (path prefix : Bytes)
    → has_bare_prefix path prefix ≡ true
    → (path ≡ prefix ++ drop (length prefix) path) × IsRest (drop (length prefix) path)
has_bare_prefix-split path prefix h =
    elim (Bool-cases (bytes_eq (take (length prefix) path) prefix)) [
      | inr other ↦ absurd (ground (arith, h, other))
      | inl same ↦ (
        sym (take-append-drop (length prefix) path)
            ∙ ap (λ (x : Bytes). x ++ drop (length prefix) path) (eq-of_bytes_eq _ _ same),
        elim (dec_lt (length prefix) (length path)) [
          | no whole ↦
              inl (
                nil_of (drop (length prefix) path)
                  (omega (arith, length-drop (length prefix) path)))
          | yes more ↦ inr (drop-slash (length prefix) path more (ground arith))
        ],
      )
    ]

-- A path by which something is mounted: it is not empty, and does not end in a slash.
pub record IsMount (base : Bytes) : Type 0 where
  pub not_empty : base ≢ []
  pub no_slash : ends_in_slash base ≡ false

slash_ends : ends_in_slash (codes "/") ≡ true
unfolding ends_in_slash
slash_ends = refl

path_has_prefix-mount :
    (path base : Bytes) → IsMount base → path_has_prefix path base ≡ has_bare_prefix path base
unfolding path_has_prefix
path_has_prefix-mount path base m = elim (Bool-cases (bytes_eq base [])) [
  | inl empty ↦ absurd (m.not_empty (eq-of_bytes_eq base [] empty))
  | inr full ↦ elim (Bool-cases (bytes_eq base (codes "/"))) [
    | inl root ↦ absurd (root_ends base m.no_slash (eq-of_bytes_eq base (codes "/") root))
    | inr other ↦ rw (full, other, m.no_slash)
  ]
]
  where
    root_ends : (b : Bytes) → ends_in_slash b ≡ false → b ≡ codes "/" → ⊥
    root_ends b e same = absurd (cc (sym e ∙ ap ends_in_slash same ∙ slash_ends))

bare : (base : Bytes) → ends_in_slash base ≡ false → base_path base ≡ base
bare base e = elim (Bool-cases (ltb 1 (length base))) [
  | inl long ↦ rw (long, e)
  | inr short ↦ rw short
]

enter_lem :
    {X : Type 0} (base rest : Bytes) (req : Scope X)
    → subpath_of req ≡ base ++ rest
    → subpath_of (enter base req) ≡ or_slash rest
enter_lem base rest req e =
    last_or-append req.path
      (or_slash (drop (min (length (subpath_of req)) (length base)) (subpath_of req))) req.subpaths
    ∙ ap or_slash (
        ap (λ (k : ℕ). drop k (subpath_of req)) {x = min (length (subpath_of req)) (length base)}
          {y = length base} (omega (arith, ap length e, length-append base rest))
        ∙ ap (drop (length base)) e
        ∙ drop-length_append base rest)

leave-kept :
    {X : Type 0} (base : Bytes) (req after : Scope X)
    → after.subpaths ≡ (enter base req).subpaths
    → (leave after).subpaths ≡ req.subpaths
leave-kept base req after e = ap without_last e ∙ without_last-append _ req.subpaths

-- The answer of those inside, where they have one, else that of the hook, else the one for a path that is not there.
abbrev pub answer_of : {A : Type 0} → Option A → Option A → A → A
answer_of (some a) own not_there = a
answer_of none (some a) not_there = a
answer_of none none not_there = not_there

module _ {X A : Type 0} where
  -- What becomes of a request whose path lies under `base`: those inside are asked with a request that sees the
  -- rest of it and is otherwise the same, and the paths are as they were when the answer is there.
  pub record Mounted (base : Bytes) (registry : List (Extension (Scope X) A))
      (on_handle : Scope X → Option A × Scope X) (not_there : A) (req : Scope X)
      (result : A × Scope X) : Type 0 where
    pub rest : Bytes
    pub whole : subpath_of req ≡ base ++ rest
    pub rest_lem : IsRest rest
    pub inside : Scope X
    pub inner : subpath_of inside ≡ or_slash rest
    pub same_path : inside.path ≡ req.path
    pub same_host : inside.hostname ≡ req.hostname
    pub same_rest : inside.rest ≡ req.rest
    pub answer_lem :
        result.0
        ≡ answer_of
            (dispatch registry inside).0
            (on_handle (dispatch registry inside).1).0
            not_there
    pub left : result.1.subpaths ≡ req.subpaths

  answered-answer :
      (not_there : A) (on_handle : Scope X → Option A × Scope X) (r : Option A × Scope X)
      → (answered not_there on_handle r).0 ≡ answer_of r.0 (on_handle r.1).0 not_there
  unfolding answered
  answered-answer not_there on_handle (some a, q) = refl
  answered-answer not_there on_handle (none, q) = own_answer (on_handle q).0
    where
      own_answer :
          (o : Option A) → (elim o [ none ↦ not_there | some a ↦ a ]) ≡ answer_of none o not_there
      own_answer none = refl
      own_answer (some a) = refl

  answered-left :
      (not_there : A) (on_handle : Scope X → Option A × Scope X) (base : Bytes) (req : Scope X)
      (r : Option A × Scope X)
      → ((q : Scope X) → (on_handle q).1.subpaths ≡ q.subpaths)
      → r.1.subpaths ≡ (enter base req).subpaths
      → (answered not_there on_handle r).1.subpaths ≡ req.subpaths
  unfolding answered
  answered-left not_there on_handle base req (some a, q) keeps e = leave-kept base req q e
  answered-left not_there on_handle base req (none, q) keeps e =
      leave-kept base req (on_handle q).1 (keeps q ∙ e)

  -- A request that a `vpath` accepts has a path that is the base path and a rest, which is empty or begins with
  -- a slash; the extensions inside are asked with a request that has the rest as its path, or a slash, and
  -- is otherwise the same. The answer is theirs, or the hook's where they have none, or 404
  -- where the hook has none either, and afterwards the request has the path that it had. The base
  -- path is not empty and does not end in a slash, and the extensions inside and the hook leave
  -- the paths of their requests as they found them.
  pub vpath-Mounted :
      (prio : ℕ) (base : Bytes) (registry : List (Extension (Scope X) A))
      (on_handle : Scope X → Option A × Scope X) (not_there : A) (req : Scope X)
      → IsMount base
      → ((q : Scope X) → (dispatch registry q).1.subpaths ≡ q.subpaths)
      → ((q : Scope X) → (on_handle q).1.subpaths ≡ q.subpaths)
      → ((vpath prio base registry on_handle not_there).wants req).0 ≡ true
      → Mounted base registry on_handle not_there req
          ((vpath prio base registry on_handle not_there).handle req)
  unfolding vpath
  vpath-Mounted prio base registry on_handle not_there req m keeps hook accepted =
      let same : base_path base ≡ base = bare base m.no_slash in
      let under : has_bare_prefix (subpath_of req) base ≡ true =
        sym (path_has_prefix-mount (subpath_of req) base m)
        ∙ ap (path_has_prefix (subpath_of req)) (sym same)
        ∙ accepted in
      let split = has_bare_prefix-split (subpath_of req) base under in
      record {
        rest = drop (length base) (subpath_of req);
        whole = split.0;
        rest_lem = split.1;
        inside = enter base req;
        same_path = refl;
        same_host = refl;
        same_rest = refl;
        answer_lem =
            ap (λ (b : Bytes). (answered not_there on_handle (dispatch registry (enter b req))).0)
              same
            ∙ answered-answer not_there on_handle (dispatch registry (enter base req));
        inner = enter_lem base (drop (length base) (subpath_of req)) req split.0;
        left =
            ap
              (λ (b : Bytes).
                (answered not_there on_handle (dispatch registry (enter b req))).1.subpaths)
              same
            ∙ answered-left not_there on_handle base req (dispatch registry (enter base req)) hook
                (keeps (enter base req));
      }
