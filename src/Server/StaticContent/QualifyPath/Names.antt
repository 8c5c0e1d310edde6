-- ===== src/Server/StaticContent/QualifyPath/Names.antt =====
-- What `qualify_relative_path` gives consists of names.
use libnhttp.Base.{
  ℕ, ◌≡◌, ◌≢◌, ◌⊎◌, refl, sym, ap, ◌∙◌, List, [], ◌∷◌, ◌++◌, arith, append_assoc, append-nil, Bytes,
  All, All-append, ◌==◌, false, Bool-cases, inl, inr, some, ◌>>=◌, >>=-eq-some, codes,
}
use mathlib.Core.Path.{subst}
use libnhttp.Base.{eq-of_some}
use libnhttp.Base.Text.{bytes_eq, eq-of_bytes_eq}
use libnhttp.Server.StaticContent.QualifyPath.{
  slash, prepend_to_first, join_loop, segments, pop_last, is_up, is_skipped, visit, visit_all,
  qualify_relative_path,
}

-- A segment that stands for a file or a directory of its own.
pub record IsName (s : Bytes) : Type 0 where
  pub not_empty : s ≢ []
  pub not_here : s ≢ codes "."
  pub not_up : s ≢ codes ".."
  pub no_slash : All (λ c. c ≢ slash) s

-- A segment of a path has no slash.
NoSlash : Bytes → Type 0
NoSlash s = All (λ c. c ≢ slash) s

prepend_to_first-NoSlash :
    (c : ℕ) (ss : List Bytes) → c ≢ slash → All NoSlash ss → All NoSlash (prepend_to_first c ss)
unfolding NoSlash prepend_to_first
prepend_to_first-NoSlash c [] h a = ((h, tt), tt)
prepend_to_first-NoSlash c (s ∷ ss) h a = ((h, a.0), a.1)

segments-NoSlash : (p : Bytes) → All NoSlash (segments p)
unfolding NoSlash segments
segments-NoSlash [] = (tt, tt)
segments-NoSlash (c ∷ cs) = elim (Bool-cases (c == slash)) [
  | inl cut ↦ rw cut (tt, segments-NoSlash cs)
  | inr more ↦
      rw more (prepend_to_first-NoSlash c (segments cs) (λ e. ground arith) (segments-NoSlash cs))
]

pop_last-All : (ss : List Bytes) → All IsName ss → All IsName (pop_last ss)
unfolding pop_last
pop_last-All [] a = tt
pop_last-All (s ∷ []) a = tt
pop_last-All (s ∷ t ∷ ts) a = (a.0, pop_last-All (t ∷ ts) a.1)

IsName-of : (s : Bytes) → is_up s ≡ false → is_skipped s ≡ false → NoSlash s → IsName s
unfolding NoSlash bytes_eq
IsName-of s up skipped h = record {
  not_empty = λ e. absurd (cc (sym skipped ∙ ap is_skipped e));
  not_here = λ e. absurd (cc (sym skipped ∙ ap is_skipped e));
  not_up = λ e. absurd (cc (sym up ∙ ap is_up e));
  no_slash = h;
}

visit-All :
    (seg : Bytes) (stack t : List Bytes)
    → NoSlash seg
    → All IsName stack
    → visit seg stack ≡ some t
    → All IsName t
unfolding visit
visit-All seg [] t n a e = elim (Bool-cases (is_up seg)) [
  | inl up ↦ absurd (cc (rw up at e))
  | inr down ↦ elim (Bool-cases (is_skipped seg)) [
    | inl skipped ↦ subst (All IsName) (eq-of_some (rw (down, skipped) at e)) tt
    | inr name ↦
        subst (All IsName) (eq-of_some (rw (down, name) at e)) (IsName-of seg down name n, tt)
  ]
]
visit-All seg (s ∷ ss) t n a e = elim (Bool-cases (is_up seg)) [
  | inl up ↦ subst (All IsName) (eq-of_some (rw up at e)) (pop_last-All (s ∷ ss) a)
  | inr down ↦ elim (Bool-cases (is_skipped seg)) [
    | inl skipped ↦ subst (All IsName) (eq-of_some (rw (down, skipped) at e)) a
    | inr name ↦
        subst (All IsName) (eq-of_some (rw (down, name) at e))
          (All-append IsName (s ∷ ss) (seg ∷ []) a (IsName-of seg down name n, tt))
  ]
]

visit_all-All :
    (segs stack t : List Bytes)
    → All NoSlash segs
    → All IsName stack
    → visit_all segs stack ≡ some t
    → All IsName t
unfolding visit_all
visit_all-All [] stack t n a e = subst (All IsName) (eq-of_some e) a
visit_all-All (seg ∷ segs) stack t n a e =
    let (u, made, rest) = >>=-eq-some (visit seg stack) (visit_all segs) e in
    visit_all-All segs u t n.1 (visit-All seg stack u n.0 a made) rest

-- The other way: names are pushed as they come.
is_up-IsName : (s : Bytes) → IsName s → is_up s ≡ false
is_up-IsName s n = elim (Bool-cases (is_up s)) [
  | inl up ↦ absurd (n.not_up (eq-of_bytes_eq s (codes "..") up))
  | inr down ↦ down
]

is_skipped-IsName : (s : Bytes) → IsName s → is_skipped s ≡ false
is_skipped-IsName s n = elim (Bool-cases (bytes_eq s [])) [
  | inl empty ↦ absurd (n.not_empty (eq-of_bytes_eq s [] empty))
  | inr full ↦ elim (Bool-cases (bytes_eq s (codes "."))) [
    | inl here ↦ absurd (n.not_here (eq-of_bytes_eq s (codes ".") here))
    | inr other ↦ rw (full, other)
  ]
]

visit-IsName : (s : Bytes) (stack : List Bytes) → IsName s → visit s stack ≡ some (stack ++ s ∷ [])
unfolding visit
visit-IsName s [] n = rw (is_up-IsName s n, is_skipped-IsName s n)
visit-IsName s (t ∷ ts) n = rw (is_up-IsName s n, is_skipped-IsName s n)

visit_all-names : (ss stack : List Bytes) → All IsName ss → visit_all ss stack ≡ some (stack ++ ss)
unfolding visit_all
visit_all-names [] stack a = ap some (sym (append-nil stack))
visit_all-names (s ∷ ss) stack a =
    rw (visit-IsName s stack a.0)
      (visit_all-names ss (stack ++ s ∷ []) a.1 ∙ ap some (append_assoc stack (s ∷ []) ss))

-- The names behind one another, a slash before each but the first.
behind : List Bytes → Bytes
behind [] = []
behind (s ∷ ss) = slash ∷ (s ++ behind ss)

join_loop-behind :
    (ss : List Bytes) (c : ℕ) (cs : Bytes) → join_loop ss (c ∷ cs) ≡ (c ∷ cs) ++ behind ss
unfolding join_loop behind
join_loop-behind [] c cs = sym (append-nil (c ∷ cs))
join_loop-behind (s ∷ ss) c cs =
    join_loop-behind ss c (cs ++ slash ∷ s) ∙ append_assoc (c ∷ cs) (slash ∷ s) (behind ss)

join_loop-name : (s : Bytes) (ss : List Bytes) → IsName s → join_loop (s ∷ ss) [] ≡ s ++ behind ss
unfolding join_loop behind
join_loop-name [] ss n = absurd (n.not_empty refl)
join_loop-name (c ∷ cs) ss n = join_loop-behind ss c cs

segments-name : (s : Bytes) → NoSlash s → segments s ≡ s ∷ []
unfolding NoSlash segments prepend_to_first
segments-name [] n = refl
segments-name (c ∷ cs) n =
    let other : (c == slash) ≡ false = ground (arith, n.0) in rw (other, segments-name cs n.1)

segments-cut : (s p : Bytes) → NoSlash s → segments (s ++ slash ∷ p) ≡ s ∷ segments p
unfolding NoSlash segments prepend_to_first
segments-cut [] p n = refl
segments-cut (c ∷ cs) p n =
    let other : (c == slash) ≡ false = ground (arith, n.0) in rw (other, segments-cut cs p n.1)

segments-behind :
    (s : Bytes) (ss : List Bytes) → IsName s → All IsName ss → segments (s ++ behind ss) ≡ s ∷ ss
unfolding behind NoSlash
segments-behind s [] n a = ap segments (append-nil s) ∙ segments-name s n.no_slash
segments-behind s (t ∷ ts) n a =
    segments-cut s (t ++ behind ts) n.no_slash ∙ ap (◌∷◌ s) (segments-behind t ts a.0 a.1)

join_loop_none : join_loop [] [] ≡ []
unfolding join_loop
join_loop_none = refl

visit_all_none : visit_all (segments (join_loop [] [])) [] ≡ some []
unfolding join_loop segments visit_all visit bytes_eq
visit_all_none = refl

-- The path of the names of a stack is made of them, and gives them back.
joined-names :
    (ss : List Bytes)
    → All IsName ss
    → ((join_loop ss [] ≡ []) ⊎ All IsName (segments (join_loop ss [])))
      × (visit_all (segments (join_loop ss [])) [] ≡ some ss)
joined-names [] a = (inl join_loop_none, visit_all_none)
joined-names (s ∷ ss) a =
    let parts : segments (join_loop (s ∷ ss) []) ≡ s ∷ ss =
      ap segments (join_loop-name s ss a.0) ∙ segments-behind s ss a.0 a.1 in
    (
      inr (subst (All IsName) (sym parts) a),
      ap (λ segs. visit_all segs []) parts ∙ visit_all-names (s ∷ ss) [] a,
    )

-- The path that is given is empty, or its segments are names: not empty, neither `.` nor `..`, and
-- without a slash; and it is given back as it is when it goes through again.
pub qualify_relative_path-names :
    (path out : Bytes)
    → qualify_relative_path path ≡ some out
    → ((out ≡ []) ⊎ All IsName (segments out)) × (qualify_relative_path out ≡ some out)
unfolding qualify_relative_path NoSlash
qualify_relative_path-names path out e =
    let (stack, visited, text) =
      >>=-eq-some (visit_all (segments path) []) (λ s. some (join_loop s [])) e in
    let named : All IsName stack =
      visit_all-All (segments path) [] stack (segments-NoSlash path) tt visited in
    let (parts, again) = joined-names stack named in
    let same : join_loop stack [] ≡ out = eq-of_some text in
    (
      subst (λ o. (o ≡ []) ⊎ All IsName (segments o)) same parts,
      subst (λ o. (visit_all (segments o) [] >>= λ s. some (join_loop s [])) ≡ some o) same
          (ap (λ m. m >>= λ s. some (join_loop s [])) again),
    )
