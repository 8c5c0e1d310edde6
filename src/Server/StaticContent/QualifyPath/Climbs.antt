-- ===== src/Server/StaticContent/QualifyPath/Climbs.antt =====
-- When `qualify_relative_path` refuses a path.
use libnhttp.Base.{
  ℕ, zero, suc, ◌+◌, ◌<◌, ◌≡◌, ◌↔◌, ◌⊎◌, refl, sym, ap, ◌∙◌, List, [], ◌∷◌, ◌++◌, arith, Bytes,
  true, ◌||◌, Bool-cases, inl, inr, Option, some, none, ◌>>=◌, length, length-append, take,
  if◌then◌else◌,
}
use libnhttp.Server.StaticContent.QualifyPath.{
  segments, pop_last, is_up, is_skipped, visit, visit_all, qualify_relative_path,
}

-- The segments `..`, and those that name a file or a directory.
abbrev pub ups : List Bytes → ℕ
ups [] = 0
ups (s ∷ ss) = (if is_up s then 1 else 0) + ups ss

abbrev pub names : List Bytes → ℕ
names [] = 0
names (s ∷ ss) = (if is_up s || is_skipped s then 0 else 1) + names ss

-- The first segments of the list leave a directory that has `d` above it.
abbrev pub Leaves : ℕ → List Bytes → Type 0
Leaves d segs = (k : ℕ) × (d + names (take k segs) < ups (take k segs))

length-pop_last : (s : Bytes) (ss : List Bytes) → length (pop_last (s ∷ ss)) ≡ length ss
unfolding pop_last
length-pop_last s [] = refl
length-pop_last s (t ∷ ts) = ap suc (length-pop_last t ts)

-- What one segment makes of a stack.
record Kept (seg : Bytes) (stack : List Bytes) (t : List Bytes) : Type 0 where
  made : visit seg stack ≡ some t
  balance :
      length stack + (if is_up seg || is_skipped seg then 0 else 1)
      ≡ length t + (if is_up seg then 1 else 0)

record Fallen (seg : Bytes) (stack : List Bytes) : Type 0 where
  refused : visit seg stack ≡ none
  up : is_up seg ≡ true
  bottom : stack ≡ []

visit_cases :
    (seg : Bytes) (stack : List Bytes) → Fallen seg stack ⊎ ((t : List Bytes) × Kept seg stack t)
unfolding visit
visit_cases seg [] = elim (Bool-cases (is_up seg)) [
  | inl up ↦ inl (record { refused = rw up; up = up; bottom = refl })
  | inr down ↦ elim (Bool-cases (is_skipped seg)) [
    | inl skipped ↦ inr ([], record { made = rw (down, skipped); balance = rw (down, skipped) })
    | inr name ↦
        inr (seg ∷ [], record { made = rw (down, name); balance = rw (down, name) (omega arith) })
  ]
]
visit_cases seg (s ∷ ss) = elim (Bool-cases (is_up seg)) [
  | inl up ↦ inr (
    pop_last (s ∷ ss),
    record { made = rw up; balance = rw up (omega (arith, length-pop_last s ss)) },
  )
  | inr down ↦ elim (Bool-cases (is_skipped seg)) [
    | inl skipped ↦
        inr
          (s ∷ ss, record { made = rw (down, skipped); balance = rw (down, skipped) (omega arith) })
    | inr name ↦ inr (
      (s ∷ ss) ++ seg ∷ [],
      record {
        made = rw (down, name);
        balance = rw (down, name) (omega (arith, length-append ss (seg ∷ [])));
      },
    )
  ]
]

visit_all-made :
    (seg : Bytes) (segs stack : List Bytes) (t : List Bytes)
    → visit seg stack ≡ some t
    → visit_all (seg ∷ segs) stack ≡ visit_all segs t
unfolding visit_all
visit_all-made seg segs stack t e = rw e

visit_all-refused :
    (seg : Bytes) (segs stack : List Bytes)
    → visit seg stack ≡ none
    → visit_all (seg ∷ segs) stack ≡ none
unfolding visit_all
visit_all-refused seg segs stack e = rw e

Leaves-of_none :
    (segs stack : List Bytes) → visit_all segs stack ≡ none → Leaves (length stack) segs
unfolding visit_all
Leaves-of_none [] stack e = absurd (cc)
Leaves-of_none (seg ∷ segs) stack e = elim (visit_cases seg stack) [
  | inl f ↦ (1, ground (arith, f.up, f.bottom))
  | inr (t, k) ↦
      let rest = Leaves-of_none segs t (sym (visit_all-made seg segs stack t k.made) ∙ e) in
      (suc rest.0, omega (arith, k.balance, rest.1))
]

none-of_Leaves :
    (segs stack : List Bytes) (k : ℕ)
    → length stack + names (take k segs) < ups (take k segs)
    → visit_all segs stack ≡ none
none-of_Leaves segs stack zero p = absurd (omega arith)
none-of_Leaves [] stack (suc k) p = absurd (omega arith)
none-of_Leaves (seg ∷ segs) stack (suc k) p = elim (visit_cases seg stack) [
  | inl f ↦ visit_all-refused seg segs stack f.refused
  | inr (t, kept) ↦
      visit_all-made seg segs stack t kept.made
      ∙ none-of_Leaves segs t k (omega (arith, kept.balance))
]

joined-none : {A B : Type 0} (m : Option A) (f : A → B) → (m >>= λ a. some (f a)) ≡ none → m ≡ none
joined-none none f e = refl
joined-none (some a) f e = absurd (cc)

-- A path is refused exactly when some of its first segments hold more `..` than names, so that they
-- leave the directory that the path is relative to.
pub qualify_relative_path-none_iff :
    (path : Bytes)
    → (qualify_relative_path path ≡ none)
      ↔ ((k : ℕ) × (names (take k (segments path)) < ups (take k (segments path))))
unfolding qualify_relative_path
qualify_relative_path-none_iff path = (
  λ e.
      (let l = Leaves-of_none (segments path) [] (joined-none (visit_all (segments path) []) _ e) in
        (l.0, omega (arith, l.1))),
  λ l. rw (none-of_Leaves (segments path) [] l.0 (omega (arith, l.1))),
)
