-- ===== src/Protocol/HttpHeader/Lookup.antt =====
-- The list of headers as a map by name, where the case of letters does not count.
use libnhttp.Base.{
  ℕ, ◌≡◌, refl, sym, ◌∙◌, List, [], ◌∷◌, arith, Bytes, ◌==◌, ==_iff, Bool, true, false, ◌&&◌,
  Bool-cases, inl, inr, some, length, if◌then◌else◌,
}
use libnhttp.Base.Text.{bytes_eq, bytes_eq_iff}
use libnhttp.Protocol.HttpHeader.{
  HttpHeader, lower, same_letters, header_name_equals, set_header, get_header,
}

-- What a comparison sees of a name besides its length.
abbrev folded : Bytes → Bytes
folded [] = []
folded (c ∷ cs) = if lower c == 0 then 0 ∷ [] else lower c ∷ folded cs

-- One letter of the comparison.
one_letter :
    (x y : ℕ) (p q : Bytes) (r : Bool)
    → r ≡ bytes_eq p q
    → (if x == y then (if x == 0 then true else r) else false)
      ≡ bytes_eq (if x == 0 then 0 ∷ [] else x ∷ p) (if y == 0 then 0 ∷ [] else y ∷ q)
unfolding bytes_eq
one_letter x y p q r e = elim (Bool-cases (x == 0)) [
  | inl null_x ↦ elim (Bool-cases (y == 0)) [
    | inl null_y ↦ rw (null_x, null_y) (ground arith)
    | inr some_y ↦ rw (null_x, some_y) (ground arith)
  ]
  | inr some_x ↦ elim (Bool-cases (y == 0)) [
    | inl null_y ↦ rw (some_x, null_y) (ground arith)
    | inr some_y ↦ rw (some_x, some_y) (ground arith)
  ]
]

same_letters-folded :
    (s t : Bytes) → length s ≡ length t → same_letters s t ≡ bytes_eq (folded s) (folded t)
unfolding same_letters bytes_eq
same_letters-folded [] [] h = refl
same_letters-folded [] (b ∷ t) h = absurd (omega arith)
same_letters-folded (a ∷ s) [] h = absurd (omega arith)
same_letters-folded (a ∷ s) (b ∷ t) h =
    one_letter (lower a) (lower b) (folded s) (folded t) (same_letters s t)
      (same_letters-folded s t (omega arith))

name_folded :
    (a b : Bytes)
    → header_name_equals a b ≡ (length a == length b && bytes_eq (folded a) (folded b))
unfolding header_name_equals
name_folded a b = elim (Bool-cases (length a == length b)) [
  | inl same ↦ rw same (same_letters-folded a b ((==_iff (length a) (length b)).0 same))
  | inr other ↦ rw other refl
]

folded_alike :
    (x y z : ℕ) (p q r : Bytes)
    → (x == y && bytes_eq p q) ≡ true
    → (x == z && bytes_eq p r) ≡ (y == z && bytes_eq q r)
folded_alike x y z p q r h = ground (arith, bytes_eq_iff p q, bytes_eq_iff p r, bytes_eq_iff q r)

folded_sym : (x y : ℕ) (p q : Bytes) → (x == y && bytes_eq p q) ≡ (y == x && bytes_eq q p)
folded_sym x y p q = ground (arith, bytes_eq_iff p q, bytes_eq_iff q p)

name_alike :
    (a b c : Bytes)
    → header_name_equals a b ≡ true
    → header_name_equals a c ≡ header_name_equals b c
name_alike a b c h =
    name_folded a c
    ∙ folded_alike (length a) (length b) (length c) (folded a) (folded b) (folded c)
        (sym (name_folded a b) ∙ h)
    ∙ sym (name_folded b c)

name_sym : (a b : Bytes) → header_name_equals a b ≡ header_name_equals b a
name_sym a b =
    name_folded a b ∙ folded_sym (length a) (length b) (folded a) (folded b) ∙ sym (name_folded b a)

-- A header that was set has the value, under every spelling of its name, and the others have what
-- they had.
pub get_header-set_header :
    (n k v : Bytes) (hs : List HttpHeader)
    → get_header k (set_header n v hs)
      ≡ (if header_name_equals n k then some v else get_header k hs)
unfolding get_header set_header
get_header-set_header n k v [] = refl
get_header-set_header n k v (h ∷ hs) =
    let rest = get_header-set_header n k v hs in
    elim (Bool-cases (header_name_equals h.name n)) [
      | inl here ↦
          rw (here, name_alike h.name n k here)
            (elim (Bool-cases (header_name_equals n k)) [
              | inl same ↦ rw same refl
              | inr other ↦ rw other refl
            ])
      | inr elsewhere ↦ elim (Bool-cases (header_name_equals h.name k)) [
        | inl found ↦
            let apart : header_name_equals n k ≡ false =
              name_sym n k ∙ sym (name_alike h.name k n found) ∙ elsewhere in
            rw (elsewhere, found, apart) refl
        | inr passed ↦ rw (elsewhere, passed) rest
      ]
    ]
