-- ===== src/Server/StaticContent/Etags/Listed.antt =====
-- What a list of entity tags contains.

use libnhttp.Base.{
  refl, zero, length-append, append-nil, ◌∙◌, ◌==◌, true, suc, arith, ◌≤◌, ◌||◌, none,
  if◌then◌else◌, ap, [], ◌≢◌, ◌≡◌, ◌∷◌, ◌++◌, length, false, All, ℕ, List, Bytes, Bool,
}
use libnhttp.Base.Text.{bytes_eq}
use libnhttp.Protocol.HttpHeader.{cut}
use libnhttp.Protocol.HttpHeader.RoundTrip.{cut-found}
use libnhttp.Server.StaticContent.Etags.{
  trim_front, trim_back, token_is, comma, token_round, contains_loop, etag_list_contains,
}

-- A tag that can stand in a list: it is not empty, has no comma, and no blank at its ends.
pub record IsTag (t : Bytes) : Type 0 where
  pub not_empty : t ≢ []
  pub no_comma : All (λ c. c ≢ comma) t
  pub front : trim_front t ≡ t
  pub back : trim_back t ≡ t

-- The tags behind the first, each behind a comma and a blank.
abbrev pub more_tags : List Bytes → Bytes
more_tags [] = []
more_tags (t ∷ ts) = comma ∷ 32 ∷ (t ++ more_tags ts)

abbrev pub tag_list : Bytes → List Bytes → Bytes
tag_list t ts = t ++ more_tags ts

abbrev pub any_is : Bytes → List Bytes → Bool
any_is etag [] = false
any_is etag (t ∷ ts) = bytes_eq t etag || any_is etag ts

cut-none : (c : ℕ) (xs : Bytes) → All (λ x. x ≢ c) xs → cut c xs ≡ none
unfolding cut
cut-none c [] h = refl
cut-none c (x ∷ xs) h =
    let other : (x == c) ≡ false = ground (arith, h.0) in rw (other, cut, cut-none c xs h.1) refl

-- What is left of the list before a round: a tag, perhaps behind a blank, and the tags behind it.
token_is-tag : (etag t : Bytes) → IsTag t → token_is etag t ≡ bytes_eq t etag
token_is-tag etag t v =
    ap (λ u. bytes_eq (trim_back u) etag) v.front ∙ ap (λ u. bytes_eq u etag) v.back

token_is-blank : (etag t : Bytes) → IsTag t → token_is etag (32 ∷ t) ≡ bytes_eq t etag
unfolding trim_front
token_is-blank etag t v = token_is-tag etag t v

token_or :
    (etag tok : Bytes) (b again : Bool)
    → token_is etag tok ≡ b
    → (if token_is etag tok then true else again) ≡ (b || again)
token_or etag tok true again e = rw e
token_or etag tok false again e = rw e

or_no : (b : Bool) → b ≡ (b || false)
or_no true = refl
or_no false = refl

loop_full :
    (fuel : ℕ) (etag xs : Bytes)
    → xs ≢ []
    → contains_loop (suc fuel) etag xs
      ≡ token_round (contains_loop fuel etag) etag xs (cut comma xs)
unfolding contains_loop
loop_full fuel etag [] h = absurd (h refl)
loop_full fuel etag (x ∷ xs) h = refl

loop_tags :
    (fuel : ℕ) (etag tok t : Bytes) (ts : List Bytes)
    → tok ≢ []
    → All (λ c. c ≢ comma) tok
    → token_is etag tok ≡ bytes_eq t etag
    → All IsTag ts
    → length ts ≤ fuel
    → contains_loop (suc fuel) etag (tok ++ more_tags ts) ≡ (bytes_eq t etag || any_is etag ts)
unfolding token_round
loop_tags fuel etag tok t [] full free same tags h =
    ap (contains_loop (suc fuel) etag) (append-nil tok)
    ∙ loop_full fuel etag tok full
    ∙ ap (token_round (contains_loop fuel etag) etag tok) (cut-none comma tok free)
    ∙ same
    ∙ or_no (bytes_eq t etag)
loop_tags zero etag tok t (u ∷ us) full free same tags h = absurd (omega arith)
loop_tags (suc fuel) etag tok t (u ∷ us) full free same tags h =
    loop_full (suc fuel) etag (tok ++ comma ∷ 32 ∷ (u ++ more_tags us)) (longer tok)
    ∙ ap
        (token_round (contains_loop (suc fuel) etag) etag (tok ++ comma ∷ 32 ∷ (u ++ more_tags us)))
        (cut-found comma tok (32 ∷ (u ++ more_tags us)) free)
    ∙ token_or etag tok (bytes_eq t etag) (contains_loop (suc fuel) etag (32 ∷ (u ++ more_tags us)))
        same
    ∙ ap (λ (b : Bool). bytes_eq t etag || b)
        (loop_tags fuel etag (32 ∷ u) u us (λ e. cc) (omega arith, tags.0.no_comma)
          (token_is-blank etag u tags.0) tags.1 (omega arith))
  where
    longer : (xs : Bytes) → xs ++ comma ∷ 32 ∷ (u ++ more_tags us) ≢ []
    longer [] = λ e. cc
    longer (x ∷ xs) = λ e. cc

tags_fit : (ts : List Bytes) → length ts ≤ length (more_tags ts)
tags_fit [] = omega arith
tags_fit (t ∷ ts) = omega (arith, length-append t (more_tags ts), tags_fit ts)

some_fuel :
    (etag t : Bytes) (ts : List Bytes) (n : ℕ)
    → n ≡ length (tag_list t ts)
    → IsTag t
    → All IsTag ts
    → contains_loop n etag (tag_list t ts) ≡ (bytes_eq t etag || any_is etag ts)
some_fuel etag [] ts n e v vs = absurd (v.not_empty refl)
some_fuel etag (c ∷ cs) ts zero e v vs = absurd (omega arith)
some_fuel etag (c ∷ cs) ts (suc n) e v vs =
    loop_tags n etag (c ∷ cs) (c ∷ cs) ts v.not_empty v.no_comma (token_is-tag etag (c ∷ cs) v) vs
      (omega (arith, e, length-append cs (more_tags ts), tags_fit ts))

-- In a list of tags with a comma and a blank between two, exactly the tags of the list are found.
-- A tag is not empty and has no comma, and no blank at its ends.
pub etag_list_contains-tag_list :
    (etag t : Bytes) (ts : List Bytes)
    → IsTag t
    → All IsTag ts
    → etag_list_contains (tag_list t ts) etag ≡ any_is etag (t ∷ ts)
unfolding etag_list_contains
etag_list_contains-tag_list etag t ts v vs = some_fuel etag t ts (length (tag_list t ts)) refl v vs
