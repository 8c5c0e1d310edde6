-- ===== src/Protocol/HttpHeader.antt =====
-- src/protocol/http_header.cpp: header lines and the list of headers. Characters are compared in the C
-- locale.
pub mod RoundTrip
pub mod Lookup
pub mod Tokens
mod Runs
use libnhttp.Base.{
  ℕ, ◌+◌, List, [], ◌∷◌, ◌++◌, Bytes, leb, ◌==◌, Bool, true, false, not, ◌&&◌, ◌||◌, Option, some,
  none, length, if◌then◌else◌,
}

pub record HttpHeader : Type 0 where
  pub name : Bytes
  pub value : Bytes

-- `std::tolower`.
abbrev pub lower : ℕ → ℕ
lower c = if leb 65 c && leb c 90 then c + 32 else c

-- `strncasecmp` gives 0, on strings of one size: it stops behind an equal null character.
unfoldable pub same_letters : Bytes → Bytes → Bool
same_letters [] t = true
same_letters (a ∷ s) [] = false
same_letters (a ∷ s) (b ∷ t) =
    let rest = same_letters s t in
    if lower a == lower b then (if lower a == 0 then true else rest) else false

unfoldable pub header_name_equals : Bytes → Bytes → Bool
header_name_equals a b = if not (length a == length b) then false else same_letters a b

-- `memchr`: what stands before the character, and behind it.
unfoldable pub cut : ℕ → Bytes → Option (Bytes × Bytes)
cut c [] = none
cut c (x ∷ xs) =
    let rest = cut c xs in
    if x == c
    then some ([], xs)
    else elim rest [ none ↦ none | some (before, behind) ↦ some (x ∷ before, behind) ]

unfoldable pub strip_cr : Bytes → Bytes
strip_cr [] = []
strip_cr (c ∷ []) = if c == 13 then [] else c ∷ []
strip_cr (c ∷ d ∷ cs) = c ∷ strip_cr (d ∷ cs)

abbrev pub is_blank : ℕ → Bool
is_blank c = (c == 32) || (c == 9)

-- The two loops that shorten the value.
unfoldable pub trim_front : Bytes → Bytes
trim_front [] = []
trim_front (c ∷ cs) = let rest = trim_front cs in if is_blank c then rest else c ∷ cs

abbrev pub trim_last : ℕ → Bytes → Bytes
trim_last c [] = if is_blank c then [] else c ∷ []
trim_last c (d ∷ ds) = c ∷ d ∷ ds

unfoldable pub trim_back : Bytes → Bytes
trim_back [] = []
trim_back (c ∷ cs) = trim_last c (trim_back cs)

-- The results 0, -1, and the number of bytes with the header.
pub data Parsed : Type 0 where
  need_more : Parsed
  refused : Parsed
  consumed : ℕ → HttpHeader → Parsed

abbrev pub split_line : ℕ → Option (Bytes × Bytes) → Parsed
split_line n none = refused
split_line n (some ([], rest)) = refused
split_line n (some (c ∷ cs, rest)) =
    consumed n (record { name = c ∷ cs; value = trim_back (trim_front rest) })

abbrev pub parse_line : Option (Bytes × Bytes) → Parsed
parse_line none = need_more
parse_line (some (line, rest)) = split_line (length line + 1) (cut 58 (strip_cr line))

abbrev pub try_parse : Bytes → Parsed
try_parse bytes = parse_line (cut 10 bytes)

unfoldable pub set_header : Bytes → Bytes → List HttpHeader → List HttpHeader
set_header n v [] = record { name = n; value = v } ∷ []
set_header n v (h ∷ hs) =
    let rest = set_header n v hs in
    if header_name_equals h.name n then record h { value = v } ∷ hs else h ∷ rest

abbrev pub add_header : Bytes → Bytes → List HttpHeader → List HttpHeader
add_header n v hs = hs ++ record { name = n; value = v } ∷ []

unfoldable pub unset_header : Bytes → List HttpHeader → List HttpHeader
unset_header n [] = []
unset_header n (h ∷ hs) =
    let rest = unset_header n hs in if header_name_equals h.name n then rest else h ∷ rest

unfoldable pub get_header : Bytes → List HttpHeader → Option Bytes
get_header n [] = none
get_header n (h ∷ hs) = if header_name_equals h.name n then some h.value else get_header n hs

unfoldable pub isset : Bytes → List HttpHeader → Bool
isset n [] = false
isset n (h ∷ hs) = if header_name_equals h.name n then true else isset n hs

unfoldable pub get_all : Bytes → List HttpHeader → List Bytes
get_all n [] = []
get_all n (h ∷ hs) =
    let rest = get_all n hs in if header_name_equals h.name n then h.value ∷ rest else rest

abbrev pub header_line : HttpHeader → Bytes
header_line h = h.name ++ 58 ∷ 32 ∷ (h.value ++ 13 ∷ 10 ∷ [])

abbrev pub write_to : List HttpHeader → Bytes → Bytes
write_to [] out = out
write_to (h ∷ hs) out = write_to hs (out ++ header_line h)
