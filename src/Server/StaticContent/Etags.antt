-- ===== src/Server/StaticContent/Etags.antt =====
-- `etag_list_contains` of src/server/extensions/static_content.cpp.
pub mod Listed
mod Runs
use mathlib.Core.Path.{subst}
use libnhttp.Base.{
  none, zero, true, suc, some, ◌==◌, length, false, [], Option, ◌∷◌, if◌then◌else◌, Bool, ℕ, Bytes,
  eq-of_some,
}
use libnhttp.Base.Text.{bytes_eq}
use libnhttp.Protocol.HttpHeader.{cut}

-- The two loops that shorten a token.
unfoldable pub trim_front : Bytes → Bytes
trim_front [] = []
trim_front (c ∷ cs) = let rest = trim_front cs in if c == 32 then rest else c ∷ cs

abbrev pub keep_last : ℕ → Bytes → Bytes
keep_last c [] = if c == 32 then [] else c ∷ []
keep_last c (d ∷ ds) = c ∷ d ∷ ds

unfoldable pub trim_back : Bytes → Bytes
trim_back [] = []
trim_back (c ∷ cs) = keep_last c (trim_back cs)

abbrev pub token_is : Bytes → Bytes → Bool
token_is etag tok = bytes_eq (trim_back (trim_front tok)) etag

abbrev pub comma : ℕ
comma = 44

-- The loop over what is left of the list, with fuel: every round but the last takes a comma off.
-- The next round is `again`.
unfoldable pub token_round : (Bytes → Bool) → Bytes → Bytes → Option (Bytes × Bytes) → Bool
token_round again etag left none = token_is etag left
token_round again etag left (some (tok, more)) = if token_is etag tok then true else again more

unfoldable pub contains_loop : ℕ → Bytes → Bytes → Bool
unfolding token_round
contains_loop zero etag left = false
contains_loop (suc fuel) etag [] = false
contains_loop (suc fuel) etag (c ∷ cs) =
    token_round (contains_loop fuel etag) etag (c ∷ cs) (cut comma (c ∷ cs))

unfoldable pub etag_list_contains : Bytes → Bytes → Bool
unfolding contains_loop
etag_list_contains list etag = contains_loop (length list) etag list
