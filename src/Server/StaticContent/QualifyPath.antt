-- ===== src/Server/StaticContent/QualifyPath.antt =====
-- `qualify_relative_path` of src/server/extensions/static_content.cpp. The stack is a list with its
-- bottom first.
pub mod Climbs
pub mod Names
mod Runs
use libnhttp.Base.{
  ℕ, List, [], ◌∷◌, ◌++◌, Bytes, ◌==◌, Bool, ◌||◌, Option, some, none, ◌>>=◌, if◌then◌else◌, codes,
}
use libnhttp.Base.Text.{bytes_eq}

abbrev pub slash : ℕ
slash = 47

unfoldable pub prepend_to_first : ℕ → List Bytes → List Bytes
prepend_to_first c [] = (c ∷ []) ∷ []
prepend_to_first c (s ∷ ss) = (c ∷ s) ∷ ss

-- The segments that the loop finds, in order: one more than there are slashes.
unfoldable pub segments : Bytes → List Bytes
segments [] = [] ∷ []
segments (c ∷ cs) =
    let rest = segments cs in if c == slash then [] ∷ rest else prepend_to_first c rest

-- `stack.pop_back()`
unfoldable pub pop_last : List Bytes → List Bytes
pop_last [] = []
pop_last (s ∷ []) = []
pop_last (s ∷ t ∷ ts) = s ∷ pop_last (t ∷ ts)

abbrev pub is_up : Bytes → Bool
is_up s = bytes_eq s (codes "..")

abbrev pub is_skipped : Bytes → Bool
is_skipped s = bytes_eq s [] || bytes_eq s (codes ".")

-- The round of the loop for one segment.
unfoldable pub visit : Bytes → List Bytes → Option (List Bytes)
visit seg [] = if is_up seg then none else if is_skipped seg then some [] else some (seg ∷ [])
visit seg (s ∷ ss) =
    if is_up seg
    then some (pop_last (s ∷ ss))
    else if is_skipped seg
    then some (s ∷ ss)
    else some ((s ∷ ss) ++ seg ∷ [])

unfoldable pub visit_all : List Bytes → List Bytes → Option (List Bytes)
visit_all [] stack = some stack
visit_all (seg ∷ segs) stack = visit seg stack >>= visit_all segs

-- The loop that writes the result.
unfoldable pub join_loop : List Bytes → Bytes → Bytes
join_loop [] out = out
join_loop (s ∷ ss) [] = join_loop ss s
join_loop (s ∷ ss) (c ∷ cs) = join_loop ss ((c ∷ cs) ++ slash ∷ s)

unfoldable pub qualify_relative_path : Bytes → Option Bytes
qualify_relative_path path = visit_all (segments path) [] >>= λ stack. some (join_loop stack [])
