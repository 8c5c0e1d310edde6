-- ===== src/Server/StaticContent/QualifyPath/Runs.antt =====
-- Concrete runs of `qualify_relative_path`, and its theorems at concrete paths.
use libnhttp.Base.{ℕ, ◌<◌, ◌≡◌, ◌↔◌, ◌⊎◌, refl, [], All, some, none, take, codes}
use libnhttp.Base.Text.{bytes_eq}
use libnhttp.Server.StaticContent.QualifyPath.{
  segments, prepend_to_first, pop_last, visit, visit_all, join_loop, qualify_relative_path,
}
use libnhttp.Server.StaticContent.QualifyPath.Names.{IsName, qualify_relative_path-names}
use libnhttp.Server.StaticContent.QualifyPath.Climbs.{names, ups, qualify_relative_path-none_iff}

qualify_run : qualify_relative_path (codes "/a/./b//../c/") ≡ some (codes "a/c")
unfolding qualify_relative_path segments prepend_to_first pop_last visit visit_all join_loop
    bytes_eq
qualify_run = refl

root_run : qualify_relative_path (codes "/") ≡ some []
unfolding qualify_relative_path segments prepend_to_first pop_last visit visit_all join_loop
    bytes_eq
root_run = refl

climbing_run : qualify_relative_path (codes "/a/../../b") ≡ none
unfolding qualify_relative_path segments prepend_to_first pop_last visit visit_all join_loop
    bytes_eq
climbing_run = refl

qualify_relative_path-names_example :
    ((codes "a/c" ≡ []) ⊎ All IsName (segments (codes "a/c")))
    × (qualify_relative_path (codes "a/c") ≡ some (codes "a/c"))
qualify_relative_path-names_example =
    qualify_relative_path-names (codes "/a/./b//../c/") (codes "a/c") qualify_run

qualify_relative_path-none_iff_example : (qualify_relative_path (codes "/a/../../b") ≡ none) ↔ (
    (k : ℕ) × (names (take k (segments (codes "/a/../../b")))
      < ups (take k (segments (codes "/a/../../b")))))
qualify_relative_path-none_iff_example = qualify_relative_path-none_iff (codes "/a/../../b")
