-- ===== src/Server/Extensions/Vpath.antt =====
-- `vpath` of src/server/extensions/vpath.cpp and `vhost` of src/server/extensions/vhost.cpp, which
-- dispatch to a registry of their own. The tag of the paths is a field of the request, its
-- innermost path last; `rest` is what else a request has. `on_handle`, the hook of subclasses, is
-- a parameter.
pub mod Scoped
mod Runs
use libnhttp.Base.{
  ℕ, List, [], ◌∷◌, ◌++◌, Bytes, ltb, ◌==◌, Bool, true, false, not, ◌&&◌, ◌||◌, Option, some, none,
  length, take, drop, get_or, if◌then◌else◌, min, codes,
}
use libnhttp.Base.Text.{bytes_eq}
use libnhttp.Server.Extensions.Registry.{Extension, dispatch}

pub record Scope (X : Type 0) : Type 0 where
  pub path : Bytes
  pub hostname : Bytes
  pub subpaths : List Bytes
  pub rest : X

unfoldable pub last_or : Bytes → List Bytes → Bytes
last_or path [] = path
last_or path (s ∷ ss) = last_or s ss

abbrev pub subpath_of : {X : Type 0} → Scope X → Bytes
subpath_of req = last_or req.path req.subpaths

unfoldable pub ends_in_slash : Bytes → Bool
ends_in_slash [] = false
ends_in_slash (c ∷ []) = c == 47
ends_in_slash (c ∷ d ∷ cs) = ends_in_slash (d ∷ cs)

unfoldable pub without_last : {A : Type 0} → List A → List A
without_last [] = []
without_last (c ∷ []) = []
without_last (c ∷ d ∷ cs) = c ∷ without_last (d ∷ cs)

abbrev pub bare_prefix : Bytes → Bytes
bare_prefix prefix = if ends_in_slash prefix then without_last prefix else prefix

-- The comparison, and the character behind the prefix.
abbrev pub has_bare_prefix : Bytes → Bytes → Bool
has_bare_prefix path prefix =
    if ltb (length path) (length prefix) || not (bytes_eq (take (length prefix) path) prefix)
    then false
    else (length path == length prefix) || (get_or path (length prefix) 0 == 47)

unfoldable pub path_has_prefix : Bytes → Bytes → Bool
unfolding ends_in_slash without_last
path_has_prefix path prefix =
    if bytes_eq prefix [] || bytes_eq prefix (codes "/")
    then true
    else has_bare_prefix path (bare_prefix prefix)

-- The constructor's base path.
abbrev pub base_path : Bytes → Bytes
base_path given = if ltb 1 (length given) && ends_in_slash given then without_last given else given

abbrev pub or_slash : Bytes → Bytes
or_slash [] = codes "/"
or_slash (c ∷ cs) = c ∷ cs

abbrev pub enter : {X : Type 0} → Bytes → Scope X → Scope X
enter base req = record req {
  subpaths =
      req.subpaths
      ++ or_slash (drop (min (length (subpath_of req)) (length base)) (subpath_of req)) ∷ [];
}

abbrev pub leave : {X : Type 0} → Scope X → Scope X
leave req = record req { subpaths = without_last req.subpaths }

-- An empty predicate accepts no host.
abbrev pub accepts_host : Option (Bytes → Bool) → Bytes → Bool
accepts_host none host = false
accepts_host (some p) host = p host

-- `vhost_for` of a name.
abbrev pub exact_host : Bytes → Bytes → Bool
exact_host name host = bytes_eq host name

module _ {X A : Type 0} where
  -- The answer of the registry, that of the hook, or the one for a path that is not there.
  unfoldable pub answered : A → (Scope X → Option A × Scope X) → Option A × Scope X → A × Scope X
  answered not_there on_handle (some a, req) = (a, leave req)
  answered not_there on_handle (none, req) =
      let own = on_handle req in (elim own.0 [ none ↦ not_there | some a ↦ a ], leave own.1)

  unfoldable pub vpath :
      ℕ
      → Bytes
      → List (Extension (Scope X) A)
      → (Scope X → Option A × Scope X)
      → A
      → Extension (Scope X) A
  unfolding path_has_prefix answered
  vpath prio given registry on_handle not_there = record {
    priority = prio;
    wants = λ req. (path_has_prefix (subpath_of req) (base_path given), req);
    handle = λ req. answered not_there on_handle (dispatch registry (enter (base_path given) req));
  }

  unfoldable pub vhost_answer : A → Option A × Scope X → A × Scope X
  vhost_answer not_there (none, req) = (not_there, req)
  vhost_answer not_there (some a, req) = (a, req)

  unfoldable pub vhost :
      ℕ → Option (Bytes → Bool) → List (Extension (Scope X) A) → A → Extension (Scope X) A
  unfolding vhost_answer
  vhost prio predicate registry not_there = record {
    priority = prio;
    wants = λ req. (accepts_host predicate req.hostname, req);
    handle = λ req. vhost_answer not_there (dispatch registry req);
  }
