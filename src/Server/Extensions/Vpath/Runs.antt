-- ===== src/Server/Extensions/Vpath/Runs.antt =====
-- Concrete mounts, and the theorem at one.
use libnhttp.Base.{ℕ, ◌≡◌, refl, [], ◌∷◌, Bytes, true, false, Option, some, none, codes}
use libnhttp.Base.Text.{bytes_eq}
use libnhttp.Server.Extensions.Registry.{Extension, asked, dispatch}
use libnhttp.Server.Extensions.Vpath.{
  Scope, last_or, subpath_of, ends_in_slash, without_last, path_has_prefix, answered, vpath,
  vhost_answer, vhost, exact_host,
}
use libnhttp.Server.Extensions.Vpath.Scoped.{IsMount, Mounted, vpath-Mounted}

abbrev request : Bytes → Scope ℕ
request p = record { path = p; hostname = codes "a.org"; subpaths = []; rest = 0 }

-- Answers every request with the path that it sees.
abbrev echo : Extension (Scope ℕ) Bytes
echo = record { priority = 0; wants = λ r. (true, r); handle = λ r. (subpath_of r, r) }

abbrev no_hook : Scope ℕ → Option Bytes × Scope ℕ
no_hook r = (none, r)

abbrev inside : Extension (Scope ℕ) Bytes
inside = vpath 1 (codes "/api") (echo ∷ []) no_hook (codes "404")

rest_run : (inside.handle (request (codes "/api/v1"))).0 ≡ codes "/v1"
unfolding vpath answered dispatch asked last_or ends_in_slash without_last
rest_run = refl

sibling_run : (inside.wants (request (codes "/apix"))).0 ≡ false
unfolding vpath path_has_prefix ends_in_slash without_last last_or bytes_eq
sibling_run = refl

-- Under the path `/` the rest has no slash in front, so that a path inside it accepts nothing.
root_run :
    ((vpath 1 (codes "/") (inside ∷ []) no_hook (codes "404")).handle (request (codes "/api/v1"))).0
    ≡ codes "404"
unfolding vpath answered path_has_prefix dispatch asked last_or ends_in_slash without_last bytes_eq
root_run = refl

host_run :
    ((vhost 1 (some (exact_host (codes "a.org"))) (inside ∷ []) (codes "404")).handle
      (request (codes "/api"))).0
    ≡ codes "/"
unfolding vhost vhost_answer vpath answered path_has_prefix dispatch asked last_or ends_in_slash
    without_last bytes_eq
host_run = refl

api-IsMount : IsMount (codes "/api")
unfolding ends_in_slash
api-IsMount = record { not_empty = λ e. cc; no_slash = refl }

echo_keeps : (q : Scope ℕ) → (dispatch (echo ∷ []) q).1.subpaths ≡ q.subpaths
unfolding dispatch asked
echo_keeps q = refl

accepted_lem : (inside.wants (request (codes "/api/v1"))).0 ≡ true
unfolding vpath path_has_prefix ends_in_slash without_last last_or bytes_eq
accepted_lem = refl

vpath-Mounted_example :
    Mounted
      (codes "/api")
      (echo ∷ [])
      no_hook
      (codes "404")
      (request (codes "/api/v1"))
      (inside.handle (request (codes "/api/v1")))
vpath-Mounted_example =
    vpath-Mounted 1 (codes "/api") (echo ∷ []) no_hook (codes "404") (request (codes "/api/v1"))
      api-IsMount echo_keeps (λ q. refl) accepted_lem
