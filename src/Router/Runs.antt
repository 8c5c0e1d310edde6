-- ===== src/Router/Runs.antt =====
-- The router on small trees, and instances of its theorems.
use libnhttp.Base.{
  false, inl, ◌+◌, ◌*◌, arith, ◌∷◌, All, ◌↔◌, ℕ, ◌≡◌, refl, [], Option, some, none, codes,
}
use libnhttp.Base.Text.{bytes_eq, bytes_lt}
use Prim.Native.String.{String}
use libnhttp.Protocol.HttpMethod.{http_method}
use libnhttp.Router.Route.{wildcard, present, param}
use libnhttp.Router.Middleware.{Middleware, prepend, append, handle, handle-stack}
use libnhttp.Router.Targets.{get_target}
use libnhttp.Router.Dispatch.{Endpoint, endpoint, method, on_handle, no_endpoint}
use libnhttp.Router.Dispatch.Handled.{answer, on_handle-method}
use libnhttp.Router.Captures.{count}
use libnhttp.Router.Route.Walk.{Walk}
use libnhttp.Router.Route.Complete.{IsOrdered, route_match-Walk_iff}
use libnhttp.Router.Route.Child.Order.{IsChange}
use libnhttp.Router.Route.Child.Registered.{child-found, IsName, now, and_then}
use libnhttp.Router.Route.Child.Lookup.{node_of}
use libnhttp.Router.Captures.{capture_at, set_capture, RouteState, new_state}
use libnhttp.Router.Route.{
  static_segment, cons, Match, choose, better, match_static, Route, route, nil, absent, root,
  route_match, match_params, match_stripped, split, strip_slash,
}
use libnhttp.Router.Route.Child.{
  find_or_create_static_child, find_or_create_param_child, find_or_create_wildcard_child, child,
  child_loop,
}

-- Paths hold numbers in place of names: the node's value.
abbrev marked : ℕ → Route ℕ → Route ℕ
marked v (route k n p statics params wild e) = route k n p statics params wild v

abbrev empty_root : Route ℕ
empty_root = route root [] none nil nil absent 0

abbrev value : Option (Route ℕ) × RouteState → Option ℕ
value (none, s) = none
value (some (route k n p statics params wild e), s) = some e

abbrev site : Route ℕ
site =
    child 0 (codes "/users/:id") (marked 2)
      (child 0 (codes "/users/me") (marked 1) (child 0 (codes "/files/*") (marked 3) empty_root))

abbrev found : String → Option ℕ
found path = value (route_match site new_state (codes path))

static_first : found "/users/me" ≡ some 1
unfolding child_loop match_stripped match_static match_params choose better split strip_slash
    set_capture bytes_eq bytes_lt find_or_create_static_child find_or_create_param_child
    find_or_create_wildcard_child
static_first = refl

param_next : found "/users/42" ≡ some 2
unfolding child_loop match_stripped match_static match_params choose better split strip_slash
    set_capture bytes_eq bytes_lt find_or_create_static_child find_or_create_param_child
    find_or_create_wildcard_child
param_next = refl

wildcard_last : found "/files/a/b" ≡ some 3
unfolding child_loop match_stripped match_static match_params choose better split strip_slash
    set_capture bytes_eq bytes_lt find_or_create_static_child find_or_create_param_child
    find_or_create_wildcard_child
wildcard_last = refl

nothing : found "/files2" ≡ none
unfolding child_loop match_stripped match_static match_params choose better split strip_slash
    set_capture bytes_eq bytes_lt find_or_create_static_child find_or_create_param_child
    find_or_create_wildcard_child
nothing = refl

capture_run :
    capture_at (codes ":id") (set_capture (codes ":id") (codes "42") []) ≡ some (codes "42")
unfolding capture_at set_capture bytes_eq
capture_run = refl

count_run : count (codes "x") [] ≡ 0
unfolding count
count_run = refl

abbrev pair : Route ℕ
pair =
    route root [] none (cons (route static_segment (codes "a") none nil nil absent 1) nil) nil
      absent 0

pair-IsOrdered : IsOrdered pair
unfolding IsOrdered
pair-IsOrdered = ((tt, tt), ((tt, tt, tt), tt), tt)

route_match-Walk_iff_example :
    ((m : Match ℕ) × (route_match pair new_state (codes "/a") ≡ (some m.0, m.1)))
    ↔ ((m : Match ℕ) × Walk m.0 m.1 pair new_state (strip_slash (codes "/a")))
route_match-Walk_iff_example = route_match-Walk_iff pair new_state (codes "/a") pair-IsOrdered

marked-IsChange : (v : ℕ) → IsChange (marked v)
unfolding IsOrdered
marked-IsChange v (route k n p statics params wild e) = (refl, λ o. o)

names-IsName : All IsName (codes "a" ∷ codes "b" ∷ [])
unfolding bytes_eq
names-IsName = (((omega arith, tt), refl, refl), (((omega arith, tt), refl, refl), tt))

c-IsName : All IsName (codes "c" ∷ [])
unfolding bytes_eq
c-IsName = (((omega arith, tt), refl, refl), tt)

apart_lem : bytes_eq (codes "c") (codes "a") ≡ false
unfolding bytes_eq
apart_lem = refl

-- `/c` is registered after `/a/b`.
child-found_example :
    route_match
      (child 0 (codes "/c") (marked 6) (child 0 (codes "/a/b") (marked 5) pair))
      new_state
      (codes "/a/b")
    ≡ (
      some (marked 5 (node_of 0 (codes "a" ∷ codes "b" ∷ []) pair)),
      record { captures = []; depth = 2 },
    )
child-found_example =
    child-found 0 (marked 5) (codes "a" ∷ codes "b" ∷ []) pair
      (child 0 (codes "/c") (marked 6) (child 0 (codes "/a/b") (marked 5) pair)) new_state
      (marked-IsChange 5) names-IsName pair-IsOrdered
      (and_then (codes "c" ∷ []) (marked 6) now (marked-IsChange 6) c-IsName (inl apart_lem))

-- Two parameter children: a wildcard below the first, two names below the second.
abbrev rest_of_path : Route ℕ
rest_of_path = route wildcard (codes "*") none nil nil absent 3

abbrev shallow : Route ℕ
shallow = route param (codes ":x") none nil nil (present rest_of_path) 1

abbrev leaf_c : Route ℕ
leaf_c = route static_segment (codes "c") none nil nil absent 4

abbrev deep : Route ℕ
deep =
    route param (codes ":y") none
      (cons (route static_segment (codes "b") none (cons leaf_c nil) nil absent 5) nil) nil absent 2

abbrev in_deep : RouteState
in_deep = record { captures = (codes ":y", codes "a") ∷ []; depth = 2 }

abbrev in_shallow : RouteState
in_shallow = record {
  captures = (codes ":x", codes "a") ∷ (codes "*", codes "b/c") ∷ [];
  depth = 1;
}

abbrev twice : Middleware ℕ ℕ
twice req next = next (req * 2)

abbrev negated : Middleware ℕ ℕ
negated req next = next req + 100

handle-stack_example :
    (handle (prepend twice (negated ∷ [])) (λ n. n + 1)
      ≡ (λ req. twice req (handle (negated ∷ []) (λ n. n + 1))))
    × (handle (append twice (negated ∷ [])) (λ n. n + 1)
        ≡ handle (negated ∷ []) (λ req. twice req (λ n. n + 1)))
handle-stack_example = handle-stack (negated ∷ []) twice (λ n. n + 1)

abbrev no_routes : Route (Endpoint ℕ ℕ)
no_routes = route root [] none nil nil absent no_endpoint

no_routes-IsOrdered : IsOrdered no_routes
unfolding IsOrdered
no_routes-IsOrdered = (tt, tt, tt)

on_handle-method_example :
    on_handle 405
      (method (http_method (codes "GET")) (codes "/a/b") (λ r. 200) no_routes)
      (codes "/a/b")
      (http_method (codes "PUT"))
      7
    ≡ some (
        answer 405
          (endpoint (node_of no_endpoint (codes "a" ∷ codes "b" ∷ []) no_routes))
          (get_target
            (http_method (codes "PUT"))
            (endpoint (node_of no_endpoint (codes "a" ∷ codes "b" ∷ []) no_routes)).method_targets)
          (record { payload = 7; tag = some (record { captures = []; depth = 2 }) }))
unfolding bytes_eq
on_handle-method_example =
    on_handle-method 405 (codes "GET") (codes "PUT") (λ r. 200) (codes "a" ∷ codes "b" ∷ []) 7
      no_routes (method (http_method (codes "GET")) (codes "/a/b") (λ r. 200) no_routes)
      names-IsName no_routes-IsOrdered now
