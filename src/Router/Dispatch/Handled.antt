-- ===== src/Router/Dispatch/Handled.antt =====
-- What a registered path answers.
use libnhttp.Base.{
  ℕ, ◌<◌, ◌≡◌, refl, ap, ◌∙◌, List, [], ◌∷◌, arith, Bytes, All, Option, some, none, length,
  if◌then◌else◌,
}
use libnhttp.Base.Text.{bytes_eq}
use libnhttp.Protocol.HttpMethod.{HttpMethod, http_method}
use libnhttp.Router.Captures.{RouteState, new_state}
use libnhttp.Router.Route.{Route, route}
use libnhttp.Router.Route.Child.Order.{IsChange}
use libnhttp.Router.Route.Complete.{IsOrdered}
use libnhttp.Router.Route.Child.Registered.{IsName, joined, Later, child-found}
use libnhttp.Router.Route.Child.Lookup.{node_of}
use libnhttp.Router.Middleware.{Handler, composed, handle-composed}
use libnhttp.Router.Targets.{get_target, get_target-method, set_target-some}
use libnhttp.Router.Dispatch.{
  Request, Endpoint, endpoint, method_here, method, respond, serve, on_handle, no_endpoint,
}

module _ {Q R : Type 0} where
  method_here-IsChange : (m : HttpMethod) (t : Handler (Request Q) R) → IsChange (method_here m t)
  unfolding IsOrdered
  method_here-IsChange m t (route k n p statics params wild e) = (refl, λ o. o)

  -- The answer of a node, for a method whose target is given or not.
  abbrev pub answer : R → Endpoint Q R → Option (Handler (Request Q) R) → Request Q → R
  answer not_allowed e none req = not_allowed
  answer not_allowed e (some t) req = composed e.middlewares t req

  respond-answer :
      (not_allowed : R) (e : Endpoint Q R) (o : Option (Handler (Request Q) R)) (req : Request Q)
      → 0 < length e.method_targets
      → respond not_allowed e o req ≡ some (answer not_allowed e o req)
  respond-answer not_allowed e none req h = ground arith
  respond-answer not_allowed e (some t) req h =
      ap (λ (g : Handler (Request Q) R). some (g req)) (handle-composed e.middlewares t)

  serve-method :
      (not_allowed : R) (n k : Bytes) (t : Handler (Request Q) R) (q : Q) (x : Route (Endpoint Q R))
      (s : RouteState)
      → serve not_allowed (http_method k) q (some (method_here (http_method n) t x), s)
        ≡ some (
            answer not_allowed
              (endpoint x)
              (if bytes_eq n k
                then some t
                else get_target (http_method k) (endpoint x).method_targets)
              (record { payload = q; tag = some s }))
  serve-method not_allowed n k t q (route kd m p statics params wild e) s =
      let req : Request Q = record { payload = q; tag = some s } in
      respond-answer not_allowed _ _ req (set_target-some (http_method n) t e.method_targets)
      ∙ ap (λ (o : Option (Handler (Request Q) R)). some (answer not_allowed e o req))
          (get_target-method n k t e.method_targets)

  -- A request for a path that was registered for the method `n` and has plain names only, also after
  -- further registrations of paths of plain names that part from it, is answered by the node that
  -- the tree had under the names, or a new one: for the method `n` by the target `t` that was
  -- registered, for another by that node's target for it, within the node's middlewares, and by the
  -- response 405 where the node has none. It is never passed on. The handler sees the tag with
  -- the depth of the node and no captures. The tree's static children are in order.
  pub on_handle-method :
      (not_allowed : R) (n k : Bytes) (t : Handler (Request Q) R) (ns : List Bytes) (q : Q)
      (r u : Route (Endpoint Q R))
      → All IsName ns
      → IsOrdered r
      → Later no_endpoint ns (method (http_method n) (47 ∷ joined ns) t r) u
      → on_handle not_allowed u (47 ∷ joined ns) (http_method k) q
        ≡ some (
            answer not_allowed
              (endpoint (node_of no_endpoint ns r))
              (if bytes_eq n k
                then some t
                else get_target
                    (http_method k)
                    (endpoint (node_of no_endpoint ns r)).method_targets)
              (record { payload = q; tag = some (record { captures = []; depth = length ns }) }))
  on_handle-method not_allowed n k t ns q r u named o later =
      let m = http_method n in
      let x = node_of no_endpoint ns r in
      ap (serve not_allowed (http_method k) q) (
        child-found no_endpoint (method_here m t) ns r u new_state (method_here-IsChange m t) named
          o later
        ∙ ap (λ (d : ℕ). (some (method_here m t x), record { captures = []; depth = d }))
            (omega arith))
      ∙ serve-method not_allowed n k t q x (record { captures = []; depth = length ns })
