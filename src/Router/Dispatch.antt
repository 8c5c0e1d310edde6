-- ===== src/Router/Dispatch.antt =====
-- `router::on_handle` and the registrations of src/router/router.cpp and src/router/route.cpp. The
-- request is a type `Q` with the tag that `on_handle` sets, the response a type `R`.
pub mod Handled
use libnhttp.Base.{List, [], Bytes, leb, Bool, not, Option, some, none, length, if◌then◌else◌}
use libnhttp.Protocol.HttpMethod.{HttpMethod}
use libnhttp.Router.Captures.{RouteState, new_state}
use libnhttp.Router.Route.{Route, route, route_match}
use libnhttp.Router.Route.Child.{child}
use libnhttp.Router.Middleware.{Handler, Middleware, handle, composed, handle-composed}
use libnhttp.Router.Middleware
use libnhttp.Router.Targets.{MethodTargetEntry, get_target}
use libnhttp.Router.Targets

-- A request whose `route_match_tag` is set or not.
pub record Request (Q : Type 0) : Type 0 where
  pub payload : Q
  pub tag : Option RouteState

-- What a node holds besides its children.
pub record Endpoint (Q R : Type 0) : Type 0 where
  pub method_targets : List (MethodTargetEntry (Handler (Request Q) R))
  pub middlewares : List (Middleware (Request Q) R)

module _ {Q R : Type 0} where
  abbrev pub no_endpoint : Endpoint Q R
  no_endpoint = record { method_targets = []; middlewares = [] }

  abbrev pub endpoint : Route (Endpoint Q R) → Endpoint Q R
  endpoint (route k n p statics params wild e) = e

  abbrev pub with_endpoint :
      (Endpoint Q R → Endpoint Q R) → Route (Endpoint Q R) → Route (Endpoint Q R)
  with_endpoint f (route k n p statics params wild e) = route k n p statics params wild (f e)

  -- `route::method(m, t)`, `route::any(t)`, `route::prepend` and `route::append`.
  abbrev pub method_here :
      HttpMethod → Handler (Request Q) R → Route (Endpoint Q R) → Route (Endpoint Q R)
  method_here m t =
      with_endpoint (λ e. record e { method_targets = Targets.method m t e.method_targets })

  abbrev pub any_here : Handler (Request Q) R → Route (Endpoint Q R) → Route (Endpoint Q R)
  any_here t = with_endpoint (λ e. record e { method_targets = Targets.any t e.method_targets })

  abbrev pub prepend_here : Middleware (Request Q) R → Route (Endpoint Q R) → Route (Endpoint Q R)
  prepend_here m =
      with_endpoint (λ e. record e { middlewares = Middleware.prepend m e.middlewares })

  abbrev pub append_here : Middleware (Request Q) R → Route (Endpoint Q R) → Route (Endpoint Q R)
  append_here m = with_endpoint (λ e. record e { middlewares = Middleware.append m e.middlewares })

  -- `route::method(m, path, t)` and `route::any(path, t)`.
  abbrev pub method :
      HttpMethod → Bytes → Handler (Request Q) R → Route (Endpoint Q R) → Route (Endpoint Q R)
  method m path t r = child no_endpoint path (method_here m t) r

  abbrev pub any : Bytes → Handler (Request Q) R → Route (Endpoint Q R) → Route (Endpoint Q R)
  any path t r = child no_endpoint path (any_here t) r

  -- `route::param`.
  abbrev set_predicate : (Bytes → Bool) → Route (Endpoint Q R) → Route (Endpoint Q R)
  set_predicate predicate (route k n p statics params wild e) =
      route k n (some predicate) statics params wild e

  abbrev pub param : Bytes → (Bytes → Bool) → Route (Endpoint Q R) → Route (Endpoint Q R)
  param n predicate r = child no_endpoint n (set_predicate predicate) r

  abbrev pub has_any_target : Endpoint Q R → Bool
  has_any_target e = not (leb (length e.method_targets) 0)

  -- What follows `get_target`. `not_allowed` is the response 405.
  abbrev pub respond : R → Endpoint Q R → Option (Handler (Request Q) R) → Request Q → Option R
  respond not_allowed e none req = if has_any_target e then some not_allowed else none
  respond not_allowed e (some t) req = some (handle e.middlewares t req)

  -- A route that was matched or not, and the state.
  abbrev pub serve : R → HttpMethod → Q → Option (Route (Endpoint Q R)) × RouteState → Option R
  serve not_allowed m q (none, s) = none
  serve not_allowed m q (some r, s) =
      respond not_allowed (endpoint r) (get_target m (endpoint r).method_targets)
        (record { payload = q; tag = some s })

  abbrev pub on_handle : R → Route (Endpoint Q R) → Bytes → HttpMethod → Q → Option R
  on_handle not_allowed r path m q = serve not_allowed m q (route_match r new_state path)
