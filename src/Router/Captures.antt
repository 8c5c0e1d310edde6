-- ===== src/Router/Captures.antt =====
-- `capture_map` and `route_state` of include/nhttp/router/route.hpp.
use libnhttp.Base.{ℕ, ◌≡◌, refl, List, [], ◌∷◌, arith, Bytes, Option, some, none, if◌then◌else◌}
use libnhttp.Base.Text.{bytes_eq, bytes_eq_iff}

abbrev pub CaptureMap : Type 0
CaptureMap = List (Bytes × Bytes)

-- An assignment to `operator[]`.
unfoldable pub set_capture : Bytes → Bytes → CaptureMap → CaptureMap
set_capture key value [] = (key, value) ∷ []
set_capture key value ((k, v) ∷ items) =
    if bytes_eq k key then (k, value) ∷ items else (k, v) ∷ set_capture key value items

-- `at`; `none` is the exception.
unfoldable pub capture_at : Bytes → CaptureMap → Option Bytes
capture_at key [] = none
capture_at key ((k, v) ∷ items) = if bytes_eq k key then some v else capture_at key items

unfoldable pub count : Bytes → CaptureMap → ℕ
count key [] = 0
count key ((k, v) ∷ items) = if bytes_eq k key then 1 else count key items

-- A key that was assigned has the last value, and the others have what they had.
pub capture_at-set_capture :
    (key j value : Bytes) (m : CaptureMap)
    → capture_at j (set_capture key value m)
      ≡ (if bytes_eq key j then some value else capture_at j m)
unfolding set_capture capture_at
capture_at-set_capture key j value [] = refl
capture_at-set_capture key j value ((k, v) ∷ m) = ground (
  arith,
  bytes_eq_iff k key,
  bytes_eq_iff key j,
  bytes_eq_iff k j,
  capture_at-set_capture key j value m,
)

pub record RouteState : Type 0 where
  pub captures : CaptureMap
  pub depth : ℕ

abbrev pub new_state : RouteState
new_state = record { captures = []; depth = 0 }
