-- ===== src/Server/Extensions/Registry.antt =====
-- `extension` and `extension_registry` of src/server/extension.cpp. What an extension does to the request
-- is in the request that comes back.
pub mod Order
mod Runs
use libnhttp.Base.{ℕ, List, [], ◌∷◌, ltb, Bool, true, false, Option, some, none, if◌then◌else◌}

pub record Extension (R A : Type 0) : Type 0 where
  pub priority : ℕ
  pub wants : R → Bool × R
  pub handle : R → A × R

module _ {R A : Type 0} where
  -- `std::upper_bound` on a list in order, and the insertion there.
  pub add : Extension R A → List (Extension R A) → List (Extension R A)
  add ext [] = ext ∷ []
  add ext (e ∷ es) =
      let rest = add ext es in if ltb ext.priority e.priority then ext ∷ e ∷ es else e ∷ rest

  -- What an extension says, and what follows it.
  unfoldable pub asked : (R → Option A × R) → Extension R A → Bool × R → Option A × R
  asked again e (true, req) = (some (e.handle req).0, (e.handle req).1)
  asked again e (false, req) = again req

  unfoldable pub dispatch : List (Extension R A) → R → Option A × R
  unfolding asked
  dispatch [] req = (none, req)
  dispatch (e ∷ es) req = asked (dispatch es) e (e.wants req)
