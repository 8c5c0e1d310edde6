-- ===== src/Server/Extensions/Registry/Runs.antt =====
-- A concrete registry, and the theorems at it.
use libnhttp.Base.{ℕ, ◌≡◌, ◌⊎◌, refl, List, [], ◌∷◌, arith, All, leb, false, some, none}
use libnhttp.Server.Extensions.Registry.{Extension, add, asked, dispatch}
use libnhttp.Server.Extensions.Registry.Order.{
  IsOrdered, Inserted, Answers, add-Inserted-IsOrdered, dispatch-least,
}

-- An extension that accepts the requests from a number on.
abbrev from : ℕ → ℕ → Extension ℕ ℕ
from p n = record { priority = p; wants = λ r. (leb n r, r); handle = λ r. (p, r) }

abbrev three : List (Extension ℕ ℕ)
three = from 1 9 ∷ from 2 5 ∷ from 2 0 ∷ []

add_run : add (from 2 0) (from 1 9 ∷ from 2 5 ∷ []) ≡ three
unfolding add
add_run = refl

dispatch_run : dispatch three 6 ≡ (some 2, 6)
unfolding dispatch asked
dispatch_run = refl

three-IsOrdered : IsOrdered three
three-IsOrdered = ((omega arith, (omega arith, tt)), ((omega arith, tt), (tt, tt)))

add-Inserted-IsOrdered_example :
    Inserted (from 1 3) three (add (from 1 3) three) × IsOrdered (add (from 1 3) three)
add-Inserted-IsOrdered_example = add-Inserted-IsOrdered (from 1 3) three three-IsOrdered

dispatch-least_example :
    (All (λ (x : Extension ℕ ℕ). (x.wants 6).0 ≡ false) three × (dispatch three 6 ≡ (none, 6)))
    ⊎ Answers 6 three (dispatch three 6)
dispatch-least_example = dispatch-least 6 three three-IsOrdered (refl, (refl, (refl, tt)))
