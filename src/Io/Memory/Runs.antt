-- ===== src/Io/Memory/Runs.antt =====
-- Concrete runs of `memory_stream`, and its theorems at concrete inputs.
use libnhttp.Base.{ℕ, ◌≤◌, ◌≡◌, ◌≢◌, ◌⊎◌, refl, [], ◌∷◌, arith}
use libnhttp.Base.Int.{pos, negsuc}
use libnhttp.Io.Stream.{SeekOrigin}
use libnhttp.Io.Memory.{Memory, seek, seek_target, write, zeros, resize}
use libnhttp.Io.Memory.Laws.{IsValid, seek_cases}

abbrev stored : Memory
stored = record { bytes = 1 ∷ 2 ∷ 3 ∷ []; position = 2 }

write_run : write (7 ∷ 8 ∷ []) stored ≡ (2, record { bytes = 1 ∷ 2 ∷ 7 ∷ 8 ∷ []; position = 4 })
unfolding write resize zeros
write_run = refl

seek_run : seek (negsuc 1) SeekOrigin.ending stored ≡ (pos 1, record stored { position = 1 })
unfolding seek seek_target
seek_run = refl

stored-IsValid : IsValid stored
stored-IsValid = record { inside = omega arith; fits = omega arith }

seek_cases_example :
    ((k : ℕ) × (seek_target (pos 1) SeekOrigin.current stored ≡ pos k)
      × (k ≤ 3)
      × (seek (pos 1) SeekOrigin.current stored ≡ (pos k, record stored { position = k })))
    ⊎ ((seek (pos 1) SeekOrigin.current stored ≡ (negsuc 0, stored))
        × ((k : ℕ) → k ≤ 3 → seek_target (pos 1) SeekOrigin.current stored ≢ pos k))
seek_cases_example = seek_cases (pos 1) SeekOrigin.current stored
