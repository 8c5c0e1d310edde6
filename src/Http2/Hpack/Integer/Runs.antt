-- ===== src/Http2/Hpack/Integer/Runs.antt =====
-- Concrete runs of the prefix integers, and their theorems at concrete inputs.
use libnhttp.Base.{ℕ, ◌≡◌, refl, [], ◌∷◌, ◌++◌, arith, Bytes, some, dec_le}
use libnhttp.Base.Order.{lt_wf}
use libnhttp.Base.{dec_le}
use libnhttp.Http2.Hpack.Reader.{BitReader}
use libnhttp.Http2.Hpack.Integer.{read_groups, read_integer, write_groups, write_integer}
use libnhttp.Http2.Hpack.Integer.RoundTrip.{IsPrefix, read_integer-write_integer}

-- 1337 behind a prefix of five bits.
write_run : write_integer [] 1337 5 0x20 ≡ 0x3f ∷ 154 ∷ 10 ∷ []
unfolding write_integer write_groups lt_wf dec_le
write_run = refl

five_bits : IsPrefix 5 1
five_bits = record { low = omega arith; high = omega arith; fits = omega arith }

read_integer-write_integer_example :
    (first : ℕ) × (tail : Bytes) × (b : ℕ) × (write_integer [] 1337 5 32 ≡ first ∷ tail)
    × (read_integer (record { before = first; ahead = tail ++ (7 ∷ []) }) 5
        ≡ some (1337, record { before = b; ahead = 7 ∷ [] }))
read_integer-write_integer_example =
    read_integer-write_integer 1337 5 1 (7 ∷ []) five_bits (omega arith)

abbrev written : BitReader
written = record { before = 0x3f; ahead = 154 ∷ 10 ∷ 7 ∷ [] }

abbrev behind : BitReader
behind = record { before = 10; ahead = 7 ∷ [] }

read_run : read_integer written 5 ≡ some (1337, behind)
unfolding read_integer read_groups
read_run = refl
