-- ===== src/Http2/Hpack/Reader.antt =====
-- `bit_reader` of hpack.cpp. It is read at `pos - 1` and from `pos` on only, so the reader holds
-- the byte before its position and the bytes ahead of it.
use libnhttp.Base.{ℕ, [], ◌∷◌, Bytes, take, drop}

pub record BitReader : Type 0 where
  pub before : ℕ
  pub ahead : Bytes

abbrev pub last_of : ℕ → Bytes → ℕ
last_of b [] = b
last_of b (x ∷ xs) = last_of x xs

-- `pos += n`
abbrev pub skip : ℕ → BitReader → BitReader
skip n r = record { before = last_of r.before (take n r.ahead); ahead = drop n r.ahead }
