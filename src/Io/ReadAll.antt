-- ===== src/Io/ReadAll.antt =====
-- `io::stream::read_all` of src/io/stream.cpp, over the `read` of any stream. A read that does not come to
-- an end is `none`.
use libnhttp.Base.{ℕ, zero, suc, [], ◌∷◌, ◌++◌, Bytes, Option, some, none}

module _ {S : Type 0} (read : ℕ → S → Option (Bytes × S)) where
  -- What a round does with the bytes that were read; the next round is `again`.
  unfoldable pub read_all_round :
      (S → Bytes → Option (Bytes × S)) → Bytes → Option (Bytes × S) → Option (Bytes × S)
  read_all_round again out none = none
  read_all_round again out (some ([], s)) = some (out, s)
  read_all_round again out (some (b ∷ bs, s)) = again s (out ++ b ∷ bs)

  -- The loop, with fuel: every round but the last takes a byte at least.
  unfoldable pub read_all : ℕ → S → Bytes → Option (Bytes × S)
  unfolding read_all_round
  read_all zero s out = none
  read_all (suc fuel) s out = read_all_round (read_all fuel) out (read 4096 s)
