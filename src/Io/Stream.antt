-- ===== src/Io/Stream.antt =====
-- The interface `io::stream` of include/nhttp/io/stream.hpp, and what a stream that can be sought
-- promises to those who read it.
use libnhttp.Base.{ℕ, ◌+◌, ◌≤◌, ◌<◌, ◌≡◌, Bytes, length, take, drop}
use libnhttp.Base.Int.{ℤ, pos}

pub data SeekOrigin : Type 0 where
  begin : SeekOrigin
  current : SeekOrigin
  ending : SeekOrigin

-- The operations, on the states `S` of an implementation. A read gives the bytes that it puts into
-- the buffer.
pub record Stream (S : Type 0) : Type 0 where
  pub get_length : S → ℤ
  pub seek : ℤ → SeekOrigin → S → ℤ × S
  pub read : ℕ → S → Bytes × S
  pub write : Bytes → S → ℕ × S

-- A stream over bytes that are all there: reads take the next bytes, perhaps fewer than are asked
-- for, but some where there are some.
pub record IsSeekable {S : Type 0} (i : Stream S) : Type 1 where
  pub Good : S → Type 0
  pub content : S → Bytes
  pub position : S → ℕ
  pub get_length_lem : (s : S) → Good s → i.get_length s ≡ pos (length (content s))
  pub seek_begin :
      (k : ℕ) (s : S)
      → Good s
      → k ≤ length (content s)
      → (s' : S) × (i.seek (pos k) SeekOrigin.begin s ≡ (pos k, s'))
        × Good s'
        × (content s' ≡ content s)
        × (position s' ≡ k)
  pub read_next :
      (n : ℕ) (s : S)
      → Good s
      → Good (i.read n s).1
        × (content (i.read n s).1 ≡ content s)
        × ((i.read n s).0 ≡ take (length (i.read n s).0) (drop (position s) (content s)))
        × (position (i.read n s).1 ≡ position s + length (i.read n s).0)
        × (position (i.read n s).1 ≤ length (content s))
        × (length (i.read n s).0 ≤ n)
  pub read_some :
      (n : ℕ) (s : S) → Good s → 0 < n → position s < length (content s) → 0 < length (i.read n s).0
