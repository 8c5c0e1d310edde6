-- ===== src/Io/Range.antt =====
-- `io::range_stream` of src/io/range_stream.cpp, over any stream. `flush` and `close` are those of
-- the inner stream.
pub mod Window
mod Runs
use libnhttp.Base.{
  ℕ, [], Bytes, Bool, true, false, not, ◌||◌, Option, some, none, length, take, if◌then◌else◌, min,
}
use libnhttp.Base.Int.{
  ℤ, pos, negsuc, pos_part, neg_part, sub_ℕ, ◌+ℤ◌, ◌-ℤ◌, ◌≤ℤ◌, ltb_ℤ, min_ℤ, max_ℤ,
}
use libnhttp.Io.Stream.{SeekOrigin, Stream}

pub record Range (S : Type 0) : Type 0 where
  pub inner : S
  pub bounded : Bool
  pub first : ℤ
  pub last : ℤ
  pub position : ℤ
  pub positioned : Bool

module _ {S : Type 0} (i : Stream S) where
  -- The constructor; `first` and `last` are the source's `begin_` and `end_`.
  unfoldable pub range_stream : S → ℤ → ℤ → Range S
  range_stream inner first last =
      if ltb_ℤ first (pos 0) || ltb_ℤ last (pos 0)
      then record {
        inner = inner;
        bounded = false;
        first = pos 0;
        last = pos 0;
        position = pos 0;
        positioned = false;
      }
      else let length = i.get_length inner in
        let known = not (ltb_ℤ length (pos 0)) in
        let start = if known then min_ℤ first length else first in
        record {
          inner = inner;
          bounded = true;
          first = start;
          last = if known then min_ℤ (max_ℤ last start) length else max_ℤ last start;
          position = pos 0;
          positioned = false;
        }

  pub get_length : Range S → ℤ
  get_length r = if r.bounded then r.last -ℤ r.first else i.get_length r.inner

  unfoldable pub ensure_positioned : Range S → Range S
  ensure_positioned r = if r.positioned then r else record r {
    inner = if r.bounded then (i.seek r.first SeekOrigin.begin r.inner).1 else r.inner;
    positioned = true;
  }

  pub seek_target : ℤ → SeekOrigin → Range S → ℤ
  seek_target offset SeekOrigin.begin r = offset
  seek_target offset SeekOrigin.current r = r.position +ℤ offset
  seek_target offset SeekOrigin.ending r =
      (if r.bounded then r.last -ℤ r.first else i.get_length r.inner) +ℤ offset

  pub seek : ℤ → SeekOrigin → Range S → ℤ × Range S
  unfolding seek_target
  seek offset origin r =
      let target = seek_target offset origin r in
      let inner_target = if r.bounded then r.first +ℤ target else target in
      let result = i.seek inner_target SeekOrigin.begin r.inner in
      let place = if r.bounded then result.0 -ℤ r.first else result.0 in
      if ltb_ℤ target (pos 0)
      then (negsuc 0, r)
      else if ltb_ℤ result.0 (pos 0)
      then (negsuc 0, record r { inner = result.1 })
      else (place, record r { inner = result.1; position = place; positioned = true })

  -- The bytes that a read or a write of `n` bytes may move; `none` is the return of 0.
  unfoldable pub allowed : ℕ → Range S → Option ℕ
  allowed n r =
      let remaining = r.last -ℤ r.first -ℤ r.position in
      if r.bounded
      then (if not (ltb_ℤ (pos 0) remaining) then none else some (min n (pos_part remaining)))
      else some n

  -- `read` and `write` behind `ensure_positioned`.
  unfoldable pub read_positioned : ℕ → Range S → Bytes × Range S
  unfolding allowed
  read_positioned n r = elim (allowed n r) [
    | none ↦ ([], r)
    | some m ↦
        let got = i.read m r.inner in
        (got.0, record r { inner = got.1; position = r.position +ℤ pos (length got.0) })
  ]

  pub write_positioned : Bytes → Range S → ℕ × Range S
  unfolding allowed
  write_positioned source r = elim (allowed (length source) r) [
    | none ↦ (0, r)
    | some m ↦
        let written = i.write (take m source) r.inner in
        (written.0, record r { inner = written.1; position = r.position +ℤ pos written.0 })
  ]

  unfoldable pub read : ℕ → Range S → Bytes × Range S
  read n r = read_positioned n (ensure_positioned r)

  pub write : Bytes → Range S → ℕ × Range S
  write source r = write_positioned source (ensure_positioned r)
