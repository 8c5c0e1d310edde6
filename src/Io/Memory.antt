-- ===== src/Io/Memory.antt =====
-- `io::memory_stream` of src/io/memory_stream.cpp. `flush` and `close` do nothing there.
pub mod Laws
mod Runs
use libnhttp.Base.{
  ℕ, zero, suc, ◌+◌, ◌-◌, ◌^◌, [], ◌∷◌, ◌++◌, u64, Bytes, ltb, ◌||◌, length, take, drop,
  if◌then◌else◌, min,
}
use libnhttp.Base.Int.{
  ℤ, pos, negsuc, pos_part, neg_part, sub_ℕ, ◌+ℤ◌, ◌-ℤ◌, ◌≤ℤ◌, ltb_ℤ, min_ℤ, max_ℤ,
}
use libnhttp.Io.Stream.{SeekOrigin, Stream}

pub record Memory : Type 0 where
  pub bytes : Bytes
  pub position : ℕ

pub get_length : Memory → ℤ
get_length m = pos (length m.bytes)

pub seek_target : ℤ → SeekOrigin → Memory → ℤ
seek_target offset SeekOrigin.begin m = offset
seek_target offset SeekOrigin.current m = pos m.position +ℤ offset
seek_target offset SeekOrigin.ending m = pos (length m.bytes) +ℤ offset

pub seek : ℤ → SeekOrigin → Memory → ℤ × Memory
unfolding seek_target
seek offset origin m =
    let target = seek_target offset origin m in
    if ltb_ℤ target (pos 0) || ltb_ℤ (pos (length m.bytes)) target
    then (negsuc 0, m)
    else (target, record m { position = pos_part target })

pub read : ℕ → Memory → Bytes × Memory
read n m =
    let remaining = u64 (length m.bytes + 2 ^ 64 - m.position) in
    let to_copy = min n remaining in
    if ltb 0 to_copy
    then (take to_copy (drop m.position m.bytes), record m { position = m.position + to_copy })
    else ([], m)

pub zeros : ℕ → Bytes
zeros zero = []
zeros (suc n) = 0 ∷ zeros n

-- `data_.resize`, which is only called to make the vector longer.
pub resize : ℕ → Bytes → Bytes
unfolding zeros
resize n xs = xs ++ zeros (n - length xs)

pub write : Bytes → Memory → ℕ × Memory
unfolding resize
write source m =
    let n = length source in
    let resized =
      if ltb (length m.bytes) (m.position + n) then resize (m.position + n) m.bytes else m.bytes in
    (
      n,
      record {
        bytes = take m.position resized ++ (source ++ drop (m.position + n) resized);
        position = m.position + n;
      },
    )

abbrev pub memory_stream : Stream Memory
memory_stream = record { get_length = get_length; seek = seek; read = read; write = write }
