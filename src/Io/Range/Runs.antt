-- ===== src/Io/Range/Runs.antt =====
-- Concrete runs of `range_stream`, and its theorems at a concrete stream.
use libnhttp.Base.{ℕ, ◌+◌, ◌≡◌, refl, [], ◌∷◌, arith, Bytes, true, false, length}
use libnhttp.Base.Int.{pos, negsuc, pos_part}
use libnhttp.Io.Stream.{SeekOrigin, Stream}
use libnhttp.Io.Memory.{Memory, memory_stream}
use libnhttp.Io.Memory.Laws.{IsValid, memory_stream-IsSeekable}
use libnhttp.Io.Range.{
  range_stream, get_length, ensure_positioned, seek_target, seek, allowed, write_positioned, read,
  write,
}
use libnhttp.Io.Range.Window.{bounded_range, IsWindow, IsRead, read-IsRead}

abbrev stored : Memory
stored = record { bytes = 1 ∷ 2 ∷ 3 ∷ 4 ∷ []; position = 0 }

stored-IsValid : IsValid stored
stored-IsValid = record { inside = omega arith; fits = omega arith }

-- A stream whose seeks and writes always do what they are asked.
abbrev sink : Stream ℕ
sink = record {
  get_length = λ n. pos 100;
  seek = λ k origin n. (k, pos_part k);
  read = λ k n. ([], n);
  write = λ bytes n. (length bytes, n + length bytes);
}

length_run : get_length sink (range_stream sink 0 (pos 90) (pos 200)) ≡ pos 10
unfolding get_length range_stream
length_run = refl

seek_run : (seek sink (negsuc 0) SeekOrigin.ending (bounded_range 0 false 10 20 0)).0 ≡ pos 9
unfolding seek seek_target
seek_run = refl

write_run :
    write sink (1 ∷ 2 ∷ 3 ∷ []) (bounded_range 0 false 10 12 0) ≡ (2, bounded_range 12 true 10 12 2)
unfolding write write_positioned allowed ensure_positioned
write_run = refl

stored-IsWindow : IsWindow memory_stream memory_stream-IsSeekable stored false 1 3 0
stored-IsWindow = record {
  good = stored-IsValid;
  ordered = omega arith;
  inside = omega arith;
  placed = refl;
}

read-IsRead_example :
    (bs : Bytes) × (s' : Memory) × (p' : ℕ) × (read memory_stream 8
        (bounded_range stored false 1 3 0)
      ≡ (bs, bounded_range s' true 1 3 p'))
    × IsRead memory_stream memory_stream-IsSeekable 8 stored 1 3 0 bs s' p'
read-IsRead_example =
    read-IsRead memory_stream memory_stream-IsSeekable 8 stored false 1 3 0 stored-IsWindow
