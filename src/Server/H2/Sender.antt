-- ===== src/Server/H2/Sender.antt =====
-- `connection_h2::write_data_frames` of src/server/connection_h2.cpp: how a chunk of a body is cut into
-- DATA frames within the two windows. A round of the loop is two steps: the frame is handed to `send_frame`, where
-- other coroutines run while it waits, and when it is back the windows lose what it took.
pub mod Flow
use libnhttp.Base.{
  ℕ, List, [], ◌∷◌, ◌++◌, Bytes, Bool, Option, some, none, not, ◌||◌, length, take, drop,
}
use libnhttp.Base.Int.{
  ℤ, pos, negsuc, pos_part, ◌+ℤ◌, ◌-ℤ◌, ltb_ℤ, min_ℤ, min_ℤ-pos, +ℤ-pos, -ℤ-pos,
}

-- A chunk that is being sent: what is left of it, the payloads of the frames so far, and what
-- the frame took that `send_frame` is busy with.
pub record Sender : Type 0 where
  pub stream_window : ℤ
  pub connection_window : ℤ
  pub max_frame_size : ℕ
  pub unsent : Bytes
  pub frames : List Bytes
  pub in_flight : Option ℤ

-- The condition of the inner loop that waits.
unfoldable pub is_blocked : Sender → Bool
is_blocked s = (not (ltb_ℤ (pos 0) s.stream_window)) || not (ltb_ℤ (pos 0) s.connection_window)

unfoldable pub allowed : Sender → ℤ
allowed s =
    min_ℤ (min_ℤ s.stream_window s.connection_window)
      (min_ℤ (pos s.max_frame_size) (pos (length s.unsent)))

unfoldable pub start_frame : Sender → Sender
start_frame s = record s {
  frames = s.frames ++ take (pos_part (allowed s)) s.unsent ∷ [];
  in_flight = some (allowed s);
}

-- What follows `send_frame`, with the windows as they are then.
unfoldable pub end_frame : ℤ → Sender → Sender
end_frame taken s = record s {
  stream_window = s.stream_window -ℤ taken;
  connection_window = s.connection_window -ℤ taken;
  unsent = drop (pos_part taken) s.unsent;
  in_flight = none;
}

-- A round in which `send_frame` does not wait.
unfoldable pub send_chunk : Sender → Sender
unfolding start_frame end_frame
send_chunk s = end_frame (allowed s) (start_frame s)

abbrev pub flat : List Bytes → Bytes
flat [] = []
flat (f ∷ fs) = f ++ flat fs
