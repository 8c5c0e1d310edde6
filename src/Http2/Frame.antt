-- ===== src/Http2/Frame.antt =====
-- src/http2/frame.cpp and include/nhttp/http2/frame.hpp: the frame header and the frame payloads.
-- A pointer into a buffer is the list of the bytes from it on; a read past the end is `none`.
pub mod Integers
pub mod Header
pub mod Payloads
pub mod Padding
mod Runs
use libnhttp.Base.{
  ℕ, zero, suc, ◌+◌, ◌-◌, ◌/◌, ◌%◌, ltb, ◌==◌, if◌then◌else◌, Bool, true, false, not, List, [], ◌∷◌,
  ◌++◌, Option, none, some, ◌>>=◌, get_elem?, drop, length, Bytes, u8, u16, ◌<<<◌, ◌>>>◌, bit_and,
  bit_or,
}

-- The `write_*` functions append to `out`.
pub write_u24 : Bytes → ℕ → Bytes
write_u24 out value =
    out
    ++ (u8 (bit_and (value >>> 16) 0xff)
        ∷ u8 (bit_and (value >>> 8) 0xff)
        ∷ u8 (bit_and value 0xff)
        ∷ [])

pub write_u32 : Bytes → ℕ → Bytes
write_u32 out value =
    out
    ++ (u8 (bit_and (value >>> 24) 0xff)
        ∷ u8 (bit_and (value >>> 16) 0xff)
        ∷ u8 (bit_and (value >>> 8) 0xff)
        ∷ u8 (bit_and value 0xff)
        ∷ [])

pub write_u16 : Bytes → ℕ → Bytes
write_u16 out value = out ++ (u8 (bit_and (value >>> 8) 0xff) ∷ u8 (bit_and value 0xff) ∷ [])

pub read_u24 : Bytes → Option ℕ
read_u24 p = do
  p0 ← get_elem? p 0
  p1 ← get_elem? p 1
  p2 ← get_elem? p 2
  some (bit_or (bit_or (p0 <<< 16) (p1 <<< 8)) p2)

pub read_u32 : Bytes → Option ℕ
read_u32 p = do
  p0 ← get_elem? p 0
  p1 ← get_elem? p 1
  p2 ← get_elem? p 2
  p3 ← get_elem? p 3
  some (bit_or (bit_or (bit_or (p0 <<< 24) (p1 <<< 16)) (p2 <<< 8)) p3)

pub read_u16 : Bytes → Option ℕ
read_u16 p = do p0 ← get_elem? p 0; p1 ← get_elem? p 1; some (u16 (bit_or (p0 <<< 8) p1))

-- `frame_type` is an enum over `uint8_t`: a parsed header may hold any byte there.
pub record FrameHeader : Type 0 where
  pub payload_length : ℕ
  pub type : ℕ
  pub flags : ℕ
  pub stream_id : ℕ

pub write : FrameHeader → Bytes → Bytes
write h out =
    write_u32 (write_u24 out (bit_and h.payload_length 0x00ffffff) ++ (u8 h.type ∷ h.flags ∷ []))
      (bit_and h.stream_id 0x7fffffff)

pub parse : Bytes → Option FrameHeader
parse p = do
  n ← read_u24 p
  t ← get_elem? p 3
  f ← get_elem? p 4
  id ← read_u32 (drop 5 p)
  some (record { payload_length = n; type = t; flags = f; stream_id = bit_and id 0x7fffffff })

pub record SettingsParam : Type 0 where
  pub id : ℕ
  pub value : ℕ

pub write_settings_payload : Bytes → List SettingsParam → Bytes
write_settings_payload out [] = out
write_settings_payload out (p ∷ params) =
    write_settings_payload (write_u32 (write_u16 out p.id) p.value) params

-- The loop of `parse_settings_payload` with `rounds` left, at the pointer `data + i`.
pub settings_loop : ℕ → Bytes → List SettingsParam → Option (List SettingsParam)
settings_loop zero p out = some out
settings_loop (suc rounds) p out = do
  id ← read_u16 p
  value ← read_u32 (drop 2 p)
  settings_loop rounds (drop 6 p) (out ++ (record { id = id; value = value } ∷ []))

-- `none` is the result false.
pub parse_settings_payload : Bytes → Option (List SettingsParam)
parse_settings_payload p =
    if not (length p % 6 == 0) then none else settings_loop (length p / 6) p []

pub write_window_update_payload : Bytes → ℕ → Bytes
write_window_update_payload out increment = write_u32 out (bit_and increment 0x7fffffff)

pub parse_window_update_payload : Bytes → Option ℕ
parse_window_update_payload p =
    if not (length p == 4)
    then none
    else do increment ← read_u32 p; some (bit_and increment 0x7fffffff)

pub write_rst_stream_payload : Bytes → ℕ → Bytes
write_rst_stream_payload out error = write_u32 out error

pub parse_rst_stream_payload : Bytes → Option ℕ
parse_rst_stream_payload p = if not (length p == 4) then none else read_u32 p

pub write_goaway_payload : Bytes → ℕ → ℕ → Bytes → Bytes
write_goaway_payload out last_stream_id error debug_data =
    write_u32 (write_u32 out (bit_and last_stream_id 0x7fffffff)) error ++ debug_data

pub write_ping_payload : Bytes → Bytes → Bytes
write_ping_payload out opaque = out ++ opaque

-- Where the content of a padded frame lies in its payload.
pub record Content : Type 0 where
  pub content_offset : ℕ
  pub content_len : ℕ

unfoldable pub strip_padding : Bytes → Bool → Option Content
strip_padding payload padded =
    if not padded
    then some (record { content_offset = 0; content_len = length payload })
    else if ltb (length payload) 1
    then none
    else do
      pad_length ← get_elem? payload 0
      if ltb (length payload) (pad_length + 1)
          then none
          else some (record { content_offset = 1; content_len = length payload - 1 - pad_length })
