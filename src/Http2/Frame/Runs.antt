-- ===== src/Http2/Frame/Runs.antt =====
-- Concrete runs of the frame code, and its theorems at concrete inputs.
use libnhttp.Base.{Bytes, ◌≡◌, refl, List, [], ◌∷◌, ◌++◌, some, none, arith}
use libnhttp.Http2.Frame.{
  FrameHeader, write, parse, write_u24, write_u32, read_u24, read_u32, SettingsParam, settings_loop,
  parse_settings_payload, write_ping_payload,
}
use libnhttp.Http2.Frame.Header.{parse-write}

abbrev headers_frame : FrameHeader
headers_frame = record { payload_length = 300; type = 1; flags = 5; stream_id = 7 }

write_run : write headers_frame [] ≡ 0 ∷ 1 ∷ 44 ∷ 1 ∷ 5 ∷ 0 ∷ 0 ∷ 0 ∷ 7 ∷ []
unfolding write write_u24 write_u32
write_run = refl

parse_run : parse (0 ∷ 1 ∷ 44 ∷ 1 ∷ 5 ∷ 0x80 ∷ 0 ∷ 0 ∷ 7 ∷ []) ≡ some headers_frame
unfolding parse read_u24 read_u32
parse_run = refl

parse_short : parse (0 ∷ 1 ∷ 44 ∷ 1 ∷ []) ≡ none
unfolding parse read_u24 read_u32
parse_short = refl

settings_cut : parse_settings_payload (0 ∷ 4 ∷ 0 ∷ []) ≡ none
unfolding parse_settings_payload settings_loop
settings_cut = refl

parse-write_example : parse (write headers_frame [] ++ (9 ∷ [])) ≡ some headers_frame
parse-write_example = parse-write headers_frame (9 ∷ []) (omega arith)

abbrev two_params : List SettingsParam
two_params = record { id = 3; value = 100 } ∷ record { id = 4; value = 65535 } ∷ []

abbrev one_param : Bytes
one_param = 0 ∷ 4 ∷ 0 ∷ 0 ∷ 255 ∷ 255 ∷ []

ping_run :
    write_ping_payload (9 ∷ []) (1 ∷ 2 ∷ 3 ∷ 4 ∷ 5 ∷ 6 ∷ 7 ∷ 8 ∷ [])
    ≡ 9 ∷ 1 ∷ 2 ∷ 3 ∷ 4 ∷ 5 ∷ 6 ∷ 7 ∷ 8 ∷ []
unfolding write_ping_payload
ping_run = refl
