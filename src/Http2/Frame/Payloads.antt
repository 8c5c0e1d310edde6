-- ===== src/Http2/Frame/Payloads.antt =====
-- The payloads of SETTINGS, WINDOW_UPDATE, RST_STREAM and GOAWAY frames.
use libnhttp.Base.{
  drop, ℕ, suc, zero, ◌+◌, ◌*◌, ◌/◌, ◌%◌, ◌^◌, ◌<◌, ◌≡◌, ◌≢◌, ◌↔◌, refl, sym, ap, ◌∙◌, List, [],
  ◌∷◌, ◌++◌, some, none, arith, Bytes, IsByte, bit_and, length, append_assoc, append-nil, All,
}
use libnhttp.Base.Bits.{bit_and_mask}
use libnhttp.Http2.Frame.{
  write_u32, read_u32, SettingsParam, write_settings_payload, settings_loop, parse_settings_payload,
  write_window_update_payload, parse_window_update_payload, write_goaway_payload,
  write_rst_stream_payload, parse_rst_stream_payload,
}
use libnhttp.Http2.Frame.Integers.{write_u16_lem, write_u32_lem, read_u16_lem, read_u32_lem}

abbrev IsParam : SettingsParam → Type 0
IsParam p = (p.id < 2 ^ 16) × (p.value < 2 ^ 32)

abbrev param_bytes : SettingsParam → Bytes → Bytes
param_bytes p rest =
    p.id / 256 % 256
    ∷ p.id % 256
    ∷ p.value / 16777216 % 256
    ∷ p.value / 65536 % 256
    ∷ p.value / 256 % 256
    ∷ p.value % 256
    ∷ rest

abbrev params_bytes : List SettingsParam → Bytes
params_bytes [] = []
params_bytes (p ∷ ps) = param_bytes p (params_bytes ps)

write_settings_lem :
    (ps : List SettingsParam) (out : Bytes) → write_settings_payload out ps ≡ out ++ params_bytes ps
unfolding write_settings_payload
write_settings_lem [] out = sym (append-nil out)
write_settings_lem (p ∷ ps) out =
    write_settings_lem ps _ ∙ rw (write_u32_lem, write_u16_lem, append_assoc, append_assoc)

length-params_bytes : (ps : List SettingsParam) → length (params_bytes ps) ≡ length ps * 6
length-params_bytes [] = refl
length-params_bytes (p ∷ ps) = omega (arith, length-params_bytes ps)

-- One round of the loop.
settings_round :
    (rounds a b c d e f : ℕ) (rest : Bytes) (out : List SettingsParam)
    → All IsByte (a ∷ b ∷ c ∷ d ∷ e ∷ f ∷ [])
    → let p : SettingsParam = record {
      id = a * 256 + b;
      value = c * 16777216 + d * 65536 + e * 256 + f;
    } in
      settings_loop (suc rounds) (a ∷ b ∷ c ∷ d ∷ e ∷ f ∷ rest) out
      ≡ settings_loop rounds rest (out ++ (p ∷ []))
unfolding settings_loop
settings_round rounds a b c d e f rest out h =
    ground (arith, read_u16_lem a b (c ∷ d ∷ e ∷ f ∷ rest), read_u32_lem c d e f rest)

settings_loop-params_bytes :
    (ps out : List SettingsParam)
    → All IsParam ps
    → settings_loop (length ps) (params_bytes ps) out ≡ some (out ++ ps)
settings_loop-params_bytes [] out h = unfold settings_loop in ap some (sym (append-nil out))
settings_loop-params_bytes (p ∷ ps) out (hp, hps) =
    let v : ℕ = p.value in
    settings_round (length ps) (p.id / 256 % 256) (p.id % 256) (v / 16777216 % 256)
      (v / 65536 % 256) (v / 256 % 256) (v % 256) (params_bytes ps) out (omega arith)
    ∙ settings_loop-params_bytes ps _ hps
    ∙ ground (arith, append_assoc out (p ∷ []) ps)

-- SETTINGS parameters that fit their fields are read back as they were written.
pub parse_settings-write_settings :
    (ps : List SettingsParam)
    → All IsParam ps
    → parse_settings_payload (write_settings_payload [] ps) ≡ some ps
unfolding parse_settings_payload
parse_settings-write_settings ps h = rw (write_settings_lem ps []) (
    ground (
      arith,
      length-params_bytes ps,
      ap (λ (n : ℕ). settings_loop n (params_bytes ps) []) {x = length (params_bytes ps) / 6}
          {y = length ps} (omega (arith, length-params_bytes ps)),
      settings_loop-params_bytes ps [] h,
    ))

settings_loop-total :
    (n : ℕ) (p : Bytes) (out : List SettingsParam)
    → All IsByte p
    → length p ≡ n * 6
    → (ps : List SettingsParam) × (settings_loop n p out ≡ some (out ++ ps)) × (params_bytes ps ≡ p)
settings_loop-total zero [] out h e =
    ([], unfold settings_loop in ap some (sym (append-nil out)), refl)
settings_loop-total zero (x ∷ p) out h e = absurd (omega arith)
settings_loop-total (suc n) (a ∷ b ∷ c ∷ d ∷ x ∷ y ∷ rest) out h e =
    let p : SettingsParam = record {
      id = a * 256 + b;
      value = c * 16777216 + d * 65536 + x * 256 + y;
    } in
    let (ps, runs, same) =
      settings_loop-total n rest (out ++ (p ∷ [])) h.1.1.1.1.1.1 (omega arith) in
    (
      p ∷ ps,
      settings_round n a b c d x y rest out (omega arith)
          ∙ runs
          ∙ ap some (append_assoc out (p ∷ []) ps),
      ground arith,
    )
settings_loop-total (suc n) p out h e = absurd (omega arith)

-- A SETTINGS payload of bytes has a length that is a multiple of 6 exactly when it parses to
-- parameters that are written as the same payload: none is lost or made up.
pub parse_settings_iff :
    (p : Bytes)
    → All IsByte p
    → (length p % 6 ≡ 0) ↔ (
        (ps : List SettingsParam) × (parse_settings_payload p ≡ some ps)
        × (write_settings_payload [] ps ≡ p))
unfolding parse_settings_payload
parse_settings_iff p h = (there, back)
  where
    there :
        length p % 6 ≡ 0
        → (ps : List SettingsParam) × (parse_settings_payload p ≡ some ps)
          × (write_settings_payload [] ps ≡ p)
    there e =
        let (ps, runs, same) = settings_loop-total (length p / 6) p [] h (omega arith) in
        (ps, ground arith, write_settings_lem ps [] ∙ same)

    back :
        (ps : List SettingsParam) × (parse_settings_payload p ≡ some ps)
          × (write_settings_payload [] ps ≡ p)
        → length p % 6 ≡ 0
    back (ps, runs, same) = ground arith

-- A window increment is read back cut to 31 bits; any payload but one of four bytes is refused.
pub parse_window_update-write :
    (n : ℕ) (p : Bytes)
    → length p ≢ 4
    → (parse_window_update_payload (write_window_update_payload [] n) ≡ some (n % 2 ^ 31))
      × (parse_window_update_payload p ≡ none)
unfolding parse_window_update_payload write_window_update_payload
parse_window_update-write n p e = (
  rw (write_u32_lem [] (bit_and n 0x7fffffff), bit_and_mask 31 n)
      (ground (
        arith,
        read_u32_lem (n % 2 ^ 31 / 16777216 % 256) (n % 2 ^ 31 / 65536 % 256)
            (n % 2 ^ 31 / 256 % 256) (n % 2 ^ 31 % 256) [],
        bit_and_mask 31 (n % 2 ^ 31),
      )),
  ground arith,
)

-- An error code of 32 bits is read back whole; any payload but one of four bytes is refused.
pub parse_rst_stream-write :
    (n : ℕ) (p : Bytes)
    → n < 2 ^ 32
    → length p ≢ 4
    → (parse_rst_stream_payload (write_rst_stream_payload [] n) ≡ some n)
      × (parse_rst_stream_payload p ≡ none)
unfolding parse_rst_stream_payload write_rst_stream_payload
parse_rst_stream-write n p h e = (
  rw (write_u32_lem [] n) (
      ground
        (arith, read_u32_lem (n / 16777216 % 256) (n / 65536 % 256) (n / 256 % 256) (n % 256) [])),
  ground arith,
)

-- A GOAWAY payload is the last stream id cut to 31 bits, the error code, which fits 32 bits,
-- and the debug data.
pub read-write_goaway :
    (last error : ℕ) (debug : Bytes)
    → error < 2 ^ 32
    → let p = write_goaway_payload [] last error debug in
      (read_u32 p ≡ some (last % 2 ^ 31)) × (read_u32 (drop 4 p) ≡ some error) × (drop 8 p ≡ debug)
unfolding write_goaway_payload
read-write_goaway last error debug h =
    let l : ℕ = last % 2 ^ 31 in
    let tail : Bytes =
      error / 16777216 % 256 ∷ error / 65536 % 256 ∷ error / 256 % 256 ∷ error % 256 ∷ debug in
    rw
      (
        write_u32_lem (write_u32 [] (bit_and last 0x7fffffff)) error,
        write_u32_lem [] (bit_and last 0x7fffffff),
        bit_and_mask 31 last,
      )
      (ground (
        arith,
        read_u32_lem (l / 16777216 % 256) (l / 65536 % 256) (l / 256 % 256) (l % 256) tail,
        read_u32_lem (error / 16777216 % 256) (error / 65536 % 256) (error / 256 % 256)
            (error % 256) debug,
      ))
