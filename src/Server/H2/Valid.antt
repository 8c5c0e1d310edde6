-- ===== src/Server/H2/Valid.antt =====
-- What every state of the connection keeps, whatever frames come.
pub mod Handlers
pub mod Frames
use libnhttp.Base.{
  ℕ, ◌≤◌, ◌<◌, ◌≡◌, refl, sym, ◌∙◌, List, [], ◌∷◌, ◌++◌, arith, All, ◌==◌, ==_iff, Bool-cases, inl,
  inr, Option, some, none, length, codes,
}
use libnhttp.Base.Text.{
  bytes_eq, bytes_lt, bytes_eq_refl, eq-of_bytes_eq, bytes_eq_iff, bytes_lt_irrefl, bytes_lt_trans,
  bytes_lt_total,
}
use mathlib.Core.Path.{subst}
use mathlib.Core.Option.{some-injective}
use libnhttp.Http2.Frame.{
  FrameHeader, SettingsParam, Content, strip_padding, parse_settings_payload,
  parse_window_update_payload,
}
use libnhttp.Http2.Hpack.Tables.{HeaderField}
use libnhttp.Server.H2.{
  H2Stream, new_stream, ConnectionH2, find_stream, put_stream, erase_stream, has_flag, Outcome,
  go_on, close, send_frame, dispatch_stream, finish_dispatch,
}
use libnhttp.Server.H2.Headers.{
  is_pseudo, add_field, add_fields, headers_read, finish_header_block, block_of, open_stream,
  opened, handle_headers, continued, handle_continuation,
}
use libnhttp.Server.H2.Windows.{
  wakes, clear_woken, apply_settings, settings_parsed, handle_settings, handle_ping, widen_stream,
  window_updated, handle_window_update, take_data, data_stripped, data_for, handle_data,
}
use libnhttp.Server.H2.Loop.{checked, on_frame, read_frame, run_loop, run}

-- A stream under its own id, which is not 0 and not above the highest, with a body in the limit.
abbrev pub Fits : ℕ → ℕ → ℕ × H2Stream → Type 0
Fits highest limit (k, s) = (s.id ≡ k) × (0 < k) × (k ≤ highest) × (length s.body_buffer ≤ limit)

-- Every stream fits, and so does the body of every request that was dispatched.
pub record IsValid {D : Type 0} (c : ConnectionH2 D) : Type 0 where
  pub streams_fit : All (Fits c.highest_stream_id c.max_request_body_size) c.streams
  pub dispatched_fit :
      All (λ (s : H2Stream). length s.body_buffer ≤ c.max_request_body_size) c.dispatched

pub find_stream-Fits :
    (h m i : ℕ) (s : H2Stream) (streams : List (ℕ × H2Stream))
    → All (Fits h m) streams
    → find_stream i streams ≡ some s
    → Fits h m (i, s)
unfolding find_stream
find_stream-Fits h m i s [] all found = cc
find_stream-Fits h m i s ((k, t) ∷ streams) all found = elim (Bool-cases (k == i)) [
  | inl same ↦
      let key : k ≡ i = (==_iff k i).0 same in
      let first : t ≡ s = some-injective t s (rw same at found) in
      subst (λ (x : H2Stream). Fits h m (i, x)) first (subst (λ (j : ℕ). Fits h m (j, t)) key all.0)
  | inr other ↦ find_stream-Fits h m i s streams all.1 (rw other at found)
]

pub put_stream-Fits :
    (h m i : ℕ) (s : H2Stream) (streams : List (ℕ × H2Stream))
    → All (Fits h m) streams
    → Fits h m (i, s)
    → All (Fits h m) (put_stream i s streams)
unfolding put_stream
put_stream-Fits h m i s [] all fit = (fit, tt)
put_stream-Fits h m i s ((k, t) ∷ streams) all fit =
    let rest = put_stream-Fits h m i s streams all.1 fit in
    elim (Bool-cases (k == i)) [
      | inl same ↦
          let key : i ≡ k = sym ((==_iff k i).0 same) in
          rw same (subst (λ (j : ℕ). Fits h m (j, s)) key fit, all.1)
      | inr other ↦ rw other (all.0, rest)
    ]

pub erase_stream-Fits :
    (h m i : ℕ) (streams : List (ℕ × H2Stream))
    → All (Fits h m) streams
    → All (Fits h m) (erase_stream i streams)
unfolding erase_stream
erase_stream-Fits h m i [] all = tt
erase_stream-Fits h m i ((k, t) ∷ streams) all =
    let rest = erase_stream-Fits h m i streams all.1 in
    elim (Bool-cases (k == i)) [ inl same ↦ rw same rest | inr other ↦ rw other (all.0, rest) ]

pub clear_woken-Fits :
    (h m : ℕ) (streams : List (ℕ × H2Stream))
    → All (Fits h m) streams
    → All (Fits h m) (clear_woken streams)
clear_woken-Fits h m [] all = tt
clear_woken-Fits h m ((k, t) ∷ streams) all =
    let rest = clear_woken-Fits h m streams all.1 in
    elim (Bool-cases (wakes t)) [
      | inl same ↦ rw same (all.0, rest)
      | inr other ↦ rw other (all.0, rest)
    ]

pub Fits-higher :
    (h g m : ℕ) (streams : List (ℕ × H2Stream))
    → h ≤ g
    → All (Fits h m) streams
    → All (Fits g m) streams
Fits-higher h g m [] le all = tt
Fits-higher h g m ((k, t) ∷ streams) le all =
    ((all.0.0, all.0.1, omega (arith, all.0.2), all.0.3), Fits-higher h g m streams le all.1)

pub All-last :
    (P : H2Stream → Type 0) (xs : List H2Stream) (s : H2Stream)
    → All P xs
    → P s
    → All P (xs ++ s ∷ [])
All-last P [] s all p = (p, tt)
All-last P (x ∷ xs) s all p = (all.0, All-last P xs s all.1 p)

-- Reading a header block leaves the id and the body.
add_field_kept :
    (f : HeaderField) (s : H2Stream)
    → ((add_field f s).id ≡ s.id) × ((add_field f s).body_buffer ≡ s.body_buffer)
unfolding add_field
add_field_kept f s = elim (Bool-cases (bytes_eq f.name (codes ":method"))) [
  | inl m ↦ rw m (refl, refl)
  | inr no_m ↦ elim (Bool-cases (bytes_eq f.name (codes ":authority"))) [
    | inl a ↦ rw (no_m, a) (refl, refl)
    | inr no_a ↦ elim (Bool-cases (bytes_eq f.name (codes ":path"))) [
      | inl p ↦ rw (no_m, no_a, p) (refl, refl)
      | inr no_p ↦ elim (Bool-cases (is_pseudo f.name)) [
        | inl q ↦ rw (no_m, no_a, no_p, q) (refl, refl)
        | inr no_q ↦ rw (no_m, no_a, no_p, no_q) (refl, refl)
      ]
    ]
  ]
]

add_fields_kept :
    (fields : List HeaderField) (s : H2Stream)
    → ((add_fields fields s).id ≡ s.id) × ((add_fields fields s).body_buffer ≡ s.body_buffer)
add_fields_kept [] s = (refl, refl)
add_fields_kept (f ∷ fields) s =
    let (first_id, first_body) = add_field_kept f s in
    let (rest_id, rest_body) = add_fields_kept fields (add_field f s) in
    (rest_id ∙ first_id, rest_body ∙ first_body)

pub headers_read_kept :
    (r : Option (List HeaderField)) (s : H2Stream)
    → ((headers_read r s).id ≡ s.id) × ((headers_read r s).body_buffer ≡ s.body_buffer)
headers_read_kept none s = (refl, refl)
headers_read_kept (some fields) s = add_fields_kept fields s
