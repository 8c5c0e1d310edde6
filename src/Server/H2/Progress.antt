-- ===== src/Server/H2/Progress.antt =====
-- The frame loop ends.
use libnhttp.Base.{
  [], ℕ, zero, suc, ◌+◌, ◌≤◌, ◌<◌, ◌≡◌, ◌⊎◌, refl, ap, List, arith, Bytes, ltb, false, Bool-cases,
  Option-cases, inl, inr, Option, some, none, >>=-eq-some, length, length-drop, take, drop,
  if◌then◌else◌,
}
use mathlib.Core.Path.{subst}
use mathlib.Core.Option.{some-injective, none-ne-some}
use libnhttp.Http2.Frame.{FrameHeader, parse}
use libnhttp.Http2.Hpack.Tables.{HeaderField}
use libnhttp.Server.H2.{send_frame, ConnectionH2, Outcome, go_on, close}
use libnhttp.Base.Text.{bytes_eq}
use libnhttp.Server.H2.Valid.{IsValid}
use libnhttp.Server.H2.Valid.Frames.{after, on_frame-IsValid}
use libnhttp.Server.H2.Loop.{run, client_preface, on_frame, read_exact, read_frame, run_loop}

not_short : {m n : ℕ} → ltb m n ≡ false → n ≤ m
not_short h = ground arith

read_exact-shorter :
    (n : ℕ) (wire : Bytes) (r : Bytes × Bytes)
    → read_exact n wire ≡ some r
    → length r.1 + n ≤ length wire
unfolding read_exact
read_exact-shorter n wire r h = elim (Bool-cases (ltb (length wire) n)) [
  | inl short ↦ absurd (none-ne-some r (rw (short, read_exact) at h))
  | inr enough ↦
      let split : (take n wire, drop n wire) ≡ r = some-injective _ r (rw enough at h) in
      subst (λ (q : Bytes × Bytes). length q.1 + n ≤ length wire) split
        (omega (arith, length-drop n wire, not_short enough))
]

capped-shorter :
    (n : ℕ) (wire : Bytes) (r : Bytes × Bytes)
    → (if ltb 16777216 n then none else read_exact n wire) ≡ some r
    → length r.1 ≤ length wire
capped-shorter n wire r h = elim (Bool-cases (ltb 16777216 n)) [
  | inl large ↦ absurd (none-ne-some r (rw large at h))
  | inr fits ↦ omega (arith, read_exact-shorter n wire r (rw fits at h))
]

-- A frame takes nine bytes at least.
read_frame-shorter :
    (wire payload rest : Bytes) (fh : FrameHeader)
    → read_frame wire ≡ some (fh, payload, rest)
    → length rest < length wire
unfolding read_frame
read_frame-shorter wire payload rest fh h =
    let (head, first, then_head) = >>=-eq-some (read_exact 9 wire) _ h in
    let (f, parsed, then_parsed) = >>=-eq-some (parse head.0) _ then_head in
    let (body, read, last) =
      >>=-eq-some
        (if ltb 16777216 f.payload_length then none else read_exact f.payload_length head.1) _
        then_parsed in
    let same : length body.1 ≡ length rest =
      ap (λ (t : FrameHeader × Bytes × Bytes). length t.2) (some-injective _ _ last) in
    omega (
      arith,
      same,
      read_exact-shorter 9 wire head first,
      capped-shorter f.payload_length head.1 body read,
    )

Outcome-cases :
    {D : Type 0} (o : Outcome D)
    → ((d : ConnectionH2 D) × (o ≡ go_on d)) ⊎ ((d : ConnectionH2 D) × (o ≡ close d))
Outcome-cases (go_on d) = inl (d, refl)
Outcome-cases (close d) = inr (d, refl)

module _ {D : Type 0} (decode : D → Bytes → Option (List HeaderField) × D) where
  run_loop-total :
      (n : ℕ) (wire : Bytes) (c : ConnectionH2 D)
      → length wire < n
      → IsValid c
      → (d : ConnectionH2 D) × (run_loop decode n wire c ≡ some d) × IsValid d
  unfolding run_loop
  run_loop-total zero wire c h v = absurd (omega arith)
  run_loop-total (suc n) wire c h v = elim (Option-cases (read_frame wire)) [
    | inl ended ↦ (c, rw (ended, run_loop) refl, v)
    | inr ((fh, payload, rest), found) ↦
        let shorter = read_frame-shorter wire payload rest fh found in
        let kept : IsValid (after (on_frame decode fh payload c)) =
          on_frame-IsValid decode fh payload c v in
        elim (Outcome-cases (on_frame decode fh payload c)) [
          | inl (d, on) ↦
              let (e, done, w) =
                run_loop-total n rest d (omega arith)
                  (subst (λ (o : Outcome D). IsValid (after o)) on kept) in
              (e, rw (found, on, run_loop) done, w)
          | inr (d, off) ↦ (
            d,
            rw (found, off, run_loop) refl,
            subst (λ (o : Outcome D). IsValid (after o)) off kept,
          )
        ]
  ]

  -- Whatever bytes the peer sends before the end of the wire, `run` returns, and leaves a state where
  -- every stream stands under its own id, which is not 0 and not above the highest, and no body of a
  -- stream or of a request that was dispatched is above the limit, if it started in such a state.
  pub run-IsValid :
      (wire : Bytes) (c : ConnectionH2 D)
      → IsValid c
      → (d : ConnectionH2 D) × (run decode wire c ≡ some d) × IsValid d
  unfolding run
  run-IsValid wire c v = elim (Option-cases (read_exact (length client_preface) wire)) [
    | inl ended ↦ (c, rw (run, ended) refl, v)
    | inr ((preface, rest), found) ↦ elim (Bool-cases (bytes_eq preface client_preface)) [
      | inl same ↦
          let greeted = send_frame 0x4 0 0 [] c in
          let (d, done, w) =
            run_loop-total (suc (length rest)) rest greeted (omega arith)
              (record { streams_fit = v.streams_fit; dispatched_fit = v.dispatched_fit }) in
          (d, rw (run, found, same) done, w)
      | inr other ↦ (c, rw (run, found, other) refl, v)
    ]
  ]
