-- ===== src/Ws/Connection/Steady.antt =====
-- Reading takes bytes off the wire and leaves the connection as open as it was.
use libnhttp.Base.{
  bit_and, not, take, get_or, ℕ, ◌+◌, ◌≤◌, ◌≡◌, ◌⊎◌, refl, sym, ap, ◌∙◌, arith, Bytes, ltb, ◌==◌,
  Bool, true, false, inl, inr, Option, some, none, length, length-drop, if◌then◌else◌, dec_le,
}
use libnhttp.Ws.Connection.{
  ◌>>=◌, Connection, Reading, RawFrame, continue, pure, read_exact, read_length, read_key,
  read_payload, read_frame,
}
use libnhttp.Ws.Connection.Feed.{available, read_exact_enough, read_exact_short, closed-read_exact}

-- No bytes appear, and the connection is not closed.
abbrev After : Connection → Connection → Type 0
After c c' = (c'.closed ≡ c.closed) × (length (available c') ≤ length (available c))

abbrev Steady : {A : Type 0} → Reading A → Type 0
Steady m = (c : Connection) → After c (m c).1

After-trans : (a b c : Connection) → After a b → After b c → After a c
After-trans a b c (ca, la) (cb, lb) = (cb ∙ ca, omega arith)

After-continue :
    {A B : Type 0} (r : Option A × Connection) (f : A → Reading B)
    → ((a : A) → Steady (f a))
    → After r.1 (continue r f).1
After-continue (none, c) f h = (refl, omega arith)
After-continue (some a, c) f h = h a c

Steady-bind :
    {A B : Type 0} (m : Reading A) (f : A → Reading B)
    → Steady m
    → ((a : A) → Steady (f a))
    → Steady (λ c. continue (m c) f)
Steady-bind m f h k =
    λ c. After-trans c (m c).1 (continue (m c) f).1 (h c) (After-continue (m c) f k)

Steady-if :
    {A : Type 0} (b : Bool) (m n : Reading A) → Steady m → Steady n → Steady (if b then m else n)
Steady-if true m n h k = h
Steady-if false m n h k = k

Steady-read_exact : (n : ℕ) → Steady (read_exact n)
Steady-read_exact n = λ c. (
  closed-read_exact n c,
  elim (dec_le n (length (available c))) [
    | yes enough ↦
        let (c', run, left) = read_exact_enough n c enough in
        omega
          (arith, ap (λ r. length (available r.1)) run, ap length left, length-drop n (available c))
    | no short ↦
        let (c', run, left, over) = read_exact_short n c (omega arith) in
        omega (arith, ap (λ r. length (available r.1)) run, ap length left)
  ],
)

Steady-read_length : (n : ℕ) → Steady (read_length n)
unfolding read_length
Steady-read_length n =
    Steady-if (n == 126) _ _
      (Steady-bind (read_exact 2) _ (Steady-read_exact 2) (λ ext c. (refl, omega arith)))
      (Steady-if (n == 127) _ _
        (Steady-bind (read_exact 8) _ (Steady-read_exact 8) (λ ext c. (refl, omega arith)))
        (λ c. (refl, omega arith)))

Steady-read_key : (masked : Bool) → Steady (read_key masked)
unfolding read_key
Steady-read_key masked = Steady-if masked _ _ (Steady-read_exact 4) (λ c. (refl, omega arith))

Steady-read_payload : (n : ℕ) (masked : Bool) (key : Bytes) → Steady (read_payload n masked key)
unfolding read_payload
Steady-read_payload n masked key =
    Steady-if (ltb 0 n) _ _
      (Steady-bind (read_exact n) _ (Steady-read_exact n) (λ payload c. (refl, omega arith)))
      (λ c. (refl, omega arith))

Steady-rest :
    (fin : Bool) (opcode l : ℕ) (masked : Bool)
    → Steady {A = RawFrame} (
        read_length l >>= λ n. read_key masked >>= λ key. read_payload n masked key >>= λ payload.
        pure (record { fin = fin; opcode = opcode; payload = payload }))
Steady-rest fin opcode l masked =
    let frame : Bytes → RawFrame =
      λ payload. record { fin = fin; opcode = opcode; payload = payload } in
    Steady-bind (read_length l) _ (Steady-read_length l) (λ n.
      Steady-bind (read_key masked) _ (Steady-read_key masked) (λ key.
        Steady-bind (read_payload n masked key) (λ payload. pure (frame payload))
          (Steady-read_payload n masked key) (λ payload c. (refl, omega arith))))

-- A frame takes two bytes at least.
pub read_frame_cases :
    (c : Connection)
    → ((c' : Connection) × (read_frame c ≡ (none, c')))
      ⊎ (((read_frame c).1.closed ≡ c.closed)
          × (2 + length (available (read_frame c).1) ≤ length (available c)))
unfolding read_frame
read_frame_cases c = elim (dec_le 2 (length (available c))) [
  | yes enough ↦
      let (c1, run, left) = read_exact_enough 2 c enough in
      let b0 : ℕ = get_or (take 2 (available c)) 0 0 in
      let b1 : ℕ = get_or (take 2 (available c)) 1 0 in
      let kept : After c1 (read_frame c).1 = rw run (
        Steady-rest (not (bit_and b0 0x80 == 0)) (bit_and b0 0x0f) (bit_and b1 0x7f)
          (not (bit_and b1 0x80 == 0)) c1) in
      let open_still : c1.closed ≡ c.closed =
        ap (λ r. r.1.closed) (sym run) ∙ closed-read_exact 2 c in
      inr (kept.0 ∙ open_still, omega (arith, kept.1, ap length left, length-drop 2 (available c)))
  | no short ↦ let (c1, run, rest, over) = read_exact_short 2 c (omega arith) in inl (c1, rw run)
]
