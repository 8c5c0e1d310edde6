-- ===== src/Ws/Receive/Progress.antt =====
-- `receive` returns on every input: each round of its loop that goes on has read a frame.
use libnhttp.Base.{
  ℕ, zero, suc, ◌<◌, ◌≡◌, ◌≢◌, ◌⊎◌, refl, sym, ap, ◌∙◌, [], ◌++◌, arith, Bytes, ◌==◌, Bool, true,
  false, ◌||◌, Bool-cases, inl, inr, Option, some, none, length, if◌then◌else◌,
}
use libnhttp.Ws.Connection.{Connection, RawFrame, read_frame, write_frame}
use libnhttp.Ws.Connection.Feed.{available}
use libnhttp.Ws.Connection.Steady.{read_frame_cases}
use libnhttp.Ws.Receive.{
  Message, Outcome, finish, on_continuation, on_frame, receive_step, receive_loop, receive,
}

-- The connection with which the loop goes on, and `c` where it returns.
next : Connection → Outcome → Connection
next c (Outcome.returned m c') = c
next c (Outcome.again a op c') = c'

available-finish :
    (fin : Bool) (a : Bytes) (op : ℕ) (c : Connection)
    → available (next c (finish fin a op c)) ≡ available c
unfolding next finish
available-finish true a op c = refl
available-finish false a op c = refl

available-on_continuation :
    (op : Option ℕ) (f : RawFrame) (a : Bytes) (c : Connection)
    → available (next c (on_continuation op f a c)) ≡ available c
unfolding next on_continuation
available-on_continuation none f a c = refl
available-on_continuation (some op) f a c = available-finish f.fin (a ++ f.payload) op c

available-write_frame :
    (fin : Bool) (op : ℕ) (s : Bytes) (c : Connection)
    → available (write_frame fin op s c) ≡ available c
unfolding write_frame
available-write_frame fin op s c = refl

-- Handling a frame takes nothing more off the wire.
available-on_frame :
    (a : Bytes) (op : Option ℕ) (f : RawFrame) (c : Connection)
    → available (next c (on_frame a op (some f, c))) ≡ available c
unfolding next on_frame
available-on_frame a op f c = elim (Bool-cases (f.opcode == 0x8)) [
  | inl closing ↦ rw closing
  | inr e8 ↦ elim (Bool-cases (f.opcode == 0x9)) [
    | inl ping ↦ rw (e8, ping) (available-write_frame true 0xA f.payload c)
    | inr e9 ↦ elim (Bool-cases (f.opcode == 0xA)) [
      | inl pong ↦ rw (e8, e9, pong)
      | inr e10 ↦ elim (Bool-cases (f.opcode == 0x0)) [
        | inl continued ↦ rw (e8, e9, e10, continued) (available-on_continuation op f a c)
        | inr e0 ↦ elim (Bool-cases ((f.opcode == 0x1) || (f.opcode == 0x2))) [
          | inl fresh ↦ rw (e8, e9, e10, e0, fresh) (available-finish f.fin f.payload f.opcode c)
          | inr other ↦ rw (e8, e9, e10, e0, other)
        ]
      ]
    ]
  ]
]

on_frame-again :
    (a a' : Bytes) (op op' : Option ℕ) (r : Option RawFrame × Connection) (c : Connection)
    → on_frame a op r ≡ Outcome.again a' op' c
    → available c ≡ available r.1
unfolding on_frame next
on_frame-again a a' op op' (none, c1) c e = absurd (cc)
on_frame-again a a' op op' (some f, c1) c e =
    ap (λ o. available (next c1 o)) (sym e) ∙ available-on_frame a op f c1

receive_step_closed :
    (a : Bytes) (op : Option ℕ) (c : Connection)
    → c.closed ≡ true
    → receive_step a op c ≡ Outcome.returned none c
unfolding receive_step
receive_step_closed a op c e =
    ap (λ (b : Bool). if b then Outcome.returned none c else on_frame a op (read_frame c)) e

receive_step_running :
    (a : Bytes) (op : Option ℕ) (c : Connection)
    → c.closed ≡ false
    → receive_step a op c ≡ on_frame a op (read_frame c)
unfolding receive_step
receive_step_running a op c e =
    ap (λ (b : Bool). if b then Outcome.returned none c else on_frame a op (read_frame c)) e

on_frame-none :
    (a : Bytes) (op : Option ℕ) (c : Connection)
    → on_frame a op (none, c) ≡ Outcome.returned none (record c { closed = true })
unfolding on_frame
on_frame-none a op c = refl

returned-again :
    (m : Option Message) (c c' : Connection) (a : Bytes) (op : Option ℕ)
    → Outcome.returned m c ≢ Outcome.again a op c'
returned-again m c c' a op e = cc

receive_step-again :
    (a a' : Bytes) (op op' : Option ℕ) (c c' : Connection)
    → receive_step a op c ≡ Outcome.again a' op' c'
    → length (available c') < length (available c)
receive_step-again a a' op op' c c' e = elim (Bool-cases c.closed) [
  | inl closed ↦
      absurd (returned-again none c c' a' op' (sym (receive_step_closed a op c closed) ∙ e))
  | inr running ↦
      let went : on_frame a op (read_frame c) ≡ Outcome.again a' op' c' =
        sym (receive_step_running a op c running) ∙ e in
      elim (read_frame_cases c) [
        | inl (c1, failed) ↦ absurd (
            returned-again none _ c' a' op'
              (sym (ap (on_frame a op) failed ∙ on_frame-none a op c1) ∙ went))
        | inr (closed, taken) ↦
            omega (arith, taken, ap length (on_frame-again a a' op op' (read_frame c) c' went))
      ]
]

Outcome-cases :
    (o : Outcome)
    → ((m : Option Message) × (c : Connection) × (o ≡ Outcome.returned m c))
      ⊎ ((a : Bytes) × (op : Option ℕ) × (c : Connection) × (o ≡ Outcome.again a op c))
Outcome-cases (Outcome.returned m c) = inl (m, c, refl)
Outcome-cases (Outcome.again a op c) = inr (a, op, c, refl)

receive_loop-total :
    (fuel : ℕ) (a : Bytes) (op : Option ℕ) (c : Connection)
    → length (available c) < fuel
    → (r : Option Message × Connection) × (receive_loop fuel a op c ≡ some r)
unfolding receive_loop
receive_loop-total zero a op c h = elim h [ ]
receive_loop-total (suc fuel) a op c h = elim (Outcome-cases (receive_step a op c)) [
  | inl (m, c', e) ↦ ((m, c'), rw (receive_loop, e))
  | inr (a', op', c', e) ↦
      let (r, runs) =
        receive_loop-total fuel a' op' c' (omega (arith, receive_step-again a a' op op' c c' e)) in
      (r, rw (receive_loop, e) runs)
]

-- `receive` gives a message or none on every finite input, whatever the peer sends: its loop never
-- runs out of fuel.
pub receive-total : (c : Connection) → (r : Option Message × Connection) × (receive c ≡ some r)
unfolding receive
receive-total c = receive_loop-total (suc (length (available c))) [] none c (omega arith)
