-- ===== src/Ws/Receive.antt =====
-- `ws_connection::receive` of src/ws/connection.cpp.
pub mod Progress
mod Runs
use libnhttp.Base.{
  ℕ, zero, suc, [], ◌++◌, Bytes, ◌==◌, Bool, true, ◌||◌, Option, some, none, length, if◌then◌else◌,
  codes,
}
use libnhttp.Ws.Connection.{Connection, RawFrame, read_frame, write_frame, close}
use libnhttp.Ws.Connection.Feed.{available}

pub data MessageType : Type 0 where
  text : MessageType
  binary : MessageType

pub record Message : Type 0 where
  pub type : MessageType
  pub payload : Bytes

-- A round of the loop returns, or goes on with `accumulated` and `message_opcode`.
pub data Outcome : Type 0 where
  returned : Option Message → Connection → Outcome
  again : Bytes → Option ℕ → Connection → Outcome

-- The end of the body, after a data frame.
finish : Bool → Bytes → ℕ → Connection → Outcome
finish fin accumulated op c =
    if fin
    then returned
        (some (record {
          type = if op == 0x1 then MessageType.text else MessageType.binary;
          payload = accumulated;
        }))
        c
    else again accumulated (some op) c

on_continuation : Option ℕ → RawFrame → Bytes → Connection → Outcome
unfolding finish
on_continuation none f accumulated c =
    returned none (close 1002 (codes "unexpected continuation frame") c)
on_continuation (some op) f accumulated c = finish f.fin (accumulated ++ f.payload) op c

on_frame : Bytes → Option ℕ → Option RawFrame × Connection → Outcome
unfolding finish on_continuation
on_frame accumulated op (none, c) = returned none (record c { closed = true })
on_frame accumulated op (some f, c) =
    if f.opcode == 0x8
    then returned none (record (write_frame true 0x8 f.payload c) { closed = true })
    else if f.opcode == 0x9
    then again accumulated op (write_frame true 0xA f.payload c)
    else if f.opcode == 0xA
    then again accumulated op c
    else if f.opcode == 0x0
    then on_continuation op f accumulated c
    else if (f.opcode == 0x1) || (f.opcode == 0x2)
    then finish f.fin f.payload f.opcode c
    else returned none (close 1002 (codes "unsupported opcode") c)

pub receive_step : Bytes → Option ℕ → Connection → Outcome
unfolding on_frame
receive_step accumulated op c =
    if c.closed then returned none c else on_frame accumulated op (read_frame c)

-- `none` would mean that the fuel ran out.
pub receive_loop : ℕ → Bytes → Option ℕ → Connection → Option (Option Message × Connection)
receive_loop zero accumulated op c = none
receive_loop (suc fuel) accumulated op c = elim (receive_step accumulated op c) [
  | returned m c' ↦ some (m, c')
  | again accumulated' op' c' ↦ receive_loop fuel accumulated' op' c'
]

-- Every round that goes on has taken a byte at least.
pub receive : Connection → Option (Option Message × Connection)
unfolding receive_loop
receive c = receive_loop (suc (length (available c))) [] none c
