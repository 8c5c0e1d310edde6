-- ===== src/Ws/Connection/RoundTrip.antt =====
-- `read_frame` reads the frames of a client, masked, and the frames that `write_frame` writes.
use libnhttp.Base.{
  ℕ, suc, ◌+◌, ◌^◌, ◌<◌, ◌≡◌, refl, sym, ap, ◌∙◌, [], ◌∷◌, ◌++◌, arith, append_assoc, append-nil,
  u8, bit_and, Bytes, IsByte, All, leb, ltb, ◌==◌, Bool, true, false, not, Bool-cases, inl, inr,
  some, length, drop, drop-length_append, if◌then◌else◌,
}
use libnhttp.Ws.Connection.{
  Connection, pure, ◌>>=◌, RawFrame, read_exact, read_length, read_key, unmask, read_payload,
  read_frame, frame_header, write_frame,
}
use libnhttp.Ws.Connection.Masking.{
  opened, mask, flag, flag-top, flag-low, flag-opcode, flag-or, short_length-lt, sealed, key_bytes,
  wire_frame, opened-sealed, length-sealed,
}
use libnhttp.Ws.Connection.Feed.{available}
use libnhttp.Ws.Connection.Lengths.{
  Reads, Reads-pure, Reads-bind, Reads-read_exact, Reads-read_length, short_length, extension,
}

Reads-sealed :
    (masked : Bool) (key body : Bytes)
    → length key ≡ 4
    → All IsByte key
    → All IsByte body
    → Reads
        (read_exact (length body) >>= λ payload. pure (opened masked key payload))
        (sealed masked key body)
        body
Reads-sealed masked key body e h k =
    let s : Bytes = sealed masked key body in
    let size : length s ≡ length body = length-sealed masked key body in
    let first : Reads (read_exact (length body)) s s = rw size at (Reads-read_exact s) in
    let last : Reads (pure (opened masked key s)) [] body =
      rw (opened-sealed masked key body e h k) (Reads-pure body) in
    rw (append-nil s) at (
      Reads-bind (read_exact (length body)) (λ payload. pure (opened masked key payload)) s [] s
        body first last)

Reads-read_payload :
    (masked : Bool) (key body : Bytes)
    → length key ≡ 4
    → All IsByte key
    → All IsByte body
    → Reads (read_payload (length body) masked key) (sealed masked key body) body
unfolding read_payload unmask mask
Reads-read_payload true [] [] e h k = Reads-pure []
Reads-read_payload true (a ∷ key) [] e h k = Reads-pure []
Reads-read_payload false key [] e h k = Reads-pure []
Reads-read_payload masked key (b ∷ bs) e h k =
    let some_bytes : ltb 0 (suc (length bs)) ≡ true = ground arith in
    rw some_bytes (Reads-sealed masked key (b ∷ bs) e h k)

-- The key that the reader works with.
abbrev used_key : Bool → Bytes → Bytes
used_key masked key = if masked then key else 0 ∷ 0 ∷ 0 ∷ 0 ∷ []

Reads-read_key :
    (masked : Bool) (key : Bytes)
    → length key ≡ 4
    → Reads (read_key masked) (key_bytes masked key) (used_key masked key)
unfolding read_key
Reads-read_key true key h = rw h at (Reads-read_exact key)
Reads-read_key false key h = Reads-pure (0 ∷ 0 ∷ 0 ∷ 0 ∷ [])

sealed-used_key :
    (masked : Bool) (key body : Bytes)
    → sealed masked (used_key masked key) body ≡ sealed masked key body
sealed-used_key true key body = refl
sealed-used_key false key body = refl

length-used_key : (masked : Bool) (key : Bytes) → length key ≡ 4 → length (used_key masked key) ≡ 4
length-used_key true key h = h
length-used_key false key h = refl

used_key-IsByte : (masked : Bool) (key : Bytes) → All IsByte key → All IsByte (used_key masked key)
used_key-IsByte true key h = h
used_key-IsByte false key h = omega arith

-- `read_frame` behind its first two bytes.
Reads-rest :
    (fin : Bool) (opcode : ℕ) (masked : Bool) (key body : Bytes)
    → length key ≡ 4
    → All IsByte key
    → All IsByte body
    → length body < 2 ^ 64
    → Reads {A = RawFrame}
        (read_length (short_length (length body)) >>= λ n. read_key masked >>= λ k.
          read_payload n masked k >>= λ payload.
          pure (record { fin = fin; opcode = opcode; payload = payload }))
        (extension (length body) ++ (key_bytes masked key ++ sealed masked key body))
        (record { fin = fin; opcode = opcode; payload = body })
Reads-rest fin opcode masked key body four keys bytes fits =
    let n : ℕ = length body in
    let k : Bytes = used_key masked key in
    let frame : Bytes → RawFrame =
      λ payload. record { fin = fin; opcode = opcode; payload = payload } in
    let s : Bytes = sealed masked key body in
    let whole : Reads (read_payload n masked k) s body = rw (sealed-used_key masked key body) at (
      Reads-read_payload masked k body (length-used_key masked key four)
        (used_key-IsByte masked key keys) bytes) in
    let last : Reads (read_payload n masked k >>= λ payload. pure (frame payload)) s (frame body) =
      rw (append-nil s) at (
        Reads-bind (read_payload n masked k) (λ payload. pure (frame payload)) s [] body
          (frame body) whole (Reads-pure (frame body))) in
    Reads-bind (read_length (short_length n)) _ (extension n) _ n (frame body)
      (Reads-read_length n fits)
      (Reads-bind (read_key masked) _ (key_bytes masked key) s k (frame body)
        (Reads-read_key masked key four) last)

Reads-frame :
    (fin : Bool) (opcode : ℕ) (masked : Bool) (key body : Bytes)
    → opcode < 16
    → length key ≡ 4
    → All IsByte key
    → All IsByte body
    → length body < 2 ^ 64
    → Reads read_frame
        (wire_frame fin opcode masked key body)
        (record { fin = fin; opcode = opcode; payload = body })
unfolding read_frame
Reads-frame fin opcode masked key body small four keys bytes fits =
    let n : ℕ = length body in
    let frame : RawFrame = record { fin = fin; opcode = opcode; payload = body } in
    let b0 : ℕ = flag fin + opcode in
    let b1 : ℕ = flag masked + short_length n in
    let low : bit_and b1 0x7f ≡ short_length n =
      flag-low masked (short_length n) (short_length-lt n) in
    let top : not (bit_and b1 0x80 == 0) ≡ masked =
      flag-top masked (short_length n) (short_length-lt n) in
    let fin' : not (bit_and b0 0x80 == 0) ≡ fin = flag-top fin opcode (omega arith) in
    let code' : bit_and b0 0x0f ≡ opcode = flag-opcode fin opcode small in
    Reads-bind (read_exact 2) _ (b0 ∷ b1 ∷ []) _ (b0 ∷ b1 ∷ []) frame
      (Reads-read_exact (b0 ∷ b1 ∷ []))
      (rw (low, top, fin', code') (Reads-rest fin opcode masked key body four keys bytes fits))

-- A frame that a client has masked, with an opcode of four bits, a key of four bytes and fewer
-- than 2 ^ 64 bytes of contents, is read as its contents, whatever reads of the wire bring it,
-- and the bytes behind it stay.
pub read_frame-masked :
    (fin : Bool) (opcode : ℕ) (key body rest : Bytes) (c : Connection)
    → opcode < 16
    → length key ≡ 4
    → All IsByte key
    → All IsByte body
    → length body < 2 ^ 64
    → available c ≡ wire_frame fin opcode true key body ++ rest
    → (c' : Connection) × (read_frame c
        ≡ (some (record { fin = fin; opcode = opcode; payload = body }), c'))
      × (available c' ≡ rest)
read_frame-masked fin opcode key body rest c small four keys bytes fits e =
    Reads-frame fin opcode true key body small four keys bytes fits rest c e

frame_header_lem :
    (fin : Bool) (opcode n : ℕ)
    → opcode < 16
    → frame_header fin opcode n ≡ (flag fin + opcode) ∷ (short_length n) ∷ extension n
unfolding frame_header extension
frame_header_lem fin opcode n h = rw (flag-or fin opcode h) (elim (Bool-cases (leb n 125)) [
  | inl low ↦ let byte : u8 n ≡ n = ground arith in rw (low, byte)
  | inr high ↦ elim (Bool-cases (leb n 0xffff)) [
    | inl low ↦ rw (high, low)
    | inr higher ↦ rw (high, higher)
  ]
])

sent-write_frame :
    (fin : Bool) (opcode : ℕ) (body : Bytes) (writer : Connection)
    → (write_frame fin opcode body writer).sent
      ≡ (writer.sent ++ frame_header fin opcode (length body)) ++ body
unfolding write_frame
sent-write_frame fin opcode body writer = refl

-- What `write_frame` appends to the wire, for an opcode of four bits and fewer than 2 ^ 64
-- bytes, is read as the same frame by a connection that it reaches, whatever reads of the wire
-- bring it, and the bytes behind it stay.
pub read_frame-write_frame :
    (fin : Bool) (opcode : ℕ) (body rest : Bytes) (writer reader : Connection)
    → opcode < 16
    → All IsByte body
    → length body < 2 ^ 64
    → available reader ≡ drop (length writer.sent) (write_frame fin opcode body writer).sent ++ rest
    → (c' : Connection) × (read_frame reader
        ≡ (some (record { fin = fin; opcode = opcode; payload = body }), c'))
      × (available c' ≡ rest)
read_frame-write_frame fin opcode body rest writer reader small bytes fits e =
    let written : Bytes = frame_header fin opcode (length body) ++ body in
    let zeros : Bytes = 0 ∷ 0 ∷ 0 ∷ 0 ∷ [] in
    let short : flag false + short_length (length body) ≡ short_length (length body) =
      omega arith in
    let header = frame_header_lem fin opcode (length body) small in
    let appended : written ≡ wire_frame fin opcode false zeros body =
      ap (λ h. h ++ body) header
      ∙ ap (λ (b : ℕ). (flag fin + opcode) ∷ b ∷ (extension (length body) ++ body)) (sym short) in
    let whole : (write_frame fin opcode body writer).sent ≡ writer.sent ++ written =
      sent-write_frame fin opcode body writer
      ∙ append_assoc writer.sent (frame_header fin opcode (length body)) body in
    Reads-frame fin opcode false zeros body small refl (omega arith) bytes fits rest reader (
      e
      ∙ ap (λ bytes. drop (length writer.sent) bytes ++ rest) whole
      ∙ ap (λ bytes. bytes ++ rest) (drop-length_append writer.sent written)
      ∙ ap (λ bytes. bytes ++ rest) appended)
