-- ===== src/Ws/Connection/Closing.antt =====
-- Closing a connection.
use libnhttp.Base.{ℕ, ◌≡◌, refl, ap, ◌∷◌, bit_and, Bytes, Bool, true, false, if◌then◌else◌, ◌>>>◌}
use libnhttp.Ws.Connection.{Connection, write_frame, close}

close_again : (l : ℕ) (s : Bytes) (c : Connection) → c.closed ≡ true → close l s c ≡ c
unfolding close
close_again l s c e =
    ap
      (λ (b : Bool).
        if b
        then c
        else record (write_frame true 0x8 (bit_and (l >>> 8) 0xff ∷ bit_and l 0xff ∷ s) c) {
          closed = true;
        })
      e

closed-close : (k : ℕ) (r : Bytes) (c : Connection) → (close k r c).closed ≡ true
unfolding close
closed-close k r c = go c.closed refl
  where
    go :
        (b : Bool)
        → c.closed ≡ b
        → (if b
            then c
            else record (write_frame true 0x8 (bit_and (k >>> 8) 0xff ∷ bit_and k 0xff ∷ r) c) {
              closed = true;
            }).closed
          ≡ true
    go true e = e
    go false e = refl

-- A second close changes nothing and sends nothing, whatever the codes and the reasons of the
-- two are.
pub close_twice : (k l : ℕ) (r s : Bytes) (c : Connection) → close l s (close k r c) ≡ close k r c
close_twice k l r s c = close_again l s (close k r c) (closed-close k r c)
