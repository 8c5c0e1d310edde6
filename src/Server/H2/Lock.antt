-- ===== src/Server/H2/Lock.antt =====
-- `connection_h2::writer_lock` of src/server/connection_h2.cpp: who asked for the lock and who has
-- got it, in order. A coroutine is a number.
use libnhttp.Base.{
  ℕ, ◌≡◌, refl, sym, ap, ◌∙◌, List, [], ◌∷◌, ◌++◌, append_assoc, append-nil, Bool, true, false, not,
  Bool-cases, inl, inr, if◌then◌else◌,
}

pub record WriterLock : Type 0 where
  pub locked : Bool
  pub waiters : List ℕ
  pub asked : List ℕ
  pub granted : List ℕ

abbrev pub new_lock : WriterLock
new_lock = record { locked = false; waiters = []; asked = []; granted = [] }

-- `lock` and its `await_suspend`; a coroutine that is not suspended has the lock.
pub lock : ℕ → WriterLock → WriterLock
lock h l =
    if not l.locked
    then record l { locked = true; asked = l.asked ++ h ∷ []; granted = l.granted ++ h ∷ [] }
    else record l { waiters = l.waiters ++ h ∷ []; asked = l.asked ++ h ∷ [] }

abbrev pub hand_over : List ℕ → WriterLock → WriterLock
hand_over [] l = record l { locked = false }
hand_over (h ∷ hs) l = record l { waiters = hs; granted = l.granted ++ h ∷ [] }

pub unlock : WriterLock → WriterLock
unlock l = hand_over l.waiters l

-- What the coroutines do with the lock, one after the other.
pub data LockStep : WriterLock → WriterLock → Type 0 where
  asks : {l : WriterLock} (h : ℕ) → LockStep l (lock h l)
  releases : {l : WriterLock} → l.locked ≡ true → LockStep l (unlock l)

pub data Locked : WriterLock → Type 0 where
  start : Locked new_lock
  step : {l m : WriterLock} → Locked l → LockStep l m → Locked m

abbrev InOrder : WriterLock → Type 0
InOrder l = (l.granted ++ l.waiters ≡ l.asked) × (l.locked ≡ false → l.waiters ≡ [])

lock-InOrder : (h : ℕ) (l : WriterLock) → InOrder l → InOrder (lock h l)
unfolding lock
lock-InOrder h l o = elim (Bool-cases l.locked) [
  | inl taken ↦ rw taken (
    sym (append_assoc l.granted l.waiters (h ∷ [])) ∙ ap (λ (xs : List ℕ). xs ++ h ∷ []) o.0,
    (λ never. cc),
  )
  | inr free ↦
      let nobody : l.waiters ≡ [] = o.1 free in
      let all : l.granted ≡ l.asked =
        sym (append-nil l.granted) ∙ ap (λ (xs : List ℕ). l.granted ++ xs) (sym nobody) ∙ o.0 in
      rw (free, nobody)
        (append-nil (l.granted ++ h ∷ []) ∙ ap (λ (xs : List ℕ). xs ++ h ∷ []) all, (λ e. refl))
]

never : false ≡ true → ⊥
never e = cc

hand_over-InOrder :
    (hs : List ℕ) (l : WriterLock)
    → hs ≡ l.waiters
    → l.locked ≡ true
    → InOrder l
    → InOrder (hand_over hs l)
hand_over-InOrder [] l e taken o = (o.0, (λ free. sym e))
hand_over-InOrder (h ∷ hs) l e taken o = (
  append_assoc l.granted (h ∷ []) hs ∙ ap (λ (xs : List ℕ). l.granted ++ xs) e ∙ o.0,
  (λ free. absurd (never (sym free ∙ taken))),
)

unlock-InOrder : (l : WriterLock) → l.locked ≡ true → InOrder l → InOrder (unlock l)
unfolding unlock
unlock-InOrder l taken o = hand_over-InOrder l.waiters l refl taken o

-- In every state that is reached by asking and releasing, the lock was granted in the order in which
-- it was asked for: those that have got it, then those that wait, are those that asked. Nobody
-- waits while it is free.
pub locked-InOrder :
    (l : WriterLock)
    → Locked l
    → (l.granted ++ l.waiters ≡ l.asked) × (l.locked ≡ false → l.waiters ≡ [])
locked-InOrder l start = (refl, (λ e. refl))
locked-InOrder l (step {l = k} reached (asks h)) = lock-InOrder h k (locked-InOrder k reached)
locked-InOrder l (step {l = k} reached (releases taken)) =
    unlock-InOrder k taken (locked-InOrder k reached)
