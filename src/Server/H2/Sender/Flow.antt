-- ===== src/Server/H2/Sender/Flow.antt =====
-- Flow control: what is sent stays within what the peer granted, and the frames carry the body.
use libnhttp.Base.{
  ap₂, ℕ, ◌+◌, ◌-◌, ◌≤◌, ◌<◌, ◌≡◌, ◌≢◌, refl, sym, ap, ◌∙◌, List, [], ◌∷◌, ◌++◌, arith,
  append_assoc, append-nil, Bytes, Bool, true, false, not, ◌||◌, length, length-append, length-take,
  take, drop, take-append-drop, min,
}
use mathlib.Core.Path.{subst}
use libnhttp.Base.Int.{
  pos-nonneg, ℤ, pos, negsuc, pos_part, ◌+ℤ◌, ◌-ℤ◌, ltb_ℤ, min_ℤ-pos, +ℤ-pos, -ℤ-pos,
}
use libnhttp.Base.{eq-of_some, ◌⊎◌, inl, inr, Option, some, none}
use mathlib.Core.Option.{none-ne-some}
use libnhttp.Server.H2.Sender.{Sender, is_blocked, allowed, start_frame, end_frame, flat}

flat-last : (fs : List Bytes) (f : Bytes) → flat (fs ++ f ∷ []) ≡ flat fs ++ f
flat-last [] f = append-nil f
flat-last (g ∷ fs) f =
    ap (λ (xs : Bytes). g ++ xs) (flat-last fs f) ∙ sym (append_assoc g (flat fs) f)

-- What may happen to a sender: a frame is begun when the loop does not wait and ended when `send_frame` is
-- back, and at any time either window is raised, the peer's frame size changes, or other streams
-- take from the connection's window, which may leave it negative.
pub data FlowStep : Sender → ℕ → Sender → Type 0 where
  starts :
      {s : Sender}
      → s.in_flight ≡ none
      → s.unsent ≢ []
      → is_blocked s ≡ false
      → FlowStep s 0 (start_frame s)
  ends : {s : Sender} (taken : ℤ) → s.in_flight ≡ some taken → FlowStep s 0 (end_frame taken s)
  stream_grant :
      {s : Sender} (n : ℕ) → FlowStep s n (record s { stream_window = s.stream_window +ℤ pos n })
  connection_grant :
      {s : Sender} (n : ℕ)
      → FlowStep s 0 (record s { connection_window = s.connection_window +ℤ pos n })
  new_frame_size : {s : Sender} (n : ℕ) → FlowStep s 0 (record s { max_frame_size = n })
  others_send :
      {s : Sender} (n : ℕ)
      → FlowStep s 0 (record s { connection_window = s.connection_window -ℤ pos n })

-- The states that are reached, and how much the peer granted the stream on the way.
pub data Flow (first : Sender) : ℕ → Sender → Type 0 where
  unsent_yet : Flow first 0 first
  more : {g n : ℕ} {s t : Sender} → Flow first g s → FlowStep s n t → Flow first (g + n) t

-- How much the frame takes that is being sent.
abbrev pub flying : Option ℤ → ℕ
flying none = 0
flying (some taken) = pos_part taken

-- The chunk behind the frames, the one that is being sent included.
abbrev pub left_of : Sender → Bytes
left_of s = drop (flying s.in_flight) s.unsent

-- The stream's window holds what is left of what was granted and what is being sent, and nothing of the chunk is lost.
Inside : ℕ → Bytes → ℕ → Sender → Type 0
Inside w0 body g s =
    (w : ℕ) × (s.stream_window ≡ pos w)
    × ((s.in_flight ≡ none) ⊎ (s.in_flight ≡ some (pos (flying s.in_flight))))
    × (flying s.in_flight ≤ w)
    × (length (flat s.frames) + w ≡ w0 + g + flying s.in_flight)
    × (flat s.frames ++ left_of s ≡ body)

positive-pos : (z : ℤ) → ltb_ℤ (pos 0) z ≡ true → (w : ℕ) × (z ≡ pos w) × (0 < w)
positive-pos (pos w) h = (w, refl, ground arith)
positive-pos (negsuc n) h = absurd (ground arith)

neither : (a b : Bool) → ((not a) || not b) ≡ false → (a ≡ true) × (b ≡ true)
neither true true h = (refl, refl)
neither true false h = cc
neither false b h = cc

abbrev size : Sender → ℕ → ℕ → ℕ
size s w v = min (min w v) (min s.max_frame_size (length s.unsent))

allowed-windows :
    (s : Sender) (w v : ℕ)
    → s.stream_window ≡ pos w
    → s.connection_window ≡ pos v
    → allowed s ≡ pos (size s w v)
unfolding allowed
allowed-windows s w v e f =
    rw (e, f, min_ℤ-pos w v, min_ℤ-pos s.max_frame_size (length s.unsent))
      (min_ℤ-pos (min w v) (min s.max_frame_size (length s.unsent)))

drop-take-flat :
    (fs : List Bytes) (n : ℕ) (xs : Bytes)
    → flat (fs ++ take n xs ∷ []) ++ drop n xs ≡ flat fs ++ xs
drop-take-flat fs n xs =
    ap (λ (ys : Bytes). ys ++ drop n xs) (flat-last fs (take n xs))
    ∙ append_assoc (flat fs) (take n xs) (drop n xs)
    ∙ ap (λ (ys : Bytes). flat fs ++ ys) (take-append-drop n xs)

start_frame-Inside :
    (w0 : ℕ) (body : Bytes) (g : ℕ) (s : Sender)
    → s.in_flight ≡ none
    → is_blocked s ≡ false
    → Inside w0 body g s
    → Inside w0 body g (start_frame s)
unfolding start_frame Inside is_blocked
start_frame-Inside w0 body g s idle free (w, e, _, _, total, whole) =
    let (v, f, _) =
      positive-pos s.connection_window (neither (ltb_ℤ (pos 0) s.stream_window) _ free).1 in
    let n : ℕ = size s w v in
    let taken : allowed s ≡ pos n = allowed-windows s w v e f in
    let none_flying : flying s.in_flight ≡ 0 = ap flying idle in
    let amount : pos_part (allowed s) ≡ n = ap pos_part taken in
    (
      w,
      e,
      inr (ap some taken ∙ ap (λ (k : ℕ). some (pos k)) (sym amount)),
      omega (arith, amount),
      omega (
        arith,
        total,
        none_flying,
        amount,
        ap length (flat-last s.frames (take (pos_part (allowed s)) s.unsent)),
        length-append (flat s.frames) (take (pos_part (allowed s)) s.unsent),
        length-take (pos_part (allowed s)) s.unsent,
      ),
      drop-take-flat s.frames (pos_part (allowed s)) s.unsent
          ∙ ap (λ (k : ℕ). flat s.frames ++ drop k s.unsent) (sym none_flying)
          ∙ whole,
    )

end_frame-Inside :
    (w0 : ℕ) (body : Bytes) (g : ℕ) (s : Sender) (taken : ℤ)
    → s.in_flight ≡ some taken
    → Inside w0 body g s
    → Inside w0 body g (end_frame taken s)
unfolding end_frame Inside
end_frame-Inside w0 body g s taken busy (w, e, kind, le, total, whole) =
    let n : ℕ = pos_part taken in
    let amount : flying s.in_flight ≡ n = ap flying busy in
    let taken_pos : taken ≡ pos n = elim kind [
      | inl idle ↦ absurd (none-ne-some taken (sym idle ∙ busy))
      | inr flies ↦ eq-of_some (sym busy ∙ flies ∙ ap (λ (k : ℕ). some (pos k)) amount)
    ] in
    (
      w - n,
      ap₂ (λ (x y : ℤ). x -ℤ y) e taken_pos ∙ -ℤ-pos w n (omega (arith, le, amount)),
      inl refl,
      omega arith,
      omega (arith, total, le, amount),
      ap (λ (k : ℕ). flat s.frames ++ drop k s.unsent) (sym amount) ∙ whole,
    )

Flow-Inside :
    (w0 : ℕ) (first : Sender) (g : ℕ) (s : Sender)
    → first.stream_window ≡ pos w0
    → first.frames ≡ []
    → first.in_flight ≡ none
    → Flow first g s
    → Inside w0 first.unsent g s
unfolding Inside
Flow-Inside w0 first g s e none_yet idle unsent_yet =
    let none_flying : flying first.in_flight ≡ 0 = ap flying idle in
    (
      w0,
      e,
      inl idle,
      omega (arith, none_flying),
      omega (arith, none_flying, ap (λ (fs : List Bytes). length (flat fs)) none_yet),
      ap₂ (λ (fs : List Bytes) (k : ℕ). flat fs ++ drop k first.unsent) none_yet none_flying,
    )
Flow-Inside w0 first g s e none_yet idle
      (more {g = k} {s = r} reached (starts quiet some_left free)) =
    subst (λ (j : ℕ). Inside w0 first.unsent j (start_frame r)) {x = k} {y = k + 0} (omega arith)
      (start_frame-Inside w0 first.unsent k r quiet free
        (Flow-Inside w0 first k r e none_yet idle reached))
Flow-Inside w0 first g s e none_yet idle (more {g = k} {s = r} reached (ends taken busy)) =
    subst (λ (j : ℕ). Inside w0 first.unsent j (end_frame taken r)) {x = k} {y = k + 0}
      (omega arith)
      (end_frame-Inside w0 first.unsent k r taken busy
        (Flow-Inside w0 first k r e none_yet idle reached))
Flow-Inside w0 first g s e none_yet idle (more {g = k} {s = r} reached (stream_grant n)) =
    let (w, a, kind, le, total, whole) = Flow-Inside w0 first k r e none_yet idle reached in
    (
      w + n,
      ap (λ (x : ℤ). x +ℤ pos n) a ∙ +ℤ-pos w n,
      kind,
      omega (arith, le),
      omega (arith, total),
      whole,
    )
Flow-Inside w0 first g s e none_yet idle (more {g = k} {s = r} reached (connection_grant n)) =
    let (w, a, kind, le, total, whole) = Flow-Inside w0 first k r e none_yet idle reached in
    (w, a, kind, le, omega (arith, total), whole)
Flow-Inside w0 first g s e none_yet idle (more {g = k} {s = r} reached (new_frame_size n)) =
    let (w, a, kind, le, total, whole) = Flow-Inside w0 first k r e none_yet idle reached in
    (w, a, kind, le, omega (arith, total), whole)
Flow-Inside w0 first g s e none_yet idle (more {g = k} {s = r} reached (others_send n)) =
    let (w, a, kind, le, total, whole) = Flow-Inside w0 first k r e none_yet idle reached in
    (w, a, kind, le, omega (arith, total), whole)

-- From a chunk of which nothing is sent, on a stream with a window of `w0` bytes, through any sequence of
-- beginnings and ends of its frames, raises of the two windows, new frame sizes, and frames of other
-- streams, which may run while `send_frame` waits and leave the connection's window negative: no
-- more is sent than `w0` and what the peer granted the stream since, the frames and what is left
-- of the chunk are the chunk, and the stream's window is not negative.
pub Flow-granted :
    (w0 : ℕ) (first : Sender) (g : ℕ) (s : Sender)
    → first.stream_window ≡ pos w0
    → first.frames ≡ []
    → first.in_flight ≡ none
    → Flow first g s
    → (length (flat s.frames) ≤ w0 + g)
      × (flat s.frames ++ left_of s ≡ first.unsent)
      × (ltb_ℤ s.stream_window (pos 0) ≡ false)
unfolding Inside
Flow-granted w0 first g s e none_yet idle flow =
    let (w, a, kind, le, total, whole) = Flow-Inside w0 first g s e none_yet idle flow in
    (omega (arith, total, le), whole, rw a (pos-nonneg w))
