-- ===== src/Router/Middleware.antt =====
-- `middleware_stack` of src/router/middleware.cpp. A handler is a function of the request; what a
-- coroutine does besides is part of the result type `R`.
use libnhttp.Base.{
  ap₂, ℕ, zero, suc, ◌+◌, ◌≤◌, ◌≡◌, refl, sym, ap, ◌∙◌, List, [], ◌∷◌, ◌++◌, arith, append_assoc,
  Option, some, none, length, length-append, get_elem?,
}

abbrev pub Handler : Type 0 → Type 0 → Type 0
Handler Q R = Q → R

-- `middleware::handle`: a request, and the function that calls what comes next.
abbrev pub Middleware : Type 0 → Type 0 → Type 0
Middleware Q R = Q → (Q → R) → R

module _ {Q R : Type 0} where
  abbrev pub prepend : Middleware Q R → List (Middleware Q R) → List (Middleware Q R)
  prepend m stack = m ∷ stack

  abbrev pub append : Middleware Q R → List (Middleware Q R) → List (Middleware Q R)
  append m stack = stack ++ m ∷ []

  -- `k` bounds the number of calls that are left.
  pub invoke : ℕ → List (Middleware Q R) → ℕ → Handler Q R → Handler Q R
  invoke zero stack index target req = target req
  invoke (suc k) stack index target req = elim (get_elem? stack index) [
    | none ↦ target req
    | some m ↦ m req (invoke k stack (index + 1) target)
  ]

  abbrev pub handle : List (Middleware Q R) → Handler Q R → Handler Q R
  handle stack target = invoke (length stack) stack 0 target

  -- The stack as one function: each middleware around the ones behind it.
  abbrev pub composed : List (Middleware Q R) → Handler Q R → Handler Q R
  composed [] target = target
  composed (m ∷ stack) target = λ req. m req (composed stack target)

  past : (done : List (Middleware Q R)) → get_elem? (done ++ []) (length done) ≡ none
  past [] = refl
  past (m ∷ done) = past done

  at_end :
      (done : List (Middleware Q R)) (m : Middleware Q R) (stack : List (Middleware Q R))
      → get_elem? (done ++ m ∷ stack) (length done) ≡ some m
  at_end [] m stack = refl
  at_end (d ∷ done) m stack = at_end done m stack

  invoke-suffix :
      (done stack : List (Middleware Q R)) (target : Handler Q R) (k : ℕ)
      → length stack ≤ k
      → invoke k (done ++ stack) (length done) target ≡ composed stack target
  unfolding invoke
  invoke-suffix done [] target zero h = refl
  invoke-suffix done [] target (suc k) h =
      ap
        (λ (o : Option (Middleware Q R)). λ req. elim o [
          | none ↦ target req
          | some m ↦ m req (invoke k (done ++ []) (length done + 1) target)
        ])
        (past done)
  invoke-suffix done (m ∷ stack) target zero h = absurd (omega arith)
  invoke-suffix done (m ∷ stack) target (suc k) h =
      let deeper : invoke k (done ++ m ∷ stack) (length done + 1) target ≡ composed stack target =
        ap₂ (λ (xs : List (Middleware Q R)) (i : ℕ). invoke k xs i target)
          (sym (append_assoc done (m ∷ []) stack)) (omega (arith, length-append done (m ∷ [])))
        ∙ invoke-suffix (done ++ m ∷ []) stack target k (omega arith) in
      ap
        (λ (o : Option (Middleware Q R)). λ req. elim o [
          | none ↦ target req
          | some a ↦ a req (invoke k (done ++ m ∷ stack) (length done + 1) target)
        ])
        (at_end done m stack)
      ∙ ap (λ (h : Handler Q R). λ req. m req h) deeper

  -- Running the stack is the composition of its middlewares around the target, the first outermost.
  pub handle-composed :
      (stack : List (Middleware Q R)) (target : Handler Q R)
      → handle stack target ≡ composed stack target
  handle-composed stack target = invoke-suffix [] stack target (length stack) (omega arith)

  -- Appending a middleware puts it between the stack and the target.
  pub composed-append :
      (stack : List (Middleware Q R)) (m : Middleware Q R) (target : Handler Q R)
      → composed (append m stack) target ≡ composed stack (λ req. m req target)
  composed-append [] m target = refl
  composed-append (a ∷ stack) m target = ap (λ h. λ req. a req h) (composed-append stack m target)

  -- A middleware that was prepended is the outermost, and one that was appended stands between the
  -- others and the target.
  pub handle-stack :
      (stack : List (Middleware Q R)) (m : Middleware Q R) (target : Handler Q R)
      → (handle (prepend m stack) target ≡ (λ req. m req (handle stack target)))
        × (handle (append m stack) target ≡ handle stack (λ req. m req target))
  handle-stack stack m target = (
    handle-composed (m ∷ stack) target
        ∙ ap (λ h. λ req. m req h) (sym (handle-composed stack target)),
    handle-composed (append m stack) target
        ∙ composed-append stack m target
        ∙ sym (handle-composed stack (λ req. m req target)),
  )
