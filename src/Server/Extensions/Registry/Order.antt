-- ===== src/Server/Extensions/Registry/Order.antt =====
-- Extensions are kept in the order of their priorities, and the first that accepts answers.
use libnhttp.Base.{
  ℕ, ◌≤◌, ◌<◌, ◌≡◌, ◌⊎◌, refl, ap, ◌∙◌, List, [], ◌∷◌, ◌++◌, arith, All, ltb, Bool, true, false,
  Bool-cases, inl, inr, Option, some, none,
}
use libnhttp.Base.{ap₂}
use libnhttp.Server.Extensions.Registry.{Extension, add, asked, dispatch}

module _ {R A : Type 0} where
  -- Those behind an extension have its priority or a higher number.
  abbrev pub IsOrdered : List (Extension R A) → Type 0
  IsOrdered [] = Unit {0}
  IsOrdered (e ∷ es) = All (λ (x : Extension R A). e.priority ≤ x.priority) es × IsOrdered es

  All-le :
      (n m : ℕ) (es : List (Extension R A))
      → n ≤ m
      → All (λ (x : Extension R A). m ≤ x.priority) es
      → All (λ (x : Extension R A). n ≤ x.priority) es
  All-le n m [] h a = tt
  All-le n m (e ∷ es) h a = (omega (arith, a.0), All-le n m es h a.1)

  -- Where an extension is put: behind those of its priority or a lower number, before the others.
  pub record Inserted (ext : Extension R A) (es all : List (Extension R A)) : Type 0 where
    pub front : List (Extension R A)
    pub back : List (Extension R A)
    pub before : es ≡ front ++ back
    pub after : all ≡ front ++ ext ∷ back
    pub low : All (λ (x : Extension R A). x.priority ≤ ext.priority) front
    pub high : All (λ (x : Extension R A). ext.priority < x.priority) back

  All-lt :
      (n m : ℕ) (es : List (Extension R A))
      → n < m
      → All (λ (x : Extension R A). m ≤ x.priority) es
      → All (λ (x : Extension R A). n < x.priority) es
  All-lt n m [] h a = tt
  All-lt n m (e ∷ es) h a = (omega (arith, a.0), All-lt n m es h a.1)

  add-Inserted :
      (ext : Extension R A) (es : List (Extension R A))
      → IsOrdered es
      → Inserted ext es (add ext es)
  unfolding add
  add-Inserted ext [] o = record {
    front = [];
    back = [];
    before = refl;
    after = refl;
    low = tt;
    high = tt;
  }
  add-Inserted ext (e ∷ es) o = elim (Bool-cases (ltb ext.priority e.priority)) [
    | inl here ↦ rw here (record {
      front = [];
      back = e ∷ es;
      before = refl;
      after = refl;
      low = tt;
      high = (ground arith, All-lt ext.priority e.priority es (ground arith) o.0);
    })
    | inr later ↦
        let rest = add-Inserted ext es o.1 in
        rw later (record {
          front = e ∷ rest.front;
          back = rest.back;
          before = ap (◌∷◌ e) rest.before;
          after = ap (◌∷◌ e) rest.after;
          low = (ground arith, rest.low);
          high = rest.high;
        })
  ]

  All-add :
      (n : ℕ) (ext : Extension R A) (es : List (Extension R A))
      → n ≤ ext.priority
      → All (λ (x : Extension R A). n ≤ x.priority) es
      → All (λ (x : Extension R A). n ≤ x.priority) (add ext es)
  unfolding add
  All-add n ext [] h a = (h, tt)
  All-add n ext (e ∷ es) h a = elim (Bool-cases (ltb ext.priority e.priority)) [
    | inl here ↦ rw here (h, a)
    | inr later ↦ rw later (a.0, All-add n ext es h a.1)
  ]

  add-IsOrdered :
      (ext : Extension R A) (es : List (Extension R A)) → IsOrdered es → IsOrdered (add ext es)
  unfolding add
  add-IsOrdered ext [] o = (tt, tt)
  add-IsOrdered ext (e ∷ es) o = elim (Bool-cases (ltb ext.priority e.priority)) [
    | inl here ↦ rw here ((ground arith, All-le ext.priority e.priority es (ground arith) o.0), o)
    | inr later ↦ rw later (All-add e.priority ext es (ground arith) o.0, add-IsOrdered ext es o.1)
  ]

  -- An extension is put behind all those that have its priority or a lower number and before all others, which
  -- keep their places, and the extensions stay in order.
  pub add-Inserted-IsOrdered :
      (ext : Extension R A) (es : List (Extension R A))
      → IsOrdered es
      → Inserted ext es (add ext es) × IsOrdered (add ext es)
  add-Inserted-IsOrdered ext es o = (add-Inserted ext es o, add-IsOrdered ext es o)

  -- Extensions that leave the request as it is until they handle it.
  abbrev pub Quiet : R → List (Extension R A) → Type 0
  Quiet req es = All (λ (x : Extension R A). (x.wants req).1 ≡ req) es

  -- Who answers a request: the first of those asked that accepts it, which has the lowest number of those that do.
  pub record Answers (req : R) (es : List (Extension R A)) (result : Option A × R) : Type 0 where
    pub chosen : Extension R A
    pub front : List (Extension R A)
    pub back : List (Extension R A)
    pub asked_lem : es ≡ front ++ chosen ∷ back
    pub declined : All (λ (x : Extension R A). (x.wants req).0 ≡ false) front
    pub accepts : (chosen.wants req).0 ≡ true
    pub least :
        All (λ (x : Extension R A). (x.wants req).0 ≡ true → chosen.priority ≤ x.priority) es
    pub result_lem : result ≡ (some (chosen.handle req).0, (chosen.handle req).1)

  asked-yes :
      (again : R → Option A × R) (e : Extension R A) (req : R)
      → (e.wants req).0 ≡ true
      → (e.wants req).1 ≡ req
      → asked again e (e.wants req) ≡ (some (e.handle req).0, (e.handle req).1)
  unfolding asked
  asked-yes again e req yes_ quiet = ap₂ (λ (b : Bool) (q : R). asked again e (b, q)) yes_ quiet

  asked-no :
      (again : R → Option A × R) (e : Extension R A) (req : R)
      → (e.wants req).0 ≡ false
      → (e.wants req).1 ≡ req
      → asked again e (e.wants req) ≡ again req
  unfolding asked
  asked-no again e req no_ quiet = ap₂ (λ (b : Bool) (q : R). asked again e (b, q)) no_ quiet

  All-accepting :
      (n : ℕ) (req : R) (es : List (Extension R A))
      → All (λ (x : Extension R A). n ≤ x.priority) es
      → All (λ (x : Extension R A). (x.wants req).0 ≡ true → n ≤ x.priority) es
  All-accepting n req [] a = tt
  All-accepting n req (e ∷ es) a = (λ _. a.0, All-accepting n req es a.1)

  -- A request that no extension of a registry accepts is not answered; any other is answered by the first
  -- extension of the registry that accepts it, which has the lowest number of those that do. The
  -- extensions are in order, and change no request by looking at it.
  pub dispatch-least :
      (req : R) (es : List (Extension R A))
      → IsOrdered es
      → Quiet req es
      → (All (λ (x : Extension R A). (x.wants req).0 ≡ false) es × (dispatch es req ≡ (none, req)))
        ⊎ Answers req es (dispatch es req)
  unfolding dispatch
  dispatch-least req [] o q = inl (tt, refl)
  dispatch-least req (e ∷ es) o q = elim (Bool-cases (e.wants req).0) [
    | inl accepted ↦ inr (record {
      chosen = e;
      front = [];
      back = es;
      asked_lem = refl;
      declined = tt;
      accepts = accepted;
      least = (λ _. omega arith, All-accepting e.priority req es o.0);
      result_lem = asked-yes (dispatch es) e req accepted q.0;
    })
    | inr declined ↦ elim (dispatch-least req es o.1 q.1) [
      | inl (all, result) ↦
          inl ((declined, all), asked-no (dispatch es) e req declined q.0 ∙ result)
      | inr a ↦ inr (record {
        chosen = a.chosen;
        front = e ∷ a.front;
        back = a.back;
        asked_lem = ap (◌∷◌ e) a.asked_lem;
        declined = (declined, a.declined);
        accepts = a.accepts;
        least = (λ yes_. absurd (cc), a.least);
        result_lem = asked-no (dispatch es) e req declined q.0 ∙ a.result_lem;
      })
    ]
  ]
