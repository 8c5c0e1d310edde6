-- ===== src/Router/Targets.antt =====
-- The targets of a route: `get_target`, `set_target`, `any` and `method` of src/router/route.cpp.
use libnhttp.Base.{
  length, ◌<◌, ap₂, ◌≡◌, refl, sym, ap, ◌∙◌, List, [], ◌∷◌, arith, Bytes, Bool, false, Bool-cases,
  inl, inr, Option, some, none, if◌then◌else◌, codes,
}
use libnhttp.Base.Text.{bytes_eq}
use libnhttp.Protocol.HttpMethod.{
  HttpMethodId, HttpMethod, http_method, same_key, same_key-http_method, same_key_sym,
  same_key_trans, http_method_name,
}

-- `route::method_target_entry`.
pub record MethodTargetEntry (T : Type 0) : Type 0 where
  pub id : HttpMethodId
  pub target_name : Bytes
  pub target : T

abbrev pub all_methods : List Bytes
all_methods =
    codes "GET"
    ∷ codes "HEAD"
    ∷ codes "POST"
    ∷ codes "PUT"
    ∷ codes "DELETE"
    ∷ codes "PATCH"
    ∷ codes "OPTIONS"
    ∷ []

module _ {T : Type 0} where
  abbrev pub entry_is : MethodTargetEntry T → HttpMethodId → Bytes → Bool
  entry_is e i n = same_key e.id e.target_name i n

  pub get_target : HttpMethod → List (MethodTargetEntry T) → Option T
  get_target m [] = none
  get_target m (e ∷ es) = if entry_is e m.id m.method_name then some e.target else get_target m es

  pub set_target :
      HttpMethodId → Bytes → T → List (MethodTargetEntry T) → List (MethodTargetEntry T)
  set_target i n t [] = record { id = i; target_name = n; target = t } ∷ []
  set_target i n t (e ∷ es) =
      let rest = set_target i n t es in
      if entry_is e i n then record e { target = t } ∷ es else e ∷ rest

  abbrev pub method : HttpMethod → T → List (MethodTargetEntry T) → List (MethodTargetEntry T)
  method m t es = set_target m.id m.method_name t es

  -- The loop over `all_methods`.
  abbrev pub set_all : List Bytes → T → List (MethodTargetEntry T) → List (MethodTargetEntry T)
  set_all [] t es = es
  set_all (n ∷ ns) t es = set_all ns t (method (http_method n) t es)

  abbrev pub any : T → List (MethodTargetEntry T) → List (MethodTargetEntry T)
  any t es = set_all all_methods t es

  -- By key: the last target that was set, or what was there.
  get_target-set_target :
      (m k : HttpMethod) (t : T) (es : List (MethodTargetEntry T))
      → get_target k (set_target m.id m.method_name t es)
        ≡ (if same_key m.id m.method_name k.id k.method_name then some t else get_target k es)
  unfolding get_target set_target
  get_target-set_target m k t [] = refl
  get_target-set_target m k t (e ∷ es) =
      let rest = get_target-set_target m k t es in
      elim (Bool-cases (entry_is e m.id m.method_name)) [
        | inl same ↦
            let alike =
              same_key_trans e.id m.id k.id e.target_name m.method_name k.method_name same in
            rw (same, alike) (ground arith)
        | inr other ↦ elim (Bool-cases (entry_is e k.id k.method_name)) [
          | inl here ↦
              let alike : same_key m.id m.method_name k.id k.method_name ≡ false =
                same_key_sym m.id m.method_name k.id k.method_name
                ∙ sym (same_key_trans e.id k.id m.id e.target_name k.method_name m.method_name here)
                ∙ other in
              rw (other, here, alike) refl
          | inr there ↦ rw (other, there) rest
        ]
      ]

  -- A method that was registered has the last target that was given for its name, and the methods
  -- of other names have what they had.
  pub get_target-method :
      (n k : Bytes) (t : T) (es : List (MethodTargetEntry T))
      → get_target (http_method k) (method (http_method n) t es)
        ≡ (if bytes_eq n k then some t else get_target (http_method k) es)
  get_target-method n k t es =
      get_target-set_target (http_method n) (http_method k) t es
      ∙ ap (λ (b : Bool). if b then some t else get_target (http_method k) es)
          (ap₂ (λ (a b : Bytes). same_key (http_method n).id a (http_method k).id b)
              (http_method_name n) (http_method_name k)
            ∙ same_key-http_method n k)

  pub set_target-some :
      (m : HttpMethod) (t : T) (es : List (MethodTargetEntry T)) → 0 < length (method m t es)
  unfolding set_target
  set_target-some m t [] = omega arith
  set_target-some m t (e ∷ es) = ground arith
