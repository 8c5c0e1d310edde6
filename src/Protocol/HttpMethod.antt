-- ===== src/Protocol/HttpMethod.antt =====
-- src/protocol/http_method.cpp: the methods and the table of the known ones.
use libnhttp.Base.{
  ℕ, ◌≡◌, ◌⊎◌, refl, sym, ap, ◌∙◌, List, [], ◌∷◌, map, arith, bit_or, Bytes, All, ◌==◌, Bool, true,
  false, not, ◌&&◌, ◌||◌, Bool-cases, Option-cases, inl, inr, Option, some, none, get_or,
  if◌then◌else◌, ℕ_discrete, codes,
}
use libnhttp.Base.Text.{bytes_eq_iff, bytes_eq, bytes_eq_refl, eq-of_bytes_eq}
use mathlib.Core.Path.{subst}
use mathlib.Core.Option.{some-injective}

pub data HttpMethodId : Type 0 where
  custom : HttpMethodId
  get : HttpMethodId
  head : HttpMethodId
  post : HttpMethodId
  put : HttpMethodId
  del : HttpMethodId
  patch : HttpMethodId
  options : HttpMethodId
  trace : HttpMethodId
  connect : HttpMethodId

-- The enumerators' values.
abbrev pub id_value : HttpMethodId → ℕ
id_value custom = 0
id_value get = 1
id_value head = 2
id_value post = 3
id_value put = 4
id_value del = 5
id_value patch = 6
id_value options = 7
id_value trace = 8
id_value connect = 9

-- `http_method_flags`.
abbrev request_content : ℕ
request_content = 1

abbrev response_content : ℕ
response_content = 2

abbrev alter_state : ℕ
alter_state = 4

abbrev idempotent : ℕ
idempotent = 8

abbrev cacheable : ℕ
cacheable = 16

abbrev conditional_cacheable : ℕ
conditional_cacheable = 32

pub record KnownEntry : Type 0 where
  pub known_name : Bytes
  pub known_flags : ℕ
  pub known_id : HttpMethodId

abbrev entry : Bytes → ℕ → HttpMethodId → KnownEntry
entry n f i = record { known_name = n; known_flags = f; known_id = i }

abbrev pub known_methods : List KnownEntry
known_methods =
    entry (codes "GET") (bit_or (bit_or response_content idempotent) cacheable) get
    ∷ entry (codes "HEAD") (bit_or idempotent cacheable) head
    ∷ entry (codes "POST")
        (bit_or (bit_or (bit_or request_content response_content) alter_state)
          conditional_cacheable)
        post
    ∷ entry (codes "PUT") (bit_or (bit_or request_content alter_state) idempotent) put
    ∷ entry (codes "DELETE") (bit_or alter_state idempotent) del
    ∷ entry (codes "PATCH") (bit_or request_content alter_state) patch
    ∷ entry (codes "OPTIONS") idempotent options
    ∷ entry (codes "TRACE") idempotent trace
    ∷ entry (codes "CONNECT") alter_state connect
    ∷ []

-- The loop of `find_known`.
unfoldable pub find_known : List KnownEntry → Bytes → Option KnownEntry
find_known [] n = none
find_known (e ∷ es) n = if bytes_eq e.known_name n then some e else find_known es n

pub record HttpMethod : Type 0 where
  pub method_name : Bytes
  pub flags : ℕ
  pub id : HttpMethodId

-- What the constructor stores.
abbrev pub described : Bytes → Option KnownEntry → HttpMethod
described n none = record { method_name = n; flags = 0; id = custom }
described n (some e) = record { method_name = n; flags = e.known_flags; id = e.known_id }

abbrev pub http_method : Bytes → HttpMethod
http_method n = described n (find_known known_methods n)

-- The comparison by which a route keeps its targets: by the id, and by the name where it is custom.
abbrev pub same_key : HttpMethodId → Bytes → HttpMethodId → Bytes → Bool
same_key i n j k = (id_value i == id_value j) && ((not (id_value j == 0)) || bytes_eq n k)

-- The name of an id of the table.
abbrev literal : ℕ → Bytes
literal i = get_or ([] ∷ map (λ (e : KnownEntry). e.known_name) known_methods) i []

find_known-All :
    (P : KnownEntry → Type 0) (es : List KnownEntry) (n : Bytes) (e : KnownEntry)
    → All P es
    → find_known es n ≡ some e
    → P e × (e.known_name ≡ n)
unfolding find_known
find_known-All P [] n e all h = cc
find_known-All P (d ∷ es) n e all h = elim (Bool-cases (bytes_eq d.known_name n)) [
  | inl same ↦
      let first : d ≡ e = some-injective d e (rw same at h) in
      (
        subst P first all.0,
        ap (λ (x : KnownEntry). x.known_name) (sym first) ∙ eq-of_bytes_eq d.known_name n same,
      )
  | inr other ↦ find_known-All P es n e all.1 (rw other at h)
]

-- An id that is not custom fixes the name.
known-name :
    (n : Bytes) → (id_value (http_method n).id ≡ 0) ⊎ (n ≡ literal (id_value (http_method n).id))
known-name n = elim (Option-cases (find_known known_methods n)) [
  | inl none_known ↦ inl (ap (λ (o : Option KnownEntry). id_value (described n o).id) none_known)
  | inr (e, known) ↦
      let (of_id, named) =
        find_known-All (λ d. d.known_name ≡ literal (id_value d.known_id)) known_methods n e
          (refl, (refl, (refl, (refl, (refl, (refl, (refl, (refl, (refl, tt))))))))) known in
      inr (
        sym named
        ∙ of_id
        ∙ ap (λ (o : Option KnownEntry). literal (id_value (described n o).id)) (sym known))
]

keys-names :
    (x y : ℕ) (n k : Bytes)
    → (x ≡ 0) ⊎ (n ≡ literal x)
    → (y ≡ 0) ⊎ (k ≡ literal y)
    → (n ≡ k → x ≡ y)
    → ((x == y) && ((not (y == 0)) || bytes_eq n k)) ≡ bytes_eq n k
keys-names x y n k of_x of_y congruent = elim (Bool-cases (bytes_eq n k)) [
  | inl same ↦
      let equal : x ≡ y = congruent (eq-of_bytes_eq n k same) in rw (same, equal) (ground arith)
  | inr other ↦ elim (ℕ_discrete x y) [
    | no apart ↦ rw other (ground arith)
    | yes equal ↦ elim (ℕ_discrete y 0) [
      | yes zero_y ↦ rw (other, equal, zero_y) (ground arith)
      | no some_y ↦ absurd (
          let left : n ≡ literal x = elim of_x [
            | inl zero_x ↦ absurd (omega arith)
            | inr named ↦ named
          ] in
          let right : k ≡ literal y = elim of_y [
            | inl zero_y ↦ absurd (omega arith)
            | inr named ↦ named
          ] in
          let same : n ≡ k = left ∙ ap literal equal ∙ sym right in
          let differ : bytes_eq k k ≡ false = rw same at other in
          let never : true ≡ false = sym (bytes_eq_refl k) ∙ differ in cc)
    ]
  ]
]

numbers_sym :
    (x y : ℕ) (n k : Bytes)
    → ((x == y) && ((not (y == 0)) || bytes_eq n k))
      ≡ ((y == x) && ((not (x == 0)) || bytes_eq k n))
numbers_sym x y n k = ground (arith, bytes_eq_iff n k, bytes_eq_iff k n)

numbers_trans :
    (x y z : ℕ) (m n k : Bytes)
    → ((x == y) && ((not (y == 0)) || bytes_eq m n)) ≡ true
    → ((x == z) && ((not (z == 0)) || bytes_eq m k))
      ≡ ((y == z) && ((not (z == 0)) || bytes_eq n k))
numbers_trans x y z m n k e = elim (ℕ_discrete z 0) [
  | yes zero_z ↦ rw zero_z (ground (arith, bytes_eq_iff m n, bytes_eq_iff m k, bytes_eq_iff n k))
  | no some_z ↦ ground arith
]

-- The comparison is symmetric, and equal keys compare alike with a third.
pub same_key_sym :
    (i : HttpMethodId) (n : Bytes) (j : HttpMethodId) (k : Bytes)
    → same_key i n j k ≡ same_key j k i n
same_key_sym i n j k = numbers_sym (id_value i) (id_value j) n k

pub same_key_trans :
    (h i j : HttpMethodId) (m n k : Bytes)
    → same_key h m i n ≡ true
    → same_key h m j k ≡ same_key i n j k
same_key_trans h i j m n k = numbers_trans (id_value h) (id_value i) (id_value j) m n k

-- Two methods made from names have the same key exactly when their names are equal: an id is
-- compared in place of a name without telling apart what the names do not, nor the reverse.
pub same_key-http_method :
    (n k : Bytes) → same_key (http_method n).id n (http_method k).id k ≡ bytes_eq n k
same_key-http_method n k =
    keys-names _ _ n k (known-name n) (known-name k) (λ e. ap (λ m. id_value (http_method m).id) e)

described_name : (n : Bytes) (o : Option KnownEntry) → (described n o).method_name ≡ n
described_name n none = refl
described_name n (some e) = refl

pub http_method_name : (n : Bytes) → (http_method n).method_name ≡ n
http_method_name n = described_name n (find_known known_methods n)
