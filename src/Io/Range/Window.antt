-- ===== src/Io/Range/Window.antt =====
-- A range of a seekable stream is a window on its bytes.
use libnhttp.Base.{
  take-drop-take, drop-drop, ℕ, ◌+◌, ◌-◌, ◌≤◌, ◌≡◌, ◌⊎◌, refl, sym, ap, ◌∙◌, [], arith, Bytes, ltb,
  Bool, true, false, Bool-cases, inl, inr, some, none, length, take, drop, if◌then◌else◌, dec_lt,
  min, max,
}
use libnhttp.Base.Int.{pos, pos-nonneg, min_ℤ-pos, max_ℤ-pos, +ℤ-pos, -ℤ-pos}
use libnhttp.Io.Stream.{Stream, IsSeekable}
use libnhttp.Io.Range.{read_positioned, Range, range_stream, ensure_positioned, allowed, read}

-- A bounded range, from its numbers.
abbrev pub bounded_range : {S : Type 0} → S → Bool → ℕ → ℕ → ℕ → Range S
bounded_range s t b e p = record {
  inner = s;
  bounded = true;
  first = pos b;
  last = pos e;
  position = pos p;
  positioned = t;
}

module _ {S : Type 0} (i : Stream S) (laws : IsSeekable i) where
  open laws use {Good, content, position}

  -- The range from `b` to `e` of the stream lies in its bytes, and is read up to `p`; once it is
  -- positioned the stream stands there too.
  pub record IsWindow (s : S) (t : Bool) (b e p : ℕ) : Type 0 where
    pub good : Good s
    pub ordered : b ≤ e
    pub inside : e ≤ length (content s)
    pub placed : if t then position s ≡ b + p else p ≡ 0

  abbrev pub window : S → ℕ → ℕ → Bytes
  window s b e = take (e - b) (drop b (content s))

  -- A range from `b` to `e` is cut to the length of the stream: a start past the end gives an empty
  -- window, and so does an end before the start.
  pub range_stream-IsWindow :
      (s : S) (b e : ℕ)
      → Good s
      → (b' : ℕ) × (e' : ℕ) × (range_stream i s (pos b) (pos e) ≡ bounded_range s false b' e' 0)
        × (b' ≡ min b (length (content s)))
        × (e' ≡ min (max e b') (length (content s)))
        × IsWindow s false b' e' 0
  unfolding range_stream
  range_stream-IsWindow s b e g =
      let n : ℕ = length (content s) in
      (
        min b n,
        min (max e (min b n)) n,
        rw (
          laws.get_length_lem s g,
          pos-nonneg b,
          pos-nonneg e,
          pos-nonneg n,
          min_ℤ-pos b n,
          max_ℤ-pos e (min b n),
          min_ℤ-pos (max e (min b n)) n,
        ),
        refl,
        refl,
        record { good = g; ordered = omega arith; inside = omega arith; placed = refl },
      )

  ensure_positioned_lem :
      (s : S) (t : Bool) (b e p : ℕ)
      → IsWindow s t b e p
      → (s' : S) × (ensure_positioned i (bounded_range s t b e p) ≡ bounded_range s' true b e p)
        × IsWindow s' true b e p
        × (content s' ≡ content s)
  unfolding ensure_positioned
  ensure_positioned_lem s true b e p v = (s, refl, v, refl)
  ensure_positioned_lem s false b e p v =
      let (s', run, g, same, at) =
        laws.seek_begin b s v.good (omega (arith, v.ordered, v.inside)) in
      (
        s',
        ap (λ r. bounded_range r.1 true b e p) run,
        record {
          good = g;
          ordered = v.ordered;
          inside = omega (arith, v.inside, ap length same);
          placed = omega (arith, v.placed, at);
        },
        same,
      )

  -- A window lets no more through than what is left of it.
  allowed_lem :
      (n : ℕ) (s : S) (t : Bool) (b e p : ℕ)
      → b ≤ e
      → allowed i n (bounded_range s t b e p)
        ≡ (if ltb p (e - b) then some (min n (e - b - p)) else none)
  unfolding allowed
  allowed_lem n s t b e p h = rw (-ℤ-pos e b h) (ground arith)

  -- What a read of `bs` from a window at `p` leaves: `s'` and `p'`.
  pub record IsRead (n : ℕ) (s : S) (b e p : ℕ) (bs : Bytes) (s' : S) (p' : ℕ) : Type 0 where
    pub still : IsWindow s' true b e p'
    pub same : content s' ≡ content s
    pub read_on : p' ≡ p + length bs
    pub bytes_lem : bs ≡ take (length bs) (drop p (window s b e))
    pub asked : length bs ≤ n
    pub within : length bs ≤ e - b - p
    pub some_bytes : (1 ≤ length bs) ⊎ (n ≡ 0) ⊎ (e - b ≤ p)

  read_shut :
      (n : ℕ) (s : S) (b e p : ℕ)
      → b ≤ e
      → ltb p (e - b) ≡ false
      → read_positioned i n (bounded_range s true b e p) ≡ ([], bounded_range s true b e p)
  unfolding read_positioned
  read_shut n s b e p h shut = rw (allowed_lem n s true b e p h, shut, read_positioned)

  read_open :
      (n : ℕ) (s : S) (b e p : ℕ)
      → b ≤ e
      → ltb p (e - b) ≡ true
      → read_positioned i n (bounded_range s true b e p) ≡ (
        (i.read (min n (e - b - p)) s).0,
        bounded_range
            (i.read (min n (e - b - p)) s).1
            true
            b
            e
            (p + length (i.read (min n (e - b - p)) s).0),
      )
  unfolding read_positioned
  read_open n s b e p h more = rw (
    allowed_lem n s true b e p h,
    more,
    +ℤ-pos p (length (i.read (min n (e - b - p)) s).0),
    read_positioned,
  )

  read_positioned_lem :
      (n : ℕ) (s : S) (b e p : ℕ)
      → IsWindow s true b e p
      → (bs : Bytes) × (s' : S) × (p' : ℕ) × (read_positioned i n (bounded_range s true b e p)
          ≡ (bs, bounded_range s' true b e p'))
        × IsRead n s b e p bs s' p'
  read_positioned_lem n s b e p v = elim (Bool-cases (ltb p (e - b))) [
    | inl more ↦
        let m : ℕ = min n (e - b - p) in
        let (g, same, bytes, moved, inside, size) = laws.read_next m s v.good in
        let k : ℕ = length (i.read m s).0 in
        let there : drop (position s) (content s) ≡ drop p (drop b (content s)) =
          ap (λ (q : ℕ). drop q (content s)) v.placed ∙ sym (drop-drop b p (content s)) in
        let cut = take-drop-take k p (e - b) (drop b (content s)) (ground arith) in
        (
          (i.read m s).0,
          (i.read m s).1,
          p + k,
          read_open n s b e p v.ordered more,
          record {
            still = record {
              good = g;
              ordered = v.ordered;
              inside = omega (arith, v.inside, ap length same);
              placed = omega (arith, moved, v.placed);
            };
            same = same;
            read_on = refl;
            bytes_lem = bytes ∙ ap (take k) there ∙ sym cut;
            asked = omega arith;
            within = omega arith;
            some_bytes = elim (dec_lt 0 n) [
              | yes asked ↦
                  inl
                    (laws.read_some m s v.good (ground arith) (ground (arith, v.placed, v.inside)))
              | no none_asked ↦ inr (inl (omega arith))
            ];
          },
        )
    | inr shut ↦ (
      [],
      s,
      p,
      read_shut n s b e p v.ordered shut,
      record {
        still = v;
        same = refl;
        read_on = omega arith;
        bytes_lem = refl;
        asked = omega arith;
        within = omega arith;
        some_bytes = inr (inr (ground arith));
      },
    )
  ]

  -- Of a stream that can be sought, and a window that lies in its bytes and where the stream stands at
  -- the window's position once it is positioned: a read gives the next bytes of the window, no more
  -- than are asked for and than it has left, and some where some are asked for and left; the
  -- stream's bytes and the window stay, and the window is read on by as much.
  pub read-IsRead :
      (n : ℕ) (s : S) (t : Bool) (b e p : ℕ)
      → IsWindow s t b e p
      → (bs : Bytes) × (s' : S) × (p' : ℕ) × (read i n (bounded_range s t b e p)
          ≡ (bs, bounded_range s' true b e p'))
        × IsRead n s b e p bs s' p'
  unfolding read
  read-IsRead n s t b e p v =
      let (s1, run, w, same) = ensure_positioned_lem s t b e p v in
      let (bs, s', p', done, r) = read_positioned_lem n s1 b e p w in
      (
        bs,
        s',
        p',
        ap (read_positioned i n) run ∙ done,
        record {
          still = r.still;
          same = r.same ∙ same;
          read_on = r.read_on;
          bytes_lem =
              r.bytes_lem ∙ ap (λ c. take (length bs) (drop p (take (e - b) (drop b c)))) same;
          asked = r.asked;
          within = r.within;
          some_bytes = r.some_bytes;
        },
      )
