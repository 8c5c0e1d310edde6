-- ===== src/Server/Extensions/Overlay/Inside.antt =====
-- Only files below the directory are served.
use libnhttp.Base.{
  false, eq-of_some, ℕ, ◌≡◌, ◌⊎◌, refl, sym, ap, ◌∙◌, [], arith, Bytes, All, true, ◌&&◌, inl, inr,
  Option, some, none,
}
use libnhttp.Server.StaticContent.QualifyPath.{segments, qualify_relative_path}
use libnhttp.Server.StaticContent.QualifyPath.Names.{IsName, qualify_relative_path-names}
use libnhttp.Server.Extensions.Overlay.{
  FileKind, not_found, regular_file, directory, other, FileInfo, Request, Overlay, is_owner, below,
  index_path, regular, find_file, resolve_path, resolve,
}

-- A relative path whose segments are names, or the directory itself.
abbrev pub IsRelative : Bytes → Type 0
IsRelative q = (q ≡ []) ⊎ All IsName (segments q)

-- A path below the directory of an overlay, or the index of one.
abbrev pub IsBelow : Overlay → Bytes → Type 0
IsBelow o path =
    (q : Bytes) × IsRelative q
    × ((path ≡ below o.base_dir q) ⊎ (path ≡ index_path (below o.base_dir q) o.index_file))

module _ (stat_file : Bytes → FileInfo) (o : Overlay) where
  -- A file that may be served.
  pub record IsServed (path : Bytes) (info : FileInfo) : Type 0 where
    pub place : IsBelow o path
    pub facts : info ≡ stat_file path
    pub kind_lem : info.kind ≡ regular_file

  regular-some :
      (path p : Bytes) (info i : FileInfo) (k : FileKind)
      → regular path info k ≡ some (p, i)
      → (p ≡ path) × (i ≡ info) × (k ≡ regular_file)
  unfolding regular
  regular-some path p info i regular_file e =
      (ap (λ x. x.0) (sym (eq-of_some e)), ap (λ x. x.1) (sym (eq-of_some e)), refl)
  regular-some path p info i not_found e = absurd (cc)
  regular-some path p info i directory e = absurd (cc)
  regular-some path p info i other e = absurd (cc)

  find_file-some :
      (path p : Bytes) (i : FileInfo) (k : FileKind)
      → (stat_file path).kind ≡ k
      → find_file stat_file o path k ≡ some (p, i)
      → ((p ≡ path) ⊎ (p ≡ index_path path o.index_file))
        × (i ≡ stat_file p)
        × (i.kind ≡ regular_file)
  unfolding find_file
  find_file-some path p i directory e f =
      let index = index_path path o.index_file in
      let (at, facts, kind) = regular-some index p (stat_file index) i (stat_file index).kind f in
      (inr at, facts ∙ ap stat_file (sym at), ap (λ (x : FileInfo). x.kind) facts ∙ kind)
  find_file-some path p i regular_file e f =
      let (at, facts, kind) = regular-some path p (stat_file path) i regular_file f in
      (inl at, facts ∙ ap stat_file (sym at), ap (λ (x : FileInfo). x.kind) facts ∙ e)
  find_file-some path p i not_found e f =
      absurd (cc (regular-some path p (stat_file path) i not_found f).2)
  find_file-some path p i other e f = absurd (cc (regular-some path p (stat_file path) i other f).2)

  resolve_path-IsServed :
      (subpath p : Bytes) (i : FileInfo) (q : Option Bytes)
      → qualify_relative_path subpath ≡ q
      → resolve_path stat_file o q ≡ some (p, i)
      → IsServed p i
  unfolding resolve_path
  resolve_path-IsServed subpath p i none e f = absurd (cc)
  resolve_path-IsServed subpath p i (some q) e f =
      let path = below o.base_dir q in
      let (at, facts, kind) = find_file-some path p i (stat_file path).kind refl f in
      record {
        place = (q, (qualify_relative_path-names subpath q e).0, at);
        facts = facts;
        kind_lem = kind;
      }

  owner_self : (n : ℕ) → is_owner n (some n) ≡ true
  owner_self n = ground arith

  -- For a request whose cache is not this overlay's, `resolve` gives what the path of the request resolves to. A
  -- file that it gives lies below the directory of the overlay: at its base, behind which stand names
  -- without `..`, or at the index there; it is a regular file, with the facts that the file
  -- system has of it. The next `resolve` of the request gives the same from the cache, even where
  -- the file system or the path of the request has changed.
  pub resolve-IsServed :
      (later : Bytes → FileInfo) (q : Bytes) (req : Request)
      → (req.cache.computed && is_owner o.instance_id req.cache.owner) ≡ false
      → ((resolve stat_file o req).0 ≡ resolve_path stat_file o (qualify_relative_path req.subpath))
        × ((p : Bytes) (i : FileInfo) → (resolve stat_file o req).0 ≡ some (p, i) → IsServed p i)
        × ((resolve later o (record (resolve stat_file o req).1 { subpath = q })).0
            ≡ (resolve stat_file o req).0)
  unfolding resolve
  resolve-IsServed later q req fresh =
      let mine : is_owner o.instance_id (some o.instance_id) ≡ true = owner_self o.instance_id in
      rw fresh (
        refl,
        λ p i e. resolve_path-IsServed req.subpath p i (qualify_relative_path req.subpath) refl e,
        rw mine refl,
      )
