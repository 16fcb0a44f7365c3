-- ===== src/Kv/RoundTrip/Setting.antt =====
-- `set`: where it answers OK, the file of the key holds the value.
use wapi.Base.{
  ℕ, ◌≡◌, ◌≢◌, refl, sym, ap, ◌∙◌, subst, inl, inr, true, false, some, List, [], ◌∷◌, length, ◌==◌,
  ==_iff, Bool-cases, Option-cases, arith,
}
use wapi.Abi.{ok, err_inval, err_io}
use wapi.Guest.{Guest, peek}
use wapi.Fs.{CLib}
use wapi.Fs.Views.{read_stringview}
use wapi.Fs.Opening.{Target-cases, refused, target, wb}
use wapi.Fs.Streams.{buffer}
use wapi.Kv.{
  Kv, sanitize_key, build_key_path, storage_path, ensure_kv_dir, resolve_key_path, set_file, set_at,
  set,
}
use wapi.Kv.RoundTrip.{FileLaws}

-- How the path of a key comes about.
pub record Resolved (m : Guest) (stored : List ℕ) (key_sv : ℕ) (key path : List ℕ) : Type 0 where
  pub is_key : read_stringview m key_sv 256 ≡ some key
  pub name : List ℕ
  pub is_name : sanitize_key key ≡ some name
  pub is_path : build_key_path (storage_path stored) name ≡ some path

pub storage_path_again : (p : List ℕ) → storage_path (storage_path p) ≡ storage_path p
storage_path_again [] = refl
storage_path_again (c ∷ cs) = ground arith

module _ {W : Type 0} (lib : CLib W) where
  -- `ensure_kv_dir` settles the directory and changes nothing of the guest.
  pub ensure_kv_dir-same :
      (s : Kv W)
      → ((ensure_kv_dir lib s).1.guest ≡ s.guest)
        × ((ensure_kv_dir lib s).1.kv_storage_path ≡ storage_path s.kv_storage_path)
  unfolding ensure_kv_dir
  ensure_kv_dir-same s = ground arith

  -- The two ways in which a key is resolved.
  pub resolve_key_path-ok :
      (s : Kv W) (key_sv : ℕ) {key path : List ℕ}
      → Resolved s.guest s.kv_storage_path key_sv key path
      → (ensure_kv_dir lib s).0 ≡ true
      → resolve_key_path lib key_sv s ≡ (target path, (ensure_kv_dir lib s).1)
  unfolding resolve_key_path
  resolve_key_path-ok s key_sv r ready =
      rw (resolve_key_path, r.is_key, ready, r.is_name, (ensure_kv_dir-same s).1, r.is_path) refl

  resolve_key_path-refused :
      (s : Kv W) (key_sv : ℕ) {e : ℕ} → (resolve_key_path lib key_sv s).0 ≡ refused e → e ≢ ok
  unfolding resolve_key_path
  resolve_key_path-refused s key_sv h q = ground arith

  resolve_key_path-target :
      (s : Kv W) (key_sv : ℕ) {path : List ℕ}
      → (resolve_key_path lib key_sv s).0 ≡ target path
      → (key : List ℕ) × Resolved s.guest s.kv_storage_path key_sv key path
        × ((ensure_kv_dir lib s).0 ≡ true)
  unfolding resolve_key_path
  resolve_key_path-target s key_sv {path} h =
      elim (Option-cases (read_stringview s.guest key_sv 256)) [
        | inl e ↦ absurd (ground arith)
        | inr (key, e) ↦ elim (Bool-cases (ensure_kv_dir lib s).0) [
          | inr r ↦ absurd (ground arith)
          | inl r ↦ elim (Option-cases (sanitize_key key)) [
            | inl n ↦ absurd (ground arith)
            | inr (name, n) ↦
                elim (Option-cases (build_key_path (ensure_kv_dir lib s).1.kv_storage_path name)) [
                  | inl b ↦ absurd (ground arith)
                  | inr (path', b) ↦ (
                    key,
                    record {
                      is_key = e;
                      name = name;
                      is_name = n;
                      is_path =
                          ap (λ d. build_key_path d name) (sym (ensure_kv_dir-same s).1)
                          ∙ b
                          ∙ ground arith;
                    },
                    r,
                  )
                ]
          ]
        ]
      ]

  set_file-Holds :
      (Holds : W → List ℕ → List ℕ → Type 0) (Flushed Readable : W → Type 0) (s : Kv W)
      (path value : List ℕ) (f : ℕ)
      → FileLaws lib Holds Flushed Readable
      → (lib.fopen s.world path wb).0 ≡ some f
      → (set_file lib f value (record s { world = (lib.fopen s.world path wb).1 })).0 ≡ ok
      → Flushed (set_file lib f value (record s { world = (lib.fopen s.world path wb).1 })).1.world
      → Holds
          (set_file lib f value (record s { world = (lib.fopen s.world path wb).1 })).1.world
          path
          value
  unfolding set_file
  set_file-Holds Holds Flushed Readable s path [] f laws opened h flushed =
      laws.empties s.world path f opened flushed
  set_file-Holds Holds Flushed Readable s path (v ∷ vs) f laws opened h flushed =
      let written = (lib.fwrite (lib.fopen s.world path wb).1 f (v ∷ vs)).0 in
      let some_bytes : (length (v ∷ vs) == 0) ≡ false = ground arith in
      elim (Bool-cases (written == length (v ∷ vs))) [
        | inr e ↦
            let failed : err_io ≡ ok = rw (set_file, some_bytes, e) at h in
            absurd (omega (arith, failed))
        | inl e ↦
            rw (set_file, some_bytes)
              (laws.stores s.world path (v ∷ vs) f opened ((==_iff _ _).0 e)
                (rw (set_file, some_bytes) at flushed))
      ]

  set_file-same :
      (f : ℕ) (value : List ℕ) (s : Kv W)
      → (set_file lib f value s).1.kv_storage_path ≡ s.kv_storage_path
  unfolding set_file
  set_file-same f value s = ground arith

  -- What `set` has done where it answers OK.
  pub record WasSet (Holds : W → List ℕ → List ℕ → Type 0) (key_sv val_ptr val_len : ℕ)
      (s s' : Kv W) : Type 0 where
    pub key : List ℕ
    pub path : List ℕ
    pub resolved : Resolved s.guest s.kv_storage_path key_sv key path
    pub place : ℕ
    pub is_place : buffer s.guest val_ptr val_len ≡ some place
    pub holds : Holds s'.world path (peek s.guest place val_len)
    pub same_dir : s'.kv_storage_path ≡ storage_path s.kv_storage_path

  pub set-WasSet :
      (Holds : W → List ℕ → List ℕ → Type 0) (Flushed Readable : W → Type 0) (s : Kv W)
      (key_sv val_ptr val_len : ℕ)
      → FileLaws lib Holds Flushed Readable
      → (set lib key_sv val_ptr val_len s).0 ≡ ok
      → Flushed (set lib key_sv val_ptr val_len s).1.world
      → WasSet Holds key_sv val_ptr val_len s (set lib key_sv val_ptr val_len s).1
  unfolding set set_at
  set-WasSet Holds Flushed Readable s key_sv val_ptr val_len laws h flushed =
      elim (Target-cases (resolve_key_path lib key_sv s).0) [
        | inl (e, r) ↦ absurd (resolve_key_path-refused s key_sv r (rw (set, r, set_at) at h))
        | inr (path, r) ↦
            let (key, resolved, ready) = resolve_key_path-target s key_sv r in
            let (same_guest, same_dir) = ensure_kv_dir-same s in
            let s1 = (ensure_kv_dir lib s).1 in
            let all = resolve_key_path-ok s key_sv resolved ready in
            elim (Option-cases (buffer s1.guest val_ptr val_len)) [
              | inl b ↦
                  let failed : err_inval ≡ ok = rw (set, all, set_at, b) at h in
                  absurd (omega (arith, failed))
              | inr (place, b) ↦ elim (Option-cases (lib.fopen s1.world path wb).0) [
                | inl o ↦
                    let failed : err_io ≡ ok = rw (set, all, set_at, b, o) at h in
                    absurd (omega (arith, failed))
                | inr (f, o) ↦
                    let done = rw (set, all, set_at, b, o) at h in
                    let closed = rw (set, all, set_at, b, o) at flushed in
                    rw (set, all, set_at, b, o)
                      (record {
                        key = key;
                        path = path;
                        resolved = resolved;
                        place = place;
                        is_place = ap (λ g. buffer g val_ptr val_len) (sym same_guest) ∙ b;
                        holds =
                            subst
                              (λ g.
                                Holds
                                  (set_file lib f (peek s1.guest place val_len)
                                    (record s1 { world = (lib.fopen s1.world path wb).1 })).1.world
                                  path (peek g place val_len))
                              same_guest
                              (set_file-Holds Holds Flushed Readable s1 path
                                (peek s1.guest place val_len) f laws o done closed);
                        same_dir =
                            set_file-same f (peek s1.guest place val_len)
                              (record s1 { world = (lib.fopen s1.world path wb).1 })
                            ∙ same_dir;
                      })
              ]
            ]
      ]
