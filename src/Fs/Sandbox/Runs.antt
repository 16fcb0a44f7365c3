-- ===== src/Fs/Sandbox/Runs.antt =====
-- What the guest, the imports of runtime/desktop/src/wapi_host_fs.c and the rest of the host do one
-- after the other, from the start on.
use wapi.Base.{
  length-take_le, ℕ, ◌≤◌, ◌≡◌, refl, sym, subst, ◌≢◌, ◌⊎◌, inl, inr, false, some, List, [], ◌∷◌,
  ◌++◌, leb, take, length, ◌==◌, Bool-cases, arith,
}
use wapi.Guest.{Guest}
use wapi.Handles.{Handles, directory, preopen_dir, type_at, payload_at, alloc}
use wapi.Handles.Alloc.{IsValid, Outcome, took, full, alloc-Outcome}
use wapi.Fs.{CLib, Fs, Payload, zeroed, dir, dir_of, Preopen}
use wapi.Fs.Paths.{preopen_path_of, max_preopens, init_stdio_handles, add_preopen}
use wapi.Fs.Paths.Confined.{Rooted, here, Under-refl, Rooted-more, Rooted-last}
use wapi.Fs.Opening.{target, target_of}
use wapi.Fs.Sandbox.{IsRooted, IsRooted-new}
use wapi.Fs.Sandbox.Calls.{
  Call, step, Holds, file≢directory, preopen_dir≢directory, target_of-Rooted, step-Holds,
}

-- What the rest of the host does to the handle table: it makes and changes no directory.
pub record Elsewhere (t t' : Handles Payload) : Type 0 where
  pub cursor : IsValid t'
  pub dirs :
      (h : ℕ)
      → type_at t' h ≡ directory
      → (type_at t h ≡ directory) × (payload_at t' h ≡ payload_at t h)

-- The states of a run: `main` sets up the streams on an empty table and adds directories; then come
-- calls, between which the guest changes its memory, the world goes on and the rest of the host uses
-- the handle table.
pub data Run {W : Type 0} (lib : CLib W) : Fs W → Type 0 where
  started :
      (s : Fs W)
      → ((h : ℕ) → type_at s.handles h ≢ directory)
      → s.preopens ≡ []
      → Run lib (init_stdio_handles lib s)
  added :
      {s : Fs W} (host_path guest_path : List ℕ)
      → Run lib s
      → Run lib (add_preopen host_path guest_path s)
  called : {s : Fs W} (c : Call) → Run lib s → Run lib (step lib c s).1
  between :
      {s : Fs W} (m : Guest) (w : W) (t : Handles Payload)
      → Elsewhere s.handles t
      → Run lib s
      → Run lib (record s { guest = m; world = w; handles = t })

module _ {W : Type 0} (lib : CLib W) where
  init_stdio_handles-Holds :
      (s : Fs W)
      → ((h : ℕ) → type_at s.handles h ≢ directory)
      → s.preopens ≡ []
      → Holds (init_stdio_handles lib s)
  unfolding init_stdio_handles
  init_stdio_handles-Holds s no_dirs no_roots = record {
    cursor = record { low = omega arith; high = omega arith };
    dirs = λ h is_dir. absurd (is_none h is_dir);
    roots = λ fd {base} e. absurd (ground arith);
  }
    where
      is_none : (h : ℕ) → type_at (init_stdio_handles lib s).handles h ≢ directory
      is_none h is_dir = ground (arith, file≢directory, no_dirs h)

-- A lookup in a list that got one more entry.
preopen_path_of-snoc :
    (pos : List Preopen) (po : Preopen) (fd : ℕ) {base : List ℕ}
    → preopen_path_of (pos ++ po ∷ []) fd ≡ some base
    → (preopen_path_of pos fd ≡ some base) ⊎ (base ≡ po.host_path)
preopen_path_of-snoc [] po fd e = ground arith
preopen_path_of-snoc (q ∷ pos) po fd e = elim (Bool-cases (q.handle == fd)) [
  | inl h ↦ inl (rw h (rw h at e))
  | inr h ↦ elim (preopen_path_of-snoc pos po fd (rw h at e)) [
    | inl old ↦ inl (rw h old)
    | inr new ↦ inr new
  ]
]

-- The invariant with one more pre-opened directory.
IsRooted-more :
    {t : Handles Payload} {pos : List Preopen} (po : Preopen)
    → length po.host_path ≤ 511
    → IsRooted t pos
    → IsRooted t (pos ++ po ∷ [])
IsRooted-more {t} {pos} po short inv = record {
  cursor = record { low = inv.cursor.low; high = inv.cursor.high };
  dirs = λ h is_dir. Rooted-more (po ∷ []) (inv.dirs h is_dir);
  roots = λ fd {base} e. elim (preopen_path_of-snoc pos po fd e) [
    | inl old ↦ Rooted-more (po ∷ []) (inv.roots fd old)
    | inr new ↦
        subst (λ b. Rooted (pos ++ po ∷ []) b) (sym new)
          (Rooted-last pos (here short (Under-refl po.host_path)))
  ];
}

module _ {W : Type 0} where
  add_preopen-Holds :
      (host_path guest_path : List ℕ) (s : Fs W)
      → Holds s
      → Holds (add_preopen host_path guest_path s)
  unfolding add_preopen
  add_preopen-Holds host_path guest_path s inv =
      elim (Bool-cases (leb max_preopens (length s.preopens))) [
        | inl b ↦ rw (add_preopen, b) inv
        | inr b ↦ go b refl (alloc-Outcome zeroed s.handles preopen_dir inv.cursor)
      ]
    where
      go :
          {q : ℕ × Handles Payload}
          → leb max_preopens (length s.preopens) ≡ false
          → alloc zeroed s.handles preopen_dir ≡ q
          → Outcome zeroed s.handles preopen_dir q
          → Holds (add_preopen host_path guest_path s)
      go b e (took {h} {t'} a) =
          let apart : (h == 0) ≡ false = ground (arith, a.above_streams) in
          rw (add_preopen, b, e, apart)
            (IsRooted-more _ (length-take_le 511 host_path) (
              IsRooted-new (dir (take 511 host_path)) inv a
                (λ d. absurd (preopen_dir≢directory d))))
      go b e (full f) = rw (add_preopen, b, e) inv

module _ {W : Type 0} (lib : CLib W) where
  Elsewhere-Holds :
      (s : Fs W) (m : Guest) (w : W) (t : Handles Payload)
      → Elsewhere s.handles t
      → Holds s
      → Holds (record s { guest = m; world = w; handles = t })
  Elsewhere-Holds s m w t other inv = record {
    cursor = record { low = other.cursor.low; high = other.cursor.high };
    dirs = λ h is_dir.
        let (was_dir, same) = other.dirs h is_dir in
        subst (λ d. Rooted s.preopens (dir_of d)) (sym same) (inv.dirs h was_dir);
    roots = inv.roots;
  }

  Run-Holds : {s : Fs W} → Run lib s → Holds s
  Run-Holds (started s no_dirs no_roots) = init_stdio_handles-Holds lib s no_dirs no_roots
  Run-Holds (added {s} h g r) = add_preopen-Holds h g s (Run-Holds r)
  Run-Holds (called {s} c r) = step-Holds lib c s (Run-Holds r)
  Run-Holds (between {s} m w t other r) = Elsewhere-Holds s m w t other (Run-Holds r)

  -- In every state of a run, from the set-up by `init_stdio_handles` and `add_preopen` through
  -- any calls of the file system's imports, with any changes of the guest's memory, of the world
  -- and of handles that are no directories in between, a path that `read_stringview` and
  -- `resolve_path` make of a handle and a view for the C library lies under the host path of a
  -- pre-opened directory: it is that path, or that path, a separator and names along which a walk
  -- never climbs above it.
  pub Run-Rooted :
      {s : Fs W} (dir_fd path_sv : ℕ) {path : List ℕ}
      → Run lib s
      → target_of s dir_fd path_sv ≡ target path
      → Rooted s.preopens path
  Run-Rooted {s} dir_fd path_sv r e = target_of-Rooted s dir_fd path_sv (Run-Holds r) e
