-- ===== src/Fs/Sandbox/Calls.antt =====
-- The imports of runtime/desktop/src/wapi_host_fs.c, one by one, keep the invariant of the sandbox.
use wapi.Base.{
  ℕ, ◌≡◌, refl, sym, subst, ◌≢◌, inl, inr, Bool, false, Option, none, some, List, leb, ◌&&◌, take,
  ◌==◌, if◌then◌else◌, Bool-cases, Option-cases, arith,
}
use wapi.Handles.{Handles, same_type_iff, file, directory, preopen_dir, alloc, valid}
use wapi.Handles.Alloc.{Outcome, took, full, alloc-Outcome}
use wapi.Abi.{err_acces}
use wapi.Fs.{stream, set_error, CLib, Fs, Payload, zeroed, dir}
use wapi.Namespaces.{c_string}
use wapi.Fs.Views.{read_stringview}
use wapi.Fs.Paths.{preopen_path, resolve_path}
use wapi.Fs.Paths.Confined.{Rooted, Rooted-take}
use wapi.Fs.Opening.{
  Target-cases, cannot_resolve, has_bit, o_directory, open_stream, target, target_of,
  open_directory, open_file, open_path, close, path_command, mkdir, rmdir, unlink, rename,
}
use wapi.Fs.Streams.{read, write, pread, pwrite, seek, sync, set_size}
use wapi.Fs.Stats.{report_stat, stat, path_stat}
use wapi.Fs.Listing.{fill_page, readdir}
use wapi.Fs.Sandbox.{IsRooted, IsRooted-new, IsRooted-release, resolve_path-Rooted}

-- The imports that change the state, with their arguments in order.
pub data Call : Type 0 where
  call_preopen_path : ℕ → ℕ → ℕ → ℕ → Call
  call_open : ℕ → ℕ → ℕ → ℕ → ℕ → Call
  call_read call_write : ℕ → ℕ → ℕ → ℕ → Call
  call_pread call_pwrite : ℕ → ℕ → ℕ → ℕ → ℕ → Call
  call_seek : ℕ → ℕ → ℕ → ℕ → Call
  call_close call_sync : ℕ → Call
  call_stat call_set_size : ℕ → ℕ → Call
  call_path_stat : ℕ → ℕ → ℕ → Call
  call_mkdir call_rmdir call_unlink : ℕ → ℕ → Call
  call_rename : ℕ → ℕ → ℕ → ℕ → Call
  call_readdir : ℕ → ℕ → ℕ → ℕ → ℕ → Call

-- The functions that `wapi_host_register_fs` links.
unfoldable pub step : {W : Type 0} → CLib W → Call → Fs W → ℕ × Fs W
step lib (call_preopen_path i b n l) s = preopen_path i b n l s
step lib (call_open d p o f out) s = open_path lib d p o f out s
step lib (call_read fd b n out) s = read lib fd b n out s
step lib (call_write fd b n out) s = write lib fd b n out s
step lib (call_pread fd b n o out) s = pread lib fd b n o out s
step lib (call_pwrite fd b n o out) s = pwrite lib fd b n o out s
step lib (call_seek fd o w out) s = seek lib fd o w out s
step lib (call_close fd) s = close lib fd s
step lib (call_sync fd) s = sync lib fd s
step lib (call_stat fd p) s = stat lib fd p s
step lib (call_set_size fd n) s = set_size lib fd n s
step lib (call_path_stat d p out) s = path_stat lib d p out s
step lib (call_mkdir d p) s = mkdir lib d p s
step lib (call_rmdir d p) s = rmdir lib d p s
step lib (call_unlink d p) s = unlink lib d p s
step lib (call_rename d p e q) s = rename lib d p e q s
step lib (call_readdir fd b n c out) s = readdir lib fd b n c out s

abbrev pub Holds : {W : Type 0} → Fs W → Type 0
Holds s = IsRooted s.handles s.preopens

pub file≢directory : file ≢ directory
file≢directory e = ground (arith, (same_type_iff file directory).1 e)

pub preopen_dir≢directory : preopen_dir ≢ directory
preopen_dir≢directory e = ground (arith, (same_type_iff preopen_dir directory).1 e)

module _ {W : Type 0} where
  -- What a target is made of.
  target_of-resolved :
      (s : Fs W) (dir_fd path_sv : ℕ) {path : List ℕ}
      → target_of s dir_fd path_sv ≡ target path
      → (rel : List ℕ) × (resolve_path s dir_fd rel 1024 ≡ some path)
  unfolding target_of
  target_of-resolved s dir_fd path_sv {path} h =
      elim (Option-cases (read_stringview s.guest path_sv 512)) [
        | inl n ↦ absurd (ground arith)
        | inr (rel, e) ↦ (c_string rel, ground arith)
      ]

  -- A path that an import gives to the C library.
  pub target_of-Rooted :
      (s : Fs W) (dir_fd path_sv : ℕ) {path : List ℕ}
      → Holds s
      → target_of s dir_fd path_sv ≡ target path
      → Rooted s.preopens path
  target_of-Rooted s dir_fd path_sv inv h =
      let (rel, e) = target_of-resolved s dir_fd path_sv h in resolve_path-Rooted s dir_fd rel inv e

  -- What leaves the table and the list of directories alone keeps the invariant.
  abbrev Same : Fs W → Fs W → Type 0
  Same s s' = (s'.handles ≡ s.handles) × (s'.preopens ≡ s.preopens)

  Same-Holds : (s s' : Fs W) → Same s s' → Holds s → Holds s'
  Same-Holds s s' same inv =
      subst (λ t. IsRooted t s'.preopens) (sym same.0)
        (subst (λ p. IsRooted s.handles p) (sym same.1) inv)

  preopen_path-Same : (i b n out : ℕ) (s : Fs W) → Same s (preopen_path i b n out s).1
  unfolding preopen_path
  preopen_path-Same i b n out s = ground arith

  open_directory-Holds :
      (path : List ℕ) (out : ℕ) (s : Fs W)
      → Rooted s.preopens path
      → Holds s
      → Holds (open_directory path out s).1
  unfolding open_directory
  open_directory-Holds path out s r inv =
      go refl (alloc-Outcome zeroed s.handles directory inv.cursor)
    where
      go :
          {q : ℕ × Handles Payload}
          → alloc zeroed s.handles directory ≡ q
          → Outcome zeroed s.handles directory q
          → Holds (open_directory path out s).1
      go {q} e (took {h} {t'} a) =
          let apart : (h == 0) ≡ false = ground (arith, a.above_streams) in
          rw (open_directory, e, apart)
            (IsRooted-new (dir (take 511 path)) inv a (λ d. Rooted-take 511 r (omega arith)))
      go e (full f) = rw (open_directory, e) inv

module _ {W : Type 0} (lib : CLib W) where
  read-Same : (fd b n out : ℕ) (s : Fs W) → Same s (read lib fd b n out s).1
  unfolding read
  read-Same fd b n out s = ground arith

  pread-Same : (fd b n o out : ℕ) (s : Fs W) → Same s (pread lib fd b n o out s).1
  unfolding pread
  pread-Same fd b n o out s = ground arith

  seek-Same : (fd o w out : ℕ) (s : Fs W) → Same s (seek lib fd o w out s).1
  unfolding seek
  seek-Same fd o w out s = ground arith

  path_command-Same :
      (call : W → List ℕ → Bool × W) (d p : ℕ) (s : Fs W) → Same s (path_command lib call d p s).1
  unfolding path_command
  path_command-Same call d p s = ground arith

  rename-Same : (d p e q : ℕ) (s : Fs W) → Same s (rename lib d p e q s).1
  unfolding rename
  rename-Same d p e q s = ground arith

  write-Same : (fd b n out : ℕ) (s : Fs W) → Same s (write lib fd b n out s).1
  unfolding write
  write-Same fd b n out s = ground arith

  pwrite-Same : (fd b n o out : ℕ) (s : Fs W) → Same s (pwrite lib fd b n o out s).1
  unfolding pwrite
  pwrite-Same fd b n o out s = ground arith

  sync-Same : (fd : ℕ) (s : Fs W) → Same s (sync lib fd s).1
  unfolding sync
  sync-Same fd s = ground arith

  set_size-Same : (fd n : ℕ) (s : Fs W) → Same s (set_size lib fd n s).1
  unfolding set_size
  set_size-Same fd n s = ground arith

  stat-Same : (fd p : ℕ) (s : Fs W) → Same s (stat lib fd p s).1
  unfolding stat report_stat
  stat-Same fd p s = ground arith

  path_stat-Same : (d p out : ℕ) (s : Fs W) → Same s (path_stat lib d p out s).1
  unfolding path_stat report_stat
  path_stat-Same d p out s = ground arith

  readdir-Same : (fd b n c out : ℕ) (s : Fs W) → Same s (readdir lib fd b n c out s).1
  unfolding readdir fill_page
  readdir-Same fd b n c out s = ground arith

  open_file-Holds :
      (path : List ℕ) (o f out : ℕ) (s : Fs W) → Holds s → Holds (open_file lib path o f out s).1
  unfolding open_file
  open_file-Holds path o f out s inv =
      let (opened, w) = open_stream lib path o f s.world in
      go opened w refl refl (alloc-Outcome zeroed s.handles file inv.cursor)
    where
      go :
          {q : ℕ × Handles Payload} (opened : Option ℕ) (w : W)
          → open_stream lib path o f s.world ≡ (opened, w)
          → alloc zeroed s.handles file ≡ q
          → Outcome zeroed s.handles file q
          → Holds (open_file lib path o f out s).1
      go none w g e _ = rw (open_file, g) inv
      go (some n) w g e (took {h} {t'} a) =
          let apart : (h == 0) ≡ false = ground (arith, a.above_streams) in
          rw (open_file, g, e, apart)
            (IsRooted-new (stream n) inv a (λ d. absurd (file≢directory d)))
      go (some n) w g e (full f) = rw (open_file, g, e) inv

  open_path-Holds : (d p o f out : ℕ) (s : Fs W) → Holds s → Holds (open_path lib d p o f out s).1
  unfolding open_path
  open_path-Holds d p o f out s inv = elim (Target-cases (target_of s d p)) [
    | inl (e, h) ↦
        rw (open_path, h)
          (Same-Holds s (if e == err_acces then set_error cannot_resolve s else s) (ground arith)
            inv)
    | inr (path, h) ↦ elim (Bool-cases (has_bit o o_directory)) [
      | inl b ↦
          rw (open_path, h, b) (open_directory-Holds path out s (target_of-Rooted s d p inv h) inv)
      | inr b ↦ rw (open_path, h, b) (open_file-Holds path o f out s inv)
    ]
  ]

  close-Holds : (fd : ℕ) (s : Fs W) → Holds s → Holds (close lib fd s).1
  unfolding close
  close-Holds fd s inv = elim (Bool-cases (leb 1 fd && leb fd 3)) [
    | inl a ↦ rw (close, a) inv
    | inr a ↦ elim (Bool-cases (valid s.handles fd file)) [
      | inl b ↦ rw (close, a, b) (IsRooted-release fd inv)
      | inr b ↦ elim (Bool-cases (valid s.handles fd directory)) [
        | inl c ↦ rw (close, a, b, c) (IsRooted-release fd inv)
        | inr c ↦ rw (close, a, b, c) inv
      ]
    ]
  ]

  pub step-Holds : (c : Call) (s : Fs W) → Holds s → Holds (step lib c s).1
  unfolding step mkdir rmdir unlink
  step-Holds (call_preopen_path i b n l) s =
      Same-Holds s (preopen_path i b n l s).1 (preopen_path-Same i b n l s)
  step-Holds (call_open d p o f out) s = open_path-Holds d p o f out s
  step-Holds (call_read fd b n out) s =
      Same-Holds s (read lib fd b n out s).1 (read-Same fd b n out s)
  step-Holds (call_write fd b n out) s =
      Same-Holds s (write lib fd b n out s).1 (write-Same fd b n out s)
  step-Holds (call_pread fd b n o out) s =
      Same-Holds s (pread lib fd b n o out s).1 (pread-Same fd b n o out s)
  step-Holds (call_pwrite fd b n o out) s =
      Same-Holds s (pwrite lib fd b n o out s).1 (pwrite-Same fd b n o out s)
  step-Holds (call_seek fd o w out) s =
      Same-Holds s (seek lib fd o w out s).1 (seek-Same fd o w out s)
  step-Holds (call_close fd) s = close-Holds fd s
  step-Holds (call_sync fd) s = Same-Holds s (sync lib fd s).1 (sync-Same fd s)
  step-Holds (call_stat fd p) s = Same-Holds s (stat lib fd p s).1 (stat-Same fd p s)
  step-Holds (call_set_size fd n) s = Same-Holds s (set_size lib fd n s).1 (set_size-Same fd n s)
  step-Holds (call_path_stat d p out) s =
      Same-Holds s (path_stat lib d p out s).1 (path_stat-Same d p out s)
  step-Holds (call_mkdir d p) s =
      Same-Holds s (path_command lib lib.mkdir d p s).1 (path_command-Same lib.mkdir d p s)
  step-Holds (call_rmdir d p) s =
      Same-Holds s (path_command lib lib.rmdir d p s).1 (path_command-Same lib.rmdir d p s)
  step-Holds (call_unlink d p) s =
      Same-Holds s (path_command lib lib.remove d p s).1 (path_command-Same lib.remove d p s)
  step-Holds (call_rename d p e q) s = Same-Holds s (rename lib d p e q s).1 (rename-Same d p e q s)
  step-Holds (call_readdir fd b n c out) s =
      Same-Holds s (readdir lib fd b n c out s).1 (readdir-Same fd b n c out s)
