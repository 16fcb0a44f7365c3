-- ===== src/Fs/Opening.antt =====
-- The imports of runtime/desktop/src/wapi_host_fs.c that take paths or close handles.
use wapi.Base.{
  ◌≡◌, refl, ◌⊎◌, inl, inr, ℕ, ◌/◌, ◌%◌, ◌&&◌, not, Bool, Option, none, some, List, [], ◌∷◌, take,
  leb, ◌==◌, if◌then◌else◌,
}
use wapi.Abi.{ok, err_inval, err_acces, err_nomem, err_badf}
use wapi.Guest.{write_u32}
use wapi.Handles.{file, directory, payload_at, set_payload, alloc, valid, release}
use wapi.Namespaces.{c_string}
use wapi.Fs.{CLib, Fs, zeroed, stream, dir, stream_of, errno_to_tp, set_error}
use wapi.Fs.Views.{read_stringview}
use wapi.Fs.Paths.{resolve_path}

-- `flags & b`, for a power of two `b`.
abbrev pub has_bit : ℕ → ℕ → Bool
has_bit flags b = (flags / b) % 2 == 1

-- The modes of `fopen`.
abbrev ab : List ℕ
ab = 97 ∷ 98 ∷ []

abbrev pub wb : List ℕ
wb = 119 ∷ 98 ∷ []

abbrev pub rb : List ℕ
rb = 114 ∷ 98 ∷ []

abbrev wxb : List ℕ
wxb = 119 ∷ 120 ∷ 98 ∷ []

abbrev r_plus_b : List ℕ
r_plus_b = 114 ∷ 43 ∷ 98 ∷ []

abbrev w_plus_b : List ℕ
w_plus_b = 119 ∷ 43 ∷ 98 ∷ []

abbrev o_create : ℕ
o_create = 1

abbrev pub o_directory : ℕ
o_directory = 2

abbrev o_excl : ℕ
o_excl = 4

abbrev o_trunc : ℕ
o_trunc = 8

abbrev f_append : ℕ
f_append = 1

unfoldable pub mode_of : ℕ → ℕ → List ℕ
mode_of oflags fdflags =
    if has_bit oflags o_create
    then (if has_bit oflags o_trunc
        then (if has_bit fdflags f_append then ab else wb)
        else if has_bit oflags o_excl
        then wxb
        else if has_bit fdflags f_append
        then ab
        else r_plus_b)
    else if has_bit oflags o_trunc
    then wb
    else rb

-- Whether, and how, a failed `fopen` is tried again.
unfoldable pub second_mode : ℕ → ℕ → Option (List ℕ)
second_mode oflags fdflags =
    if has_bit oflags o_create && not (has_bit oflags o_excl)
    then some (if has_bit fdflags f_append then ab else w_plus_b)
    else none

-- What `open` cannot resolve.
abbrev pub cannot_resolve : List ℕ
cannot_resolve =
    67 ∷ 97 ∷ 110 ∷ 110 ∷ 111 ∷ 116 ∷ 32 ∷ 114 ∷ 101 ∷ 115 ∷ 111 ∷ 108 ∷ 118 ∷ 101 ∷ 32 ∷ 112 ∷ 97
    ∷ 116 ∷ 104 ∷ []

-- The path that an import gives to the C library, or the result with which it ends before.
pub data Target : Type 0 where
  refused : ℕ → Target
  target : List ℕ → Target

pub Target-cases : (t : Target) → ((e : ℕ) × (t ≡ refused e)) ⊎ ((p : List ℕ) × (t ≡ target p))
Target-cases (refused e) = inl (e, refl)
Target-cases (target p) = inr (p, refl)

module _ {W : Type 0} where
  -- `read_stringview` to 512 bytes and `resolve_path` to 1024, as all these imports begin.
  unfoldable pub target_of : Fs W → ℕ → ℕ → Target
  target_of s dir_fd path_sv = elim (read_stringview s.guest path_sv 512) [
    | none ↦ refused err_inval
    | some rel ↦ elim (resolve_path s dir_fd (c_string rel) 1024) [
      | none ↦ refused err_acces
      | some path ↦ target path
    ]
  ]

  -- A handle for a directory, of which nothing asks whether it exists.
  unfoldable pub open_directory : List ℕ → ℕ → Fs W → ℕ × Fs W
  open_directory path fd_out_ptr s =
      let (handle, t) = alloc zeroed s.handles directory in
      if handle == 0 then (err_nomem, record s { handles = t }) else (
        ok,
        record s {
          handles = set_payload t handle (dir (take 511 path));
          guest = (write_u32 s.guest fd_out_ptr handle).1;
        },
      )

module _ {W : Type 0} (lib : CLib W) where
  unfoldable pub open_stream : List ℕ → ℕ → ℕ → W → Option ℕ × W
  open_stream path oflags fdflags w =
      let (f, w1) = lib.fopen w path (mode_of oflags fdflags) in
      elim f [
        | some n ↦ (some n, w1)
        | none ↦ elim (second_mode oflags fdflags) [
          | none ↦ (none, w1)
          | some mode ↦ lib.fopen w1 path mode
        ]
      ]

  unfoldable pub open_file : List ℕ → ℕ → ℕ → ℕ → Fs W → ℕ × Fs W
  open_file path oflags fdflags fd_out_ptr s =
      let (f, w) = open_stream path oflags fdflags s.world in
      elim f [
        | none ↦ (
          errno_to_tp (lib.errno w),
          set_error (lib.strerror (lib.errno w)) (record s { world = w }),
        )
        | some n ↦
            let (handle, t) = alloc zeroed s.handles file in
            if handle == 0 then (err_nomem, record s { handles = t; world = lib.fclose w n }) else (
              ok,
              record s {
                handles = set_payload t handle (stream n);
                guest = (write_u32 s.guest fd_out_ptr handle).1;
                world = w;
              },
            )
      ]

  -- `host_fs_open`
  unfoldable pub open_path : ℕ → ℕ → ℕ → ℕ → ℕ → Fs W → ℕ × Fs W
  open_path dir_fd path_sv oflags fdflags fd_out_ptr s = elim (target_of s dir_fd path_sv) [
    | refused e ↦ (e, if e == err_acces then set_error cannot_resolve s else s)
    | target path ↦
        if has_bit oflags o_directory
        then open_directory path fd_out_ptr s
        else open_file path oflags fdflags fd_out_ptr s
  ]

  -- `host_fs_close`
  unfoldable pub close : ℕ → Fs W → ℕ × Fs W
  close fd s =
      if leb 1 fd && leb fd 3
      then (ok, s)
      else if valid s.handles fd file
      then (
        ok,
        record s {
          handles = release zeroed s.handles fd;
          world = lib.fclose s.world (stream_of (payload_at s.handles fd));
        },
      )
      else if valid s.handles fd directory
      then (ok, record s { handles = release zeroed s.handles fd })
      else (err_badf, s)

  -- The result of a call of the C library that reports success or sets `errno`.
  abbrev pub settle : Fs W → Bool × W → ℕ × Fs W
  settle s (success, w) =
      (if success then ok else errno_to_tp (lib.errno w), record s { world = w })

  -- `PATH_CMD_IMPL`
  unfoldable pub path_command : (W → List ℕ → Bool × W) → ℕ → ℕ → Fs W → ℕ × Fs W
  path_command call dir_fd path_sv s = elim (target_of s dir_fd path_sv) [
    | refused e ↦ (e, s)
    | target path ↦ settle s (call s.world path)
  ]

  unfoldable pub mkdir : ℕ → ℕ → Fs W → ℕ × Fs W
  mkdir = path_command lib.mkdir

  unfoldable pub rmdir : ℕ → ℕ → Fs W → ℕ × Fs W
  rmdir = path_command lib.rmdir

  unfoldable pub unlink : ℕ → ℕ → Fs W → ℕ × Fs W
  unlink = path_command lib.remove

  -- Both views are read before either path is resolved.
  unfoldable pub rename_targets : Fs W → ℕ → ℕ → ℕ → ℕ → Option ℕ × List ℕ × List ℕ
  rename_targets s old_dir old_sv new_dir new_sv = elim (read_stringview s.guest old_sv 512) [
    | none ↦ (some err_inval, [], [])
    | some old_rel ↦ elim (read_stringview s.guest new_sv 512) [
      | none ↦ (some err_inval, [], [])
      | some new_rel ↦ elim (resolve_path s old_dir (c_string old_rel) 1024) [
        | none ↦ (some err_acces, [], [])
        | some old_path ↦ elim (resolve_path s new_dir (c_string new_rel) 1024) [
          | none ↦ (some err_acces, [], [])
          | some new_path ↦ (none, old_path, new_path)
        ]
      ]
    ]
  ]

  -- `host_fs_rename`
  unfoldable pub rename : ℕ → ℕ → ℕ → ℕ → Fs W → ℕ × Fs W
  rename old_dir old_sv new_dir new_sv s =
      let (failed, old_path, new_path) = rename_targets s old_dir old_sv new_dir new_sv in
      elim failed [ some e ↦ (e, s) | none ↦ settle s (lib.rename s.world old_path new_path) ]
