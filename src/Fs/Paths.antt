-- ===== src/Fs/Paths.antt =====
-- `resolve_path` of runtime/desktop/src/wapi_host_fs.c, the pre-opened directories of its imports, and
-- their set-up in main.c.
pub mod Confined
use wapi.Base.{
  ℕ, zero, suc, ◌+◌, ◌-◌, ◌&&◌, ◌||◌, not, Bool, true, false, Option, none, some, List, [], ◌∷◌,
  ◌++◌, length, take, update, leb, ltb, ◌==◌, if◌then◌else◌,
}
use wapi.Base.Bytes.{to_le}
use wapi.Abi.{ok, err_range, u32, is_neg}
use wapi.Guest.{Guest, write_bytes, write_u64}
use wapi.Handles.{
  Handles, Entry, HandleType, file, directory, preopen_dir, same_type, type_at, payload_at,
  set_payload, alloc, valid,
}
use wapi.Fs.{CLib, Fs, Payload, zeroed, stream, dir, dir_of, Preopen}

-- `PATH_SEP`
abbrev pub path_sep : ℕ
path_sep = 92

abbrev pub slash : ℕ
slash = 47

abbrev pub dot : ℕ
dot = 46

abbrev pub is_sep : ℕ → Bool
is_sep c = c == slash || c == path_sep

-- `strstr(rel_path, "..")`
abbrev pub has_dotdot : List ℕ → Bool
has_dotdot [] = false
has_dotdot (a ∷ []) = false
has_dotdot (a ∷ b ∷ cs) = (a == dot && b == dot) || has_dotdot (b ∷ cs)

-- The loop over the pre-opened directories.
abbrev pub preopen_path_of : List Preopen → ℕ → Option (List ℕ)
preopen_path_of [] fd = none
preopen_path_of (po ∷ pos) fd =
    if po.handle == fd then some po.host_path else preopen_path_of pos fd

-- The host's path of an open directory.
unfoldable pub base_of : {W : Type 0} → Fs W → ℕ → Option (List ℕ)
base_of s fd =
    if not (valid s.handles fd preopen_dir) && not (valid s.handles fd directory)
    then none
    else if same_type (type_at s.handles fd) preopen_dir
    then preopen_path_of s.preopens fd
    else some (dir_of (payload_at s.handles fd))

abbrev starts_with_sep : List ℕ → Bool
starts_with_sep [] = false
starts_with_sep (c ∷ cs) = is_sep c

-- The path behind the base, for a relative path that is accepted.
unfoldable pub suffix_of : List ℕ → Option (List ℕ)
suffix_of rel =
    if length rel == 0
    then some []
    else if starts_with_sep rel
    then none
    else if has_dotdot rel
    then none
    else some (path_sep ∷ rel)

-- `resolve_path`; `snprintf` cuts what has no room.
unfoldable pub resolve_path : {W : Type 0} → Fs W → ℕ → List ℕ → ℕ → Option (List ℕ)
resolve_path s dir_fd rel out_size = elim (base_of s dir_fd) [
  | none ↦ none
  | some base ↦ elim (suffix_of rel) [
    | none ↦ none
    | some suffix ↦ some (take (out_size - 1) (base ++ suffix))
  ]
]

abbrev pub max_preopens : ℕ
max_preopens = 32

-- `WAPI_HTYPE_FILE` with a stream.
abbrev stream_entry : ℕ → Entry Payload
stream_entry f = record { type = file; payload = stream f }

abbrev nth : List Preopen → ℕ → Option Preopen
nth [] i = none
nth (po ∷ pos) zero = some po
nth (po ∷ pos) (suc i) = nth pos i

module _ {W : Type 0} where
  -- `init_stdio_handles`
  unfoldable pub init_stdio_handles : CLib W → Fs W → Fs W
  init_stdio_handles lib s = record s {
    handles = record {
      entries =
          update
            (update (update s.handles.entries 1 (stream_entry lib.stdin)) 2
              (stream_entry lib.stdout))
            3 (stream_entry lib.stderr);
      next_handle = 4;
    };
  }

  -- `add_preopen`, for C strings
  unfoldable pub add_preopen : List ℕ → List ℕ → Fs W → Fs W
  add_preopen host_path guest_path s =
      if leb max_preopens (length s.preopens)
      then s
      else let (handle, t) = alloc zeroed s.handles preopen_dir in
        if handle == 0 then record s { handles = t } else record s {
          handles = set_payload t handle (dir (take 511 host_path));
          preopens =
              s.preopens
              ++ (record {
                guest_path = take 255 guest_path;
                host_path = take 511 host_path;
                handle = handle;
              })
                ∷ [];
        }

  unfoldable pub preopen_count : Fs W → ℕ
  preopen_count s = length s.preopens

  -- `index < 0 || index >= preopen_count` fails.
  unfoldable pub preopen_at : Fs W → ℕ → Option Preopen
  preopen_at s index = if is_neg index then none else nth s.preopens index

  unfoldable pub preopen_path : ℕ → ℕ → ℕ → ℕ → Fs W → ℕ × Fs W
  preopen_path index buf_ptr buf_len path_len_ptr s = elim (preopen_at s index) [
    | none ↦ (err_range, s)
    | some po ↦
        let g = (write_u64 s.guest path_len_ptr (length po.guest_path)).1 in
        (ok, record s { guest = (write_bytes g buf_ptr (take buf_len po.guest_path)).1 })
  ]

  unfoldable pub preopen_handle : Fs W → ℕ → ℕ
  preopen_handle s index = elim (preopen_at s index) [ none ↦ 0 | some po ↦ po.handle ]
