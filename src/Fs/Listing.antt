-- ===== src/Fs/Listing.antt =====
-- `readdir` of runtime/desktop/src/wapi_host_fs.c, on Windows: pages of directory entries.
pub mod Page
pub mod Client
pub mod Complete
use wapi.Base.{
  ℕ, ◌+◌, ◌-◌, ◌&&◌, ◌||◌, not, Bool, true, false, Option, none, some, List, [], ◌∷◌, ◌++◌, length,
  take, replicate, leb, ltb, ◌==◌, if◌then◌else◌,
}
use wapi.Base.Bytes.{to_le}
use wapi.Abi.{ok, err_inval, err_badf, u32}
use wapi.Guest.{Guest, wasm_ptr, write_bytes, write_u64}
use wapi.Handles.{directory, preopen_dir, payload_at, valid}
use wapi.Fs.{CLib, Fs, FindData, dir_of}
use wapi.Fs.Paths.{path_sep, preopen_path_of}
use wapi.Fs.Streams.{buffer}

abbrev pub entry_size : FindData → ℕ
entry_size e = 24 + length e.file_name

-- `entry`: the cookie behind the entry, an inode of 0, the length of the name and the type.
unfoldable pub header : ℕ → FindData → List ℕ
header entry_index e =
    to_le 8 (entry_index + 1)
    ++ to_le 8 0
    ++ to_le 4 (length e.file_name)
    ++ to_le 4 (if e.is_directory then 3 else 4)

-- The two writes of one round.
unfoldable pub put_entry : ℕ → ℕ → ℕ → FindData → Guest → Guest
put_entry buf_ptr used entry_index e m =
    (write_bytes (write_bytes m (u32 (buf_ptr + u32 used)) (header entry_index e)).1
      (u32 (buf_ptr + u32 used + 24)) e.file_name).1

-- The loop, from `used` and `entry_index` on; the result is `used` at its end.
unfoldable pub list_entries : ℕ → ℕ → ℕ → List FindData → ℕ → ℕ → Guest → ℕ × Guest
list_entries buf_ptr buf_len cookie [] used entry_index m = (used, m)
list_entries buf_ptr buf_len cookie (e ∷ es) used entry_index m =
    let skip = list_entries buf_ptr buf_len cookie es used (entry_index + 1) m in
    let rest =
      list_entries buf_ptr buf_len cookie es (used + entry_size e) (entry_index + 1)
        (put_entry buf_ptr used entry_index e m) in
    if ltb entry_index cookie
    then skip
    else if ltb buf_len (used + entry_size e)
    then (used, m)
    else rest

-- The directory of a handle.
unfoldable pub dir_path_of : {W : Type 0} → Fs W → ℕ → Option (List ℕ)
dir_path_of s fd =
    if valid s.handles fd directory
    then some (dir_of (payload_at s.handles fd))
    else if valid s.handles fd preopen_dir
    then preopen_path_of s.preopens fd
    else none

-- `search_path`
abbrev pub search_path : List ℕ → List ℕ
search_path dir_path = take 1023 (dir_path ++ path_sep ∷ 42 ∷ [])

module _ {W : Type 0} (lib : CLib W) where
  unfoldable pub fill_page : ℕ → ℕ → ℕ → ℕ → List ℕ → Fs W → Fs W
  fill_page buf_ptr buf_len cookie used_ptr dir_path s =
      elim (lib.find_files s.world (search_path dir_path)) [
        | none ↦ record s { guest = (write_u64 s.guest used_ptr 0).1 }
        | some (e, es) ↦
            let (used, m) = list_entries buf_ptr buf_len cookie (e ∷ es) 0 0 s.guest in
            record s { guest = (write_u64 m used_ptr used).1 }
      ]

  -- `host_fs_readdir`
  unfoldable pub readdir : ℕ → ℕ → ℕ → ℕ → ℕ → Fs W → ℕ × Fs W
  readdir fd buf_ptr buf_len cookie used_ptr s = elim (dir_path_of s fd) [
    | none ↦ (err_badf, s)
    | some dir_path ↦ elim (buffer s.guest buf_ptr buf_len) [
      | none ↦ (err_inval, s)
      | some buf ↦ (ok, fill_page buf_ptr buf_len cookie used_ptr dir_path s)
    ]
  ]
