-- ===== src/Fs/Streams.antt =====
-- The imports of runtime/desktop/src/wapi_host_fs.c on open files. On Windows a `long` has 32 bits.
pub mod Position
use wapi.Base.{
  ℕ, ◌+◌, ◌-◌, ◌*◌, ◌/◌, ◌%◌, ◌^◌, ◌&&◌, ◌||◌, not, Bool, true, false, Option, none, some, List, [],
  ◌∷◌, ◌++◌, length, take, leb, ltb, ◌==◌, if◌then◌else◌,
}
use wapi.Abi.{ok, err_inval, err_badf, u32, u32_mod, u64_mod, is_neg}
use wapi.Guest.{Guest, wasm_ptr, peek, poke, write_u64}
use wapi.Handles.{file, payload_at, valid}
use wapi.Fs.{CLib, Fs, stream_of, errno_to_tp}
use wapi.Fs.Opening.{settle}

abbrev pub seek_set : ℕ
seek_set = 0

-- `(uint64_t)pos`, for a `long`: the sign is extended.
abbrev pub long_to_u64 : ℕ → ℕ
long_to_u64 pos = if is_neg pos then pos + (u64_mod - u32_mod) else pos

-- `wapi_wasm_ptr(buf_ptr, (uint32_t)len)`; `!buf && len > 0` is refused, and NULL for no bytes is
-- the address 0.
unfoldable pub buffer : Guest → ℕ → ℕ → Option ℕ
buffer m buf_ptr len = elim (wasm_ptr m buf_ptr (u32 len)) [
  | none ↦ if len == 0 then some 0 else none
  | some buf ↦ some buf
]

module _ {W : Type 0} where
  -- The stream of a handle that is a file.
  abbrev pub file_of : Fs W → ℕ → Option ℕ
  file_of s fd =
      if valid s.handles fd file then some (stream_of (payload_at s.handles fd)) else none

  abbrev report_count : ℕ → ℕ → Fs W → Fs W
  report_count ptr n s = record s { guest = (write_u64 s.guest ptr n).1 }

module _ {W : Type 0} (lib : CLib W) where
  -- `fread` into the buffer, and the count that goes out.
  abbrev pub read_to : ℕ → ℕ → ℕ → ℕ → Fs W → Fs W
  read_to f buf len bytes_read_ptr s =
      let (got, w) = lib.fread s.world f len in
      report_count bytes_read_ptr (length got)
        (record s { guest = poke s.guest buf got; world = w })

  -- `host_fs_read`
  unfoldable pub read : ℕ → ℕ → ℕ → ℕ → Fs W → ℕ × Fs W
  read fd buf_ptr len bytes_read_ptr s = elim (if fd == 1 then some lib.stdin else file_of s fd) [
    | none ↦ (err_badf, s)
    | some f ↦ elim (buffer s.guest buf_ptr len) [
      | none ↦ (err_inval, s)
      | some buf ↦ (ok, read_to f buf len bytes_read_ptr s)
    ]
  ]

  -- `host_fs_write`
  unfoldable pub write : ℕ → ℕ → ℕ → ℕ → Fs W → ℕ × Fs W
  write fd buf_ptr len bytes_written_ptr s =
      elim (if fd == 2
        then some lib.stdout
        else if fd == 3
        then some lib.stderr
        else file_of s fd) [
          | none ↦ (err_badf, s)
          | some f ↦ elim (buffer s.guest buf_ptr len) [
            | none ↦ (err_inval, s)
            | some buf ↦
                let (n, w) = lib.fwrite s.world f (peek s.guest buf len) in
                (ok, report_count bytes_written_ptr n (record s { world = lib.fflush w f }))
          ]
        ]

  -- `host_fs_pread`
  unfoldable pub pread : ℕ → ℕ → ℕ → ℕ → ℕ → Fs W → ℕ × Fs W
  pread fd buf_ptr len offset bytes_read_ptr s = elim (file_of s fd) [
    | none ↦ (err_badf, s)
    | some f ↦ elim (buffer s.guest buf_ptr len) [
      | none ↦ (err_inval, s)
      | some buf ↦
          let saved = lib.ftell s.world f in
          let (moved, w) = lib.fseek s.world f (u32 offset) seek_set in
          if not moved
          then (errno_to_tp (lib.errno w), record s { world = w })
          else let (got, w1) = lib.fread w f len in
            (
              ok,
              record s {
                guest = (write_u64 (poke s.guest buf got) bytes_read_ptr (length got)).1;
                world = (lib.fseek w1 f saved seek_set).1;
              },
            )
    ]
  ]

  -- `host_fs_pwrite`
  unfoldable pub pwrite : ℕ → ℕ → ℕ → ℕ → ℕ → Fs W → ℕ × Fs W
  pwrite fd buf_ptr len offset bytes_written_ptr s = elim (file_of s fd) [
    | none ↦ (err_badf, s)
    | some f ↦ elim (buffer s.guest buf_ptr len) [
      | none ↦ (err_inval, s)
      | some buf ↦
          let saved = lib.ftell s.world f in
          let (moved, w) = lib.fseek s.world f (u32 offset) seek_set in
          if not moved
          then (errno_to_tp (lib.errno w), record s { world = w })
          else let (n, w1) = lib.fwrite w f (peek s.guest buf len) in
            (
              ok,
              record s {
                guest = (write_u64 s.guest bytes_written_ptr n).1;
                world = (lib.fseek w1 f saved seek_set).1;
              },
            )
    ]
  ]

  -- `host_fs_seek`; `SEEK_SET`, `SEEK_CUR` and `SEEK_END` are 0, 1 and 2.
  unfoldable pub seek : ℕ → ℕ → ℕ → ℕ → Fs W → ℕ × Fs W
  seek fd offset whence new_offset_ptr s = elim (file_of s fd) [
    | none ↦ (err_badf, s)
    | some f ↦
        if not (leb whence 2)
        then (err_inval, s)
        else let (moved, w) = lib.fseek s.world f (u32 offset) whence in
          if not moved then (errno_to_tp (lib.errno w), record s { world = w }) else (
            ok,
            report_count new_offset_ptr (long_to_u64 (lib.ftell w f)) (record s { world = w }),
          )
  ]

  -- `host_fs_sync`
  unfoldable pub sync : ℕ → Fs W → ℕ × Fs W
  sync fd s = elim (file_of s fd) [
    | none ↦ (err_badf, s)
    | some f ↦ (ok, record s { world = lib.fflush s.world f })
  ]

  -- `host_fs_set_size`
  unfoldable pub set_size : ℕ → ℕ → Fs W → ℕ × Fs W
  set_size fd size s = elim (file_of s fd) [
    | none ↦ (err_badf, s)
    | some f ↦ settle lib s (lib.chsize (lib.fflush s.world f) f size)
  ]
