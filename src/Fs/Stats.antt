-- ===== src/Fs/Stats.antt =====
-- `stat` and `path_stat` of runtime/desktop/src/wapi_host_fs.c, on Windows.
use wapi.Base.{ℕ, ◌*◌, Option, none, some, List, ◌++◌, replicate, if◌then◌else◌}
use wapi.Base.Bytes.{to_le}
use wapi.Abi.{ok, err_badf}
use wapi.Guest.{write_bytes}
use wapi.Fs.{CLib, Fs, Stat, errno_to_tp}
use wapi.Fs.Opening.{has_bit, refused, target, target_of}
use wapi.Fs.Streams.{file_of}

-- `_S_IFDIR`
abbrev s_ifdir : ℕ
s_ifdir = 16384

-- `fill_stat`: a `wapi_filestat_t` of 56 bytes; times go out in nanoseconds.
unfoldable pub fill_stat : Stat → List ℕ
fill_stat st =
    to_le 8 st.dev
    ++ to_le 8 st.ino
    ++ to_le 4 (if has_bit st.mode s_ifdir then 3 else 4)
    ++ replicate 4 0
    ++ to_le 8 st.nlink
    ++ to_le 8 st.size
    ++ to_le 8 (st.atime * 1000000000)
    ++ to_le 8 (st.mtime * 1000000000)

module _ {W : Type 0} (lib : CLib W) where
  -- What both do with the answer of the operating system.
  unfoldable pub report_stat : ℕ → Option Stat × W → Fs W → ℕ × Fs W
  report_stat stat_ptr (st, w) s = elim st [
    | none ↦ (errno_to_tp (lib.errno w), record s { world = w })
    | some found ↦
        (ok, record s { guest = (write_bytes s.guest stat_ptr (fill_stat found)).1; world = w })
  ]

  -- `host_fs_stat`
  unfoldable pub stat : ℕ → ℕ → Fs W → ℕ × Fs W
  stat fd stat_ptr s = elim (file_of s fd) [
    | none ↦ (err_badf, s)
    | some f ↦ report_stat stat_ptr (lib.fstat s.world f) s
  ]

  -- `host_fs_path_stat`
  unfoldable pub path_stat : ℕ → ℕ → ℕ → Fs W → ℕ × Fs W
  path_stat dir_fd path_sv stat_ptr s = elim (target_of s dir_fd path_sv) [
    | refused e ↦ (e, s)
    | target path ↦ report_stat stat_ptr (lib.stat s.world path) s
  ]
