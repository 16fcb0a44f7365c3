-- ===== src/Fs.antt =====
-- runtime/desktop/src/wapi_host_fs.c, the build for Windows: the state that the file system's imports
-- work on, and what they call of the C library and of the operating system.
pub mod Views
pub mod Paths
pub mod Opening
pub mod Streams
pub mod Stats
pub mod Listing
pub mod Sandbox
use wapi.Base.{ℕ, Bool, Option, List, [], ◌∷◌, take}
use wapi.Abi.{
  err_unknown, err_inval, err_badf, err_acces, err_noent, err_nospc, err_nomem, err_io, err_exist,
  err_notdir, err_isdir, err_nametoolong, err_notempty, err_busy,
}
use wapi.Guest.{Guest}
use wapi.Handles.{Handles}

-- The values of `errno` that the host tells apart.
pub data Errno : Type 0 where
  enoent eacces eexist enotdir eisdir enospc enomem enametoolong enotempty eio ebadf einval : Errno
  ebusy : Errno
  other_errno : ℕ → Errno

unfoldable pub errno_to_tp : Errno → ℕ
errno_to_tp enoent = err_noent
errno_to_tp eacces = err_acces
errno_to_tp eexist = err_exist
errno_to_tp enotdir = err_notdir
errno_to_tp eisdir = err_isdir
errno_to_tp enospc = err_nospc
errno_to_tp enomem = err_nomem
errno_to_tp enametoolong = err_nametoolong
errno_to_tp enotempty = err_notempty
errno_to_tp eio = err_io
errno_to_tp ebadf = err_badf
errno_to_tp einval = err_inval
errno_to_tp ebusy = err_busy
errno_to_tp (other_errno n) = err_unknown

-- The fields of `struct _stat64` that the host reads.
pub record Stat : Type 0 where
  pub dev : ℕ
  pub ino : ℕ
  pub mode : ℕ
  pub nlink : ℕ
  pub size : ℕ
  pub atime : ℕ
  pub mtime : ℕ

-- What the host reads of `WIN32_FIND_DATAA`.
pub record FindData : Type 0 where
  pub file_name : List ℕ
  pub is_directory : Bool

-- The C library over the world `W`. Paths are C strings, a stream is a number (0 is NULL), a `long`
-- is its pattern of 32 bits; the Boolean of a call is whether it reports success.
pub record CLib (W : Type 0) : Type 0 where
  pub stdin : ℕ
  pub stdout : ℕ
  pub stderr : ℕ
  pub errno : W → Errno
  pub strerror : Errno → List ℕ
  pub fopen : W → List ℕ → List ℕ → Option ℕ × W
  pub fclose : W → ℕ → W
  pub fread : W → ℕ → ℕ → List ℕ × W
  pub fwrite : W → ℕ → List ℕ → ℕ × W
  pub fflush : W → ℕ → W
  pub fseek : W → ℕ → ℕ → ℕ → Bool × W
  pub ftell : W → ℕ → ℕ
  pub fstat : W → ℕ → Option Stat × W
  pub stat : W → List ℕ → Option Stat × W
  pub chsize : W → ℕ → ℕ → Bool × W
  pub mkdir : W → List ℕ → Bool × W
  pub rmdir : W → List ℕ → Bool × W
  pub remove : W → List ℕ → Bool × W
  pub rename : W → List ℕ → List ℕ → Bool × W
  -- The files that `FindFirstFileA` and `FindNextFileA` give for a pattern, `none` if the first fails.
  pub find_files : W → List ℕ → Option (FindData × List FindData)

-- The members of the union of a handle's data that files use, and the union after `memset`.
pub data Payload : Type 0 where
  zeroed : Payload
  stream : ℕ → Payload
  dir : List ℕ → Payload

abbrev pub stream_of : Payload → ℕ
stream_of zeroed = 0
stream_of (stream f) = f
stream_of (dir path) = 0

abbrev pub dir_of : Payload → List ℕ
dir_of zeroed = []
dir_of (stream f) = []
dir_of (dir path) = path

-- `wapi_preopen_t`
pub record Preopen : Type 0 where
  pub guest_path : List ℕ
  pub host_path : List ℕ
  pub handle : ℕ

-- The part of `g_rt` that the imports work on; `preopens` are the first `preopen_count` entries.
pub record Fs (W : Type 0) : Type 0 where
  pub guest : Guest
  pub handles : Handles Payload
  pub preopens : List Preopen
  pub last_error : List ℕ
  pub world : W

-- `wapi_set_error`
abbrev pub set_error : {W : Type 0} → List ℕ → Fs W → Fs W
set_error msg s = record s { last_error = take 511 msg }
