-- ===== src/Tests/Fs.antt =====
-- Runs of the file system (runtime/desktop/src/wapi_host_fs.c).
use wapi.Base.{
  ◌≡◌, ◌≢◌, inr, refl, sym, true, false, some, List, [], ◌∷◌, ◌==◌, if◌then◌else◌, arith,
}
use wapi.Base.Find.{find_from}
use wapi.Abi.{ok}
use wapi.Guest.{Guest, memory_size, validate_ptr, wasm_ptr}
use wapi.Handles.{directory, file, free, same_type, same_type_iff, alloc, valid, number}
use wapi.Fs.{Fs, zeroed, stream, dir, FindData}
use wapi.Fs.Views.{read_stringview, view_chars}
use wapi.Fs.Paths.{base_of, suffix_of, resolve_path, init_stdio_handles, add_preopen}
use wapi.Fs.Paths.Confined.{Rooted}
use wapi.Fs.Opening.{target, target_of}
use wapi.Fs.Streams.{file_of, pread, pwrite}
use wapi.Fs.Streams.Position.{Restored, transfers-position}
use wapi.Fs.Listing.{dir_path_of}
use wapi.Fs.Listing.Client.{list_all}
use wapi.Fs.Listing.Complete.{Readable, list_all_complete}
use wapi.Fs.Sandbox.Runs.{Run, started, added, Run-Rooted}
use wapi.Tests.Disk.{Disk, empty_disk, disk, disk-FseekLaws}

-- At 100 a view of the two letters "ab" at 200.
abbrev small_guest : Guest
small_guest = record {
  memory_valid = true;
  data_size = 65536;
  bytes = λ i.
      if i == 100
      then 200
      else if i == 108
      then 2
      else if i == 200
      then 97
      else if i == 201
      then 98
      else 0;
}

abbrev fresh : Fs Disk
fresh = record {
  guest = small_guest;
  handles = record { entries = λ i. record { type = free; payload = zeroed }; next_handle = 4 };
  preopens = [];
  last_error = [];
  world = empty_disk;
}

directory≢free : directory ≢ free
directory≢free e = ground (arith, (same_type_iff directory free).1 e)

-- "/d" on the host, "/" for the guest, at the handle 4.
abbrev with_dir : Fs Disk
with_dir = add_preopen (47 ∷ 100 ∷ []) (47 ∷ []) (init_stdio_handles disk fresh)

with_dir-Run : Run disk with_dir
with_dir-Run = added (47 ∷ 100 ∷ []) (47 ∷ []) (started fresh (λ h e. directory≢free (sym e)) refl)

with_dir-target : target_of with_dir 4 100 ≡ target (47 ∷ 100 ∷ 92 ∷ 97 ∷ 98 ∷ [])
unfolding target_of read_stringview view_chars resolve_path base_of suffix_of add_preopen
    init_stdio_handles alloc find_from same_type number valid wasm_ptr validate_ptr memory_size
with_dir-target = refl

Run-Rooted_example : Rooted with_dir.preopens (47 ∷ 100 ∷ 92 ∷ 97 ∷ 98 ∷ [])
Run-Rooted_example = Run-Rooted disk 4 100 with_dir-Run with_dir-target

-- A file at 4, a directory at 5.
abbrev two_handles : Fs Disk
two_handles = record fresh {
  handles = record {
    entries = λ i.
        if i == 4
        then record { type = file; payload = stream 5 }
        else record { type = directory; payload = dir (47 ∷ 100 ∷ []) };
    next_handle = 6;
  };
}

file_four : file_of two_handles 4 ≡ some 5
unfolding valid same_type number
file_four = refl

transfers-position_example :
    ((pread disk 4 300 2 1 400 two_handles).0 ≡ ok
      → Restored disk 5 two_handles.world (pread disk 4 300 2 1 400 two_handles).1.world)
    × ((pwrite disk 4 300 2 1 400 two_handles).0 ≡ ok
        → Restored disk 5 two_handles.world (pwrite disk 4 300 2 1 400 two_handles).1.world)
transfers-position_example =
    transfers-position disk 4 300 2 1 400 two_handles disk-FseekLaws file_four

-- What the system finds in the directory.
abbrev three_entries : List FindData
three_entries =
    (record { file_name = 97 ∷ []; is_directory = false })
    ∷ (record { file_name = 98 ∷ 99 ∷ []; is_directory = true })
    ∷ (record { file_name = 100 ∷ []; is_directory = false })
    ∷ []

five-Readable : Readable disk 5 1000 60 2000 two_handles three_entries
unfolding dir_path_of valid same_type number memory_size
five-Readable = record {
  path = 47 ∷ 100 ∷ [];
  is_dir = refl;
  first = record { file_name = 97 ∷ []; is_directory = false };
  others =
      (record { file_name = 98 ∷ 99 ∷ []; is_directory = true })
      ∷ (record { file_name = 100 ∷ []; is_directory = false })
      ∷ [];
  found = refl;
  entries = refl;
  page = record { present = refl; inside = omega arith; small = omega arith };
  size = record { inside = omega arith; outside = inr (omega arith) };
  short = omega arith;
}

-- A buffer of 60 bytes has room for two of the three entries.
list_all_complete_example : list_all disk 5 1000 60 2000 4 0 two_handles ≡ three_entries
list_all_complete_example =
    list_all_complete disk 5 1000 60 2000 two_handles 4 0 five-Readable refl (omega arith)
      (omega arith)
