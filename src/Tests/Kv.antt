-- ===== src/Tests/Kv.antt =====
-- Runs of the key-value storage (runtime/desktop/src/wapi_host_kvstorage.c).
use wapi.Base.{
  ℕ, ◌^◌, ◌<◌, ◌≡◌, ◌↔◌, refl, true, some, inr, List, [], ◌∷◌, length, ◌==◌, if◌then◌else◌, arith,
}
use wapi.Abi.{ok}
use wapi.Guest.{Guest, memory_size, validate_ptr, wasm_ptr}
use wapi.Fs.Views.{read_stringview, view_chars}
use wapi.Fs.Streams.{buffer}
use wapi.Fs.Paths.Confined.{Under}
use wapi.Kv.{
  Kv, sanitize_key, build_key_path, ensure_kv_dir, resolve_key_path, set_file, set_at, set, get,
}
use wapi.Kv.Keys.{conflated, build_key_path-Under, build_key_path-same}
use wapi.Kv.Listing.{key_files, count, key_at}
use wapi.Kv.Listing.Indices.{key_at-count}
use wapi.Kv.RoundTrip.Getting.{Got, get-set}
use wapi.Tests.Disk.{Disk, empty_disk, disk, HoldsAll, Always, disk-FileLaws}

-- At 100 a view of the letter "k" at 200, and the value 7, 9 at 300.
abbrev one_key : Guest
one_key = record {
  memory_valid = true;
  data_size = 65536;
  bytes = λ i.
      if i == 100
      then 200
      else if i == 108
      then 1
      else if i == 200
      then 107
      else if i == 300
      then 7
      else if i == 301
      then 9
      else 0;
}

abbrev fresh : Kv Disk
fresh = record { guest = one_key; kv_storage_path = []; last_error = []; world = empty_disk }

key_read : read_stringview one_key 100 256 ≡ some (107 ∷ [])
unfolding read_stringview view_chars wasm_ptr validate_ptr memory_size
key_read = refl

set-ok : (set disk 100 300 2 fresh).0 ≡ ok
unfolding set set_at set_file resolve_key_path ensure_kv_dir sanitize_key build_key_path
    read_stringview view_chars buffer wasm_ptr validate_ptr memory_size
set-ok = refl

dir_ready : (ensure_kv_dir disk (record (set disk 100 300 2 fresh).1 { guest = one_key })).0 ≡ true
unfolding ensure_kv_dir
dir_ready = refl

get-set_example :
    Got 400 16 500
      (7 ∷ 9 ∷ [])
      (get disk 100 400 16 500 (record (set disk 100 300 2 fresh).1 { guest = one_key })).0
      (get disk 100 400 16 500 (record (set disk 100 300 2 fresh).1 { guest = one_key })).1.guest
unfolding memory_size
get-set_example =
    get-set disk 400 16 500 HoldsAll Always Always fresh 100 300 2 one_key 100 disk-FileLaws
      key_read (omega arith) set-ok refl key_read dir_ready refl
      (record { present = refl; inside = omega arith; small = omega arith })
      (record { inside = omega arith; outside = inr (omega arith) })

-- "a.b" and "a_b".
dotted_name : sanitize_key (97 ∷ 46 ∷ 98 ∷ []) ≡ some (97 ∷ 95 ∷ 98 ∷ [])
unfolding sanitize_key
dotted_name = refl

plain_name : sanitize_key (97 ∷ 95 ∷ 98 ∷ []) ≡ some (97 ∷ 95 ∷ 98 ∷ [])
unfolding sanitize_key
plain_name = refl

abbrev ab_path : List ℕ
ab_path = 100 ∷ 92 ∷ 97 ∷ 95 ∷ 98 ∷ []

name_path : build_key_path (100 ∷ []) (97 ∷ 95 ∷ 98 ∷ []) ≡ some ab_path
unfolding build_key_path
name_path = refl

build_key_path-Under_example : Under (100 ∷ []) ab_path
build_key_path-Under_example =
    build_key_path-Under (100 ∷ []) (97 ∷ 46 ∷ 98 ∷ []) dotted_name name_path

build_key_path-same_example :
    (ab_path ≡ ab_path) ↔ (conflated (97 ∷ 46 ∷ 98 ∷ []) (97 ∷ 95 ∷ 98 ∷ []) ≡ true)
build_key_path-same_example =
    build_key_path-same (100 ∷ []) (97 ∷ 46 ∷ 98 ∷ []) (97 ∷ 95 ∷ 98 ∷ []) dotted_name plain_name
      name_path name_path

few_files : length (key_files disk (ensure_kv_dir disk fresh).1) < 2 ^ 31
unfolding key_files ensure_kv_dir
few_files = omega arith

key_at-count_example : ((key_at disk 1 400 16 500 fresh).0 ≡ ok) ↔ (1 < (count disk fresh).0)
key_at-count_example = key_at-count disk fresh 1 400 16 500 (omega arith) few_files
