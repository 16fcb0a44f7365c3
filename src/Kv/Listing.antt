-- ===== src/Kv/Listing.antt =====
-- `clear`, `count` and `key_at` of runtime/desktop/src/wapi_host_kvstorage.c, on Windows. The files of
-- the directory are those that the search finds when it starts.
pub mod Indices
use wapi.Base.{
  ℕ, zero, suc, ◌+◌, ◌-◌, ◌&&◌, ◌||◌, not, Bool, true, false, Option, none, some, List, [], ◌∷◌,
  ◌++◌, length, take, get_or, leb, ltb, ◌==◌, if◌then◌else◌,
}
use wapi.Abi.{ok, err_inval, err_io, err_range, u32, is_neg}
use wapi.Guest.{Guest, write_bytes, write_u64}
use wapi.Fs.{CLib, FindData}
use wapi.Fs.Paths.{path_sep, dot}
use wapi.Kv.{Kv, ensure_kv_dir}

-- "." and "..".
abbrev pub is_dots : List ℕ → Bool
is_dots [] = false
is_dots (a ∷ []) = a == dot
is_dots (a ∷ b ∷ []) = a == dot && b == dot
is_dots (a ∷ b ∷ c ∷ cs) = false

-- What the three loops do not skip.
abbrev pub is_key : FindData → Bool
is_key e = not (is_dots e.file_name) && not e.is_directory

abbrev pub keys_of : List FindData → List (List ℕ)
keys_of [] = []
keys_of (e ∷ es) = let rest = keys_of es in if is_key e then e.file_name ∷ rest else rest

abbrev pub pattern_of : List ℕ → List ℕ
pattern_of dir = take 767 (dir ++ path_sep ∷ 42 ∷ [])

abbrev pub nth_name : List (List ℕ) → ℕ → Option (List ℕ)
nth_name [] i = none
nth_name (k ∷ ks) zero = some k
nth_name (k ∷ ks) (suc i) = nth_name ks i

module _ {W : Type 0} (lib : CLib W) where
  -- The names of the keys' files, none where the search fails.
  unfoldable pub key_files : Kv W → List (List ℕ)
  key_files s = elim (lib.find_files s.world (pattern_of s.kv_storage_path)) [
    | none ↦ []
    | some (e, es) ↦ keys_of (e ∷ es)
  ]

  -- The loop of `clear`.
  abbrev pub remove_all : List ℕ → List (List ℕ) → W → W
  remove_all dir [] w = w
  remove_all dir (k ∷ ks) w = remove_all dir ks (lib.remove w (take 767 (dir ++ path_sep ∷ k))).1

  -- `host_kv_clear`
  unfoldable pub clear : Kv W → ℕ × Kv W
  clear s =
      let (ready, s1) = ensure_kv_dir lib s in
      if not ready
      then (err_io, s1)
      else (ok, record s1 { world = remove_all s1.kv_storage_path (key_files s1) s1.world })

  -- `host_kv_count`
  unfoldable pub count : Kv W → ℕ × Kv W
  count s =
      let (ready, s1) = ensure_kv_dir lib s in
      (if ready then u32 (length (key_files s1)) else 0, s1)

  -- `host_kv_key_at` from the name on; `name_buf` has 256 bytes.
  unfoldable pub report_key : ℕ → ℕ → ℕ → Option (List ℕ) → Kv W → ℕ × Kv W
  report_key buf_ptr buf_len len_ptr none s = (err_range, s)
  report_key buf_ptr buf_len len_ptr (some file_name) s =
      let name = take 255 file_name in
      let g = (write_u64 s.guest len_ptr (length name)).1 in
      (ok, record s { guest = (write_bytes g buf_ptr (take buf_len name)).1 })

  -- `host_kv_key_at`
  unfoldable pub key_at : ℕ → ℕ → ℕ → ℕ → Kv W → ℕ × Kv W
  key_at index buf_ptr buf_len len_ptr s =
      if is_neg index
      then (err_inval, s)
      else let (ready, s1) = ensure_kv_dir lib s in
        if not ready
        then (err_io, s1)
        else report_key buf_ptr buf_len len_ptr (nth_name (key_files s1) index) s1
