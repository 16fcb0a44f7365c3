-- ===== src/Kv.antt =====
-- runtime/desktop/src/wapi_host_kvstorage.c, the build for Windows: one file for each key, in a
-- directory of the host.
pub mod Keys
pub mod RoundTrip
pub mod Listing
use wapi.Base.{
  ℕ, ◌+◌, ◌-◌, ◌≤◌, ◌<◌, ◌&&◌, ◌||◌, not, Bool, true, false, Option, none, some, List, [], ◌∷◌,
  ◌++◌, length, take, get_or, leb, ltb, ◌==◌, if◌then◌else◌,
}
use wapi.Abi.{ok, err_inval, err_noent, err_io, err_range, u32, is_neg}
use wapi.Guest.{Guest, wasm_ptr, peek, poke, write_bytes, write_u64}
use wapi.Namespaces.{c_string}
use wapi.Fs.{CLib, Errno, eexist, enoent, FindData}
use wapi.Fs.Views.{read_stringview}
use wapi.Fs.Paths.{path_sep, dot}
use wapi.Fs.Opening.{Target, refused, target, rb, wb}
use wapi.Fs.Streams.{seek_set, long_to_u64, buffer}

abbrev pub seek_end : ℕ
seek_end = 2

abbrev pub underscore : ℕ
underscore = 95

-- The part of `g_rt` that the imports work on.
pub record Kv (W : Type 0) : Type 0 where
  pub guest : Guest
  pub kv_storage_path : List ℕ
  pub last_error : List ℕ
  pub world : W

abbrev pub is_alnum : ℕ → Bool
is_alnum c = leb 97 c && leb c 122 || (leb 65 c && leb c 90 || leb 48 c && leb c 57)

abbrev pub sanitize : List ℕ → List ℕ
sanitize [] = []
sanitize (c ∷ cs) = (if is_alnum c then c else underscore) ∷ sanitize cs

-- The arrays of a key have 256 bytes.
unfoldable pub sanitize_key : List ℕ → Option (List ℕ)
sanitize_key key = if length key == 0 || leb 256 (length key) then none else some (sanitize key)

-- ".wapi_kv"
abbrev pub default_path : List ℕ
default_path = 46 ∷ 119 ∷ 97 ∷ 112 ∷ 105 ∷ 95 ∷ 107 ∷ 118 ∷ []

-- "kv: invalid key"
abbrev invalid_key : List ℕ
invalid_key =
    107 ∷ 118 ∷ 58 ∷ 32 ∷ 105 ∷ 110 ∷ 118 ∷ 97 ∷ 108 ∷ 105 ∷ 100 ∷ 32 ∷ 107 ∷ 101 ∷ 121 ∷ []

-- "kv: storage dir init failed"
abbrev init_failed : List ℕ
init_failed =
    107 ∷ 118 ∷ 58 ∷ 32 ∷ 115 ∷ 116 ∷ 111 ∷ 114 ∷ 97 ∷ 103 ∷ 101 ∷ 32 ∷ 100 ∷ 105 ∷ 114 ∷ 32 ∷ 105
    ∷ 110 ∷ 105 ∷ 116 ∷ 32 ∷ 102 ∷ 97 ∷ 105 ∷ 108 ∷ 101 ∷ 100 ∷ []

-- "kv: key too long or empty"
abbrev empty_key : List ℕ
empty_key =
    107 ∷ 118 ∷ 58 ∷ 32 ∷ 107 ∷ 101 ∷ 121 ∷ 32 ∷ 116 ∷ 111 ∷ 111 ∷ 32 ∷ 108 ∷ 111 ∷ 110 ∷ 103 ∷ 32
    ∷ 111 ∷ 114 ∷ 32 ∷ 101 ∷ 109 ∷ 112 ∷ 116 ∷ 121 ∷ []

-- "kv: path too long"
abbrev path_too_long : List ℕ
path_too_long =
    107 ∷ 118 ∷ 58 ∷ 32 ∷ 112 ∷ 97 ∷ 116 ∷ 104 ∷ 32 ∷ 116 ∷ 111 ∷ 111 ∷ 32 ∷ 108 ∷ 111 ∷ 110 ∷ 103
    ∷ []

abbrev pub is_eexist : Errno → Bool
is_eexist eexist = true
is_eexist _ = false

abbrev pub is_enoent : Errno → Bool
is_enoent enoent = true
is_enoent _ = false

-- The array for the path of a key has 768 bytes.
unfoldable pub build_key_path : List ℕ → List ℕ → Option (List ℕ)
build_key_path dir name =
    let path = dir ++ path_sep ∷ name in if ltb (length path) 768 then some path else none

abbrev pub storage_path : List ℕ → List ℕ
storage_path path = if length path == 0 then default_path else path

-- `wapi_set_error` and the result.
abbrev fail : {W : Type 0} → ℕ → List ℕ → Kv W → Target × Kv W
fail e msg s = (refused e, record s { last_error = take 511 msg })

module _ {W : Type 0} (lib : CLib W) where
  -- `ensure_kv_dir`
  unfoldable pub ensure_kv_dir : Kv W → Bool × Kv W
  ensure_kv_dir s =
      let dir = storage_path s.kv_storage_path in
      let (st, w) = lib.stat s.world dir in
      elim st [
        | some found ↦ (true, record s { kv_storage_path = dir; world = w })
        | none ↦
            let (made, w1) = lib.mkdir w dir in
            (made || is_eexist (lib.errno w1), record s { kv_storage_path = dir; world = w1 })
      ]

  -- `resolve_key_path`
  unfoldable pub resolve_key_path : ℕ → Kv W → Target × Kv W
  resolve_key_path key_sv s = elim (read_stringview s.guest key_sv 256) [
    | none ↦ fail err_inval invalid_key s
    | some key ↦
        let (ready, s1) = ensure_kv_dir s in
        if not ready then fail err_io init_failed s1 else elim (sanitize_key key) [
          | none ↦ fail err_inval empty_key s1
          | some name ↦ elim (build_key_path s1.kv_storage_path name) [
            | none ↦ fail err_inval path_too_long s1
            | some path ↦ (target path, s1)
          ]
        ]
  ]

  -- `host_kv_get` on the open file, from the copy on.
  unfoldable pub get_bytes : ℕ → ℕ → ℕ → Kv W → ℕ × Kv W
  get_bytes f copy buf_ptr s =
      if copy == 0
      then (ok, record s { world = lib.fclose s.world f })
      else elim (wasm_ptr s.guest buf_ptr (u32 copy)) [
        | none ↦ (err_inval, record s { world = lib.fclose s.world f })
        | some buf ↦
            let (got, w) = lib.fread s.world f copy in
            (
              if length got == copy then ok else err_io,
              record s { guest = poke s.guest buf got; world = lib.fclose w f },
            )
      ]

  -- `host_kv_get` on the open file, from the length on.
  unfoldable pub get_from : ℕ → ℕ → ℕ → ℕ → ℕ → Kv W → ℕ × Kv W
  get_from f fsize buf_ptr buf_len len_ptr s =
      get_bytes f (if ltb (long_to_u64 fsize) buf_len then long_to_u64 fsize else buf_len) buf_ptr
        (record s { guest = (write_u64 s.guest len_ptr (long_to_u64 fsize)).1 })

  -- `host_kv_get` on the open file.
  unfoldable pub get_file : ℕ → ℕ → ℕ → ℕ → Kv W → ℕ × Kv W
  get_file f buf_ptr buf_len len_ptr s =
      let w1 = (lib.fseek s.world f 0 seek_end).1 in
      let fsize = lib.ftell w1 f in
      let w2 = (lib.fseek w1 f 0 seek_set).1 in
      if is_neg fsize
      then (err_io, record s { world = lib.fclose w2 f })
      else get_from f fsize buf_ptr buf_len len_ptr (record s { world = w2 })

  -- `host_kv_get` with the outcome of the resolution.
  unfoldable pub get_at : ℕ → ℕ → ℕ → Target → Kv W → ℕ × Kv W
  get_at buf_ptr buf_len len_ptr (refused e) s = (e, s)
  get_at buf_ptr buf_len len_ptr (target path) s =
      let (f, w) = lib.fopen s.world path rb in
      elim f [
        | none ↦ (err_noent, record s { world = w })
        | some n ↦ get_file n buf_ptr buf_len len_ptr (record s { world = w })
      ]

  -- `host_kv_get`
  unfoldable pub get : ℕ → ℕ → ℕ → ℕ → Kv W → ℕ × Kv W
  get key_sv buf_ptr buf_len len_ptr s =
      let (t, s1) = resolve_key_path key_sv s in get_at buf_ptr buf_len len_ptr t s1

  -- `host_kv_set` on the open file: nothing is written for an empty value.
  unfoldable pub set_file : ℕ → List ℕ → Kv W → ℕ × Kv W
  set_file f value s =
      if length value == 0
      then (ok, record s { world = lib.fclose s.world f })
      else let (n, w) = lib.fwrite s.world f value in
        (if n == length value then ok else err_io, record s { world = lib.fclose w f })

  -- `host_kv_set` with the outcome of the resolution.
  unfoldable pub set_at : ℕ → ℕ → Target → Kv W → ℕ × Kv W
  set_at val_ptr val_len (refused e) s = (e, s)
  set_at val_ptr val_len (target path) s = elim (buffer s.guest val_ptr val_len) [
    | none ↦ (err_inval, s)
    | some value ↦
        let (f, w) = lib.fopen s.world path wb in
        elim f [
          | none ↦ (err_io, record s { world = w })
          | some n ↦ set_file n (peek s.guest value val_len) (record s { world = w })
        ]
  ]

  -- `host_kv_set`
  unfoldable pub set : ℕ → ℕ → ℕ → Kv W → ℕ × Kv W
  set key_sv val_ptr val_len s =
      let (t, s1) = resolve_key_path key_sv s in set_at val_ptr val_len t s1

  -- `host_kv_delete`
  unfoldable pub delete : ℕ → Kv W → ℕ × Kv W
  delete key_sv s =
      let (t, s1) = resolve_key_path key_sv s in
      elim t [
        | refused e ↦ (e, s1)
        | target path ↦
            let (removed, w) = lib.remove s1.world path in
            (
              if removed then ok else if is_enoent (lib.errno w) then err_noent else err_io,
              record s1 { world = w },
            )
      ]

  -- `host_kv_has`
  unfoldable pub has : ℕ → Kv W → ℕ × Kv W
  has key_sv s =
      let (t, s1) = resolve_key_path key_sv s in
      elim t [
        | refused e ↦ (0, s1)
        | target path ↦
            let (f, w) = lib.fopen s1.world path rb in
            elim f [
              | none ↦ (0, record s1 { world = w })
              | some n ↦ (1, record s1 { world = lib.fclose w n })
            ]
      ]
