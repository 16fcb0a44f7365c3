-- ===== src/Modules.antt =====
-- The modules that a guest can load (runtime/desktop/src/wapi_host_module.c): the cache of module files
-- by hash, which the command line fills, and the function handles that `get_func` packs.
pub mod Cache
pub mod FuncHandle
pub mod Registry
use wapi.Base.{
  ℕ, zero, suc, ◌+◌, ◌-◌, ◌*◌, ◌/◌, ◌%◌, ◌^◌, ◌&&◌, not, Bool, true, false, Option, none, some,
  List, [], ◌∷◌, find_from, update, length, take, drop, leb, ltb, ◌==◌, if◌then◌else◌,
}
use wapi.Abi.{u32}
use wapi.Guest.{Guest, wasm_ptr, peek}
use wapi.Handles.{Handles, loaded_module, valid, payload_at}
use wapi.Caps.Strings.{bytes_eq}

abbrev pub cache_max : ℕ
cache_max = 16

-- The size of `path` in an entry.
abbrev pub path_size : ℕ
path_size = 512

-- `wapi_module_cache_entry_t`; the path is a C string.
pub record CacheEntry : Type 0 where
  pub hash : List ℕ
  pub path : List ℕ
  pub in_use : Bool

abbrev pub Cache : Type 0
Cache = ℕ → CacheEntry

abbrev between : ℕ → ℕ → ℕ → Bool
between lo hi c = leb lo c && leb c hi

-- The value of a hexadecimal digit in ASCII; `none` is -1.
unfoldable pub hex_nibble : ℕ → Option ℕ
hex_nibble c =
    if between 48 57 c
    then some (c - 48)
    else if between 97 102 c
    then some (10 + (c - 97))
    else if between 65 70 c
    then some (10 + (c - 65))
    else none

-- `decode_hash_hex`: two digits to a byte.
unfoldable pub decode_hash_hex : List ℕ → Option (List ℕ)
decode_hash_hex [] = some []
decode_hash_hex (hi ∷ []) = none
decode_hash_hex (hi ∷ lo ∷ rest) = elim (hex_nibble hi) [
  | none ↦ none
  | some h ↦ elim (hex_nibble lo) [
    | none ↦ none
    | some l ↦ elim (decode_hash_hex rest) [ none ↦ none | some bs ↦ some ((h * 16 + l) ∷ bs) ]
  ]
]

-- `strchr(spec, '=') - spec`
unfoldable pub equals_at : List ℕ → Option ℕ
equals_at [] = none
equals_at (c ∷ cs) =
    if c == 61 then some 0 else elim (equals_at cs) [ none ↦ none | some k ↦ some (k + 1) ]

abbrev pub unused_in : Cache → ℕ → Bool
unused_in t i = not (t i).in_use

-- The loop of `wapi_host_module_cache_add`. A path that is too long leaves its hash in the entry, which
-- stays unused.
unfoldable pub cache_insert : List ℕ → List ℕ → Cache → Bool × Cache
cache_insert hash path t = elim (find_from (unused_in t) 0 cache_max) [
  | none ↦ (false, t)
  | some i ↦
      if leb path_size (length path)
      then (false, update t i (record { hash = hash; path = (t i).path; in_use = (t i).in_use }))
      else (true, update t i (record { hash = hash; path = path; in_use = true }))
]

-- `wapi_host_module_cache_add`, of `<64 digits>=<path>`.
unfoldable pub cache_add : List ℕ → Cache → Bool × Cache
cache_add spec t = elim (equals_at spec) [
  | none ↦ (false, t)
  | some k ↦ if not (k == 64) then (false, t) else elim (decode_hash_hex (take 64 spec)) [
    | none ↦ (false, t)
    | some hash ↦ cache_insert hash (drop 65 spec) t
  ]
]

abbrev pub cached_at : List ℕ → Cache → ℕ → Bool
cached_at hash t i = (t i).in_use && bytes_eq (t i).hash hash

-- `cache_find`, the path of the entry that is found.
unfoldable pub cache_find : List ℕ → Cache → Option (List ℕ)
cache_find hash t = elim (find_from (cached_at hash t) 0 cache_max) [
  | none ↦ none
  | some i ↦ some (t i).path
]

-- `cb_is_cached`
unfoldable pub is_cached : Guest → ℕ → Cache → ℕ
is_cached m hash_ptr t = if hash_ptr == 0 then 0 else elim (wasm_ptr m hash_ptr 32) [
  | none ↦ 0
  | some p ↦ elim (cache_find (peek m p 32) t) [ none ↦ 0 | some path ↦ 1 ]
]

-- `module_pack_func_handle`: the two halves have no bit in common, so `|` is a sum.
unfoldable pub pack_func_handle : ℕ → ℕ → ℕ
pack_func_handle module_handle func_index = u32 (module_handle * 2 ^ 16) + func_index % 2 ^ 16

-- `module_unpack`: the slot behind the module's handle, if it is one, and the index.
unfoldable pub unpack : {D : Type 0} → Handles D → ℕ → Option D × ℕ
unpack t packed =
    let mh = packed / 2 ^ 16 % 2 ^ 16 in
    (if valid t mh loaded_module then some (payload_at t mh) else none, packed % 2 ^ 16)
