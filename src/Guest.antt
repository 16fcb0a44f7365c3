-- ===== src/Guest.antt =====
-- runtime/desktop/src/wapi_host.h, "Wasm Memory Helpers": the guest's linear memory, and the checked
-- reads and writes through which every host import reaches it.
pub mod Access
pub mod Wrote
use wapi.Base.{
  ℕ, ◌+◌, ◌≤◌, ◌<◌, ◌&&◌, ◌||◌, Bool, true, false, not, Option, none, some, List, [], length, cells,
  store, ltb, leb, ◌==◌, if◌then◌else◌,
}
use wapi.Base.Bytes.{to_le}

-- What wasmtime holds of memory 0: whether the export was found, its size in bytes, its bytes.
pub record Guest : Type 0 where
  pub memory_valid : Bool
  pub data_size : ℕ
  pub bytes : ℕ → ℕ

unfoldable pub memory_size : Guest → ℕ
memory_size m = if m.memory_valid then m.data_size else 0

-- `ptr` and `len` are `uint32_t`; the sum is taken in 64 bits, where it cannot wrap.
unfoldable pub validate_ptr : Guest → ℕ → ℕ → Bool
unfolding memory_size
validate_ptr m ptr len =
    if len == 0 then true else ltb ptr (memory_size m) && leb (ptr + len) (memory_size m)

-- The address in guest memory that the host pointer stands for; `none` is NULL. With no memory the
-- base is NULL, and `NULL + guest_ptr` is NULL at 0 only.
unfoldable pub wasm_ptr : Guest → ℕ → ℕ → Option ℕ
unfolding validate_ptr
wasm_ptr m guest_ptr len =
    if validate_ptr m guest_ptr len
    then (if m.memory_valid || not (guest_ptr == 0) then some guest_ptr else none)
    else none

-- The `n` bytes at an address that `wasm_ptr` gave.
abbrev pub peek : Guest → ℕ → ℕ → List ℕ
peek m p n = cells m.bytes p n

abbrev pub poke : Guest → ℕ → List ℕ → Guest
poke m p bs = record m { bytes = store m.bytes p bs }

-- `memcpy(host, src, len)` behind the check; the Boolean is the C result.
unfoldable pub write_bytes : Guest → ℕ → List ℕ → Bool × Guest
unfolding wasm_ptr
write_bytes m ptr src =
    if length src == 0
    then (true, m)
    else elim (wasm_ptr m ptr (length src)) [ none ↦ (false, m) | some p ↦ (true, poke m p src) ]

-- `wapi_wasm_read_string`, the bytes that the result points to.
unfoldable pub read_bytes : Guest → ℕ → ℕ → Option (List ℕ)
unfolding wasm_ptr
read_bytes m ptr len =
    if len == 0
    then some []
    else elim (wasm_ptr m ptr len) [ none ↦ none | some p ↦ some (peek m p len) ]

-- `wapi_wasm_write_i32`, `_u32` and `_u64`: the integer goes out little-endian.
unfoldable pub write_u32 : Guest → ℕ → ℕ → Bool × Guest
unfolding wasm_ptr
write_u32 m ptr val = elim (wasm_ptr m ptr 4) [
  | none ↦ (false, m)
  | some p ↦ (true, poke m p (to_le 4 val))
]

unfoldable pub write_u64 : Guest → ℕ → ℕ → Bool × Guest
unfolding wasm_ptr
write_u64 m ptr val = elim (wasm_ptr m ptr 8) [
  | none ↦ (false, m)
  | some p ↦ (true, poke m p (to_le 8 val))
]
