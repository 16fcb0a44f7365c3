-- ===== src/Guest/Access.antt =====
-- What the checked accesses guarantee: no byte outside the memory, no byte outside the range.
use wapi.Base.{
  ℕ, ◌+◌, ◌≤◌, ◌<◌, ◌≡◌, ap, ◌⊎◌, inl, inr, ◌≢◌, true, false, ◌∙◌, some, List, length, cells-store,
  arith, store_below, store_above,
}
use wapi.Guest.{Guest, memory_size, wasm_ptr, peek, poke, write_bytes, read_bytes}

-- A range that is not empty and that `wapi_wasm_ptr` accepts is the range at the guest's own
-- address, and ends inside the memory.
pub wasm_ptr-in_bounds :
    (m : Guest) (ptr len : ℕ) {p : ℕ}
    → len ≢ 0
    → wasm_ptr m ptr len ≡ some p
    → (p ≡ ptr) × (ptr + len ≤ memory_size m)
unfolding wasm_ptr memory_size
wasm_ptr-in_bounds m ptr len h e = ground arith

-- And every range of a memory that is there, not empty and inside it, is accepted.
pub wasm_ptr_complete :
    (m : Guest) (ptr len : ℕ)
    → m.memory_valid ≡ true
    → len ≢ 0
    → ptr + len ≤ memory_size m
    → wasm_ptr m ptr len ≡ some ptr
unfolding wasm_ptr memory_size
wasm_ptr_complete m ptr len v h le = ground arith

-- What a write that reports success did.
pub write_bytes-poke :
    (m : Guest) (ptr : ℕ) (src : List ℕ)
    → length src ≢ 0
    → (write_bytes m ptr src).0 ≡ true
    → ((write_bytes m ptr src).1 ≡ poke m ptr src) × (wasm_ptr m ptr (length src) ≡ some ptr)
unfolding write_bytes
write_bytes-poke m ptr src ne h = ground arith

-- What is read from a range that is accepted.
read_bytes-accepted :
    (m : Guest) (ptr len : ℕ) {p : ℕ}
    → len ≢ 0
    → wasm_ptr m ptr len ≡ some p
    → read_bytes m ptr len ≡ some (peek m p len)
unfolding read_bytes
read_bytes-accepted m ptr len ne e = ground arith

-- Bytes, at least one, that `wapi_wasm_write_bytes` reports as written are read back at the same
-- address, the memory keeps its size, and no byte outside the range changes.
pub write_bytes-read_bytes :
    (m : Guest) (ptr : ℕ) (src : List ℕ)
    → length src ≢ 0
    → (write_bytes m ptr src).0 ≡ true
    → (read_bytes (write_bytes m ptr src).1 ptr (length src) ≡ some src)
      × (memory_size (write_bytes m ptr src).1 ≡ memory_size m)
      × ((j : ℕ)
          → (j < ptr) ⊎ (ptr + length src ≤ j)
          → (write_bytes m ptr src).1.bytes j ≡ m.bytes j)
unfolding wasm_ptr memory_size
write_bytes-read_bytes m ptr src ne h =
    let (wrote, accepted) = write_bytes-poke m ptr src ne h in
    let back = read_bytes-accepted (poke m ptr src) ptr (length src) ne accepted in
    (
      ap (λ g. read_bytes g ptr (length src)) wrote ∙ back ∙ ap some (cells-store m.bytes ptr src),
      ap memory_size wrote,
      λ j apart. ap (λ g. g.bytes j) wrote ∙ elim apart [
        | inl low ↦ store_below m.bytes ptr src j low
        | inr high ↦ store_above m.bytes ptr src j high
      ],
    )

-- A write that reports failure changes nothing.
pub write_bytes-refused :
    (m : Guest) (ptr : ℕ) (src : List ℕ)
    → (write_bytes m ptr src).0 ≡ false
    → ((write_bytes m ptr src).1 ≡ m) × (memory_size m < ptr + length src)
unfolding write_bytes memory_size
write_bytes-refused m ptr src h = ground arith

-- An empty range is accepted at any address, inside the memory or not.
pub wasm_ptr-empty :
    (m : Guest) (ptr len : ℕ) → m.memory_valid ≡ true → len ≡ 0 → wasm_ptr m ptr len ≡ some ptr
unfolding wasm_ptr
wasm_ptr-empty m ptr len v h = ground arith
