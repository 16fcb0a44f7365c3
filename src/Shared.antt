-- ===== src/Shared.antt =====
-- runtime/desktop/src/wapi_host_module.c, "Shared memory pool" and "Shared memory imports": the
-- 16 MiB region through which a module and its children exchange data.
pub mod Place
pub mod Transfer
pub mod Wrap
use Prim.Native.Nat.{bit_and}
use wapi.Base.{
  ℕ, ◌+◌, ◌-◌, ◌*◌, ◌%◌, ◌^◌, ◌≤◌, ◌<◌, ◌&&◌, ◌||◌, not, Bool, true, false, Option, none, some,
  List, find_from, update, cells, store, min, ltb, leb, ◌==◌, if◌then◌else◌,
}
use wapi.Abi.{u64, u64_mod, ok, err_inval, err_noent}
use wapi.Guest.{Guest}

abbrev pub pool_capacity : ℕ
pool_capacity = 16 * 1024 * 1024

abbrev pub max_blocks : ℕ
max_blocks = 1024

-- `wapi_shared_alloc_t`
pub record Block : Type 0 where
  pub offset : ℕ
  pub size : ℕ
  pub in_use : Bool

-- `wapi_shared_mem_t`; `present` says that the pointer to the bytes is not NULL, and `bytes` is the
-- host's memory from that pointer on, also behind the region, where a copy past its end would go.
pub record Pool : Type 0 where
  pub present : Bool
  pub bytes : ℕ → ℕ
  pub capacity : ℕ
  pub bump : ℕ
  pub allocs : ℕ → Block

abbrev pub free_slot : Pool → ℕ → Bool
free_slot s i = not (s.allocs i).in_use

abbrev pub block_at : Pool → ℕ → ℕ → Bool
block_at s off i = (s.allocs i).in_use && (s.allocs i).offset == off

-- `shared_find`; `none` is NULL.
unfoldable pub find_block : Pool → ℕ → Option ℕ
find_block s off = find_from (block_at s off) 0 max_blocks

abbrev pub drop_block : Pool → ℕ → Pool
drop_block s i = record s {
  allocs =
      update s.allocs i
        (record { offset = (s.allocs i).offset; size = (s.allocs i).size; in_use = false });
}

abbrev pub add_block : Pool → ℕ → ℕ → ℕ → Pool
add_block s i off size = record s {
  allocs = update s.allocs i (record { offset = off; size = size; in_use = true });
  bump = u64 (off + size);
}

-- `(bump + (align - 1)) & ~(uint64_t)(align - 1)`
unfoldable pub aligned_bump : ℕ → ℕ → ℕ
aligned_bump bump align = bit_and (u64 (bump + (align - 1))) (u64_mod - 1 - (align - 1))

-- `if (x < 1) x = 1`
abbrev pub at_least_one : ℕ → ℕ
at_least_one x = if x == 0 then 1 else x

-- `shared_free`
unfoldable pub free : ℕ → Pool → ℕ × Pool
free off s =
    if off == 0
    then (ok, s)
    else elim (find_block s off) [ none ↦ (err_noent, s) | some i ↦ (ok, drop_block s i) ]

unfoldable pub usable_size : Pool → ℕ → ℕ
usable_size s off = elim (find_block s off) [ none ↦ 0 | some i ↦ (s.allocs i).size ]

-- The part of `shared_alloc_internal` behind `shared_mem_ensure`.
unfoldable pub place : ℕ → ℕ → Pool → ℕ × Pool
place size₀ align₀ s =
    let size = at_least_one size₀ in
    let align = at_least_one align₀ in
    if ltb 4096 align
    then (0, s)
    else let off = aligned_bump s.bump align in
      if ltb s.capacity (u64 (off + size))
      then (0, s)
      else elim (find_from (free_slot s) 0 max_blocks) [
        | none ↦ (0, s)
        | some i ↦ (off, add_block s i off size)
      ]

-- `calloc` is what the C library answers to the one request for the region's bytes.
module _ (calloc : Bool) where
  -- `shared_mem_ensure`
  unfoldable pub ensure : Pool → Bool × Pool
  ensure s = if s.present then (true, s) else (
    calloc,
    record s { present = calloc; bytes = λ _. 0; capacity = pool_capacity; bump = 8 },
  )

  -- `shared_alloc_internal`
  unfoldable pub alloc : ℕ → ℕ → Pool → ℕ × Pool
  alloc size align s₀ = let (good, s) = ensure s₀ in if good then place size align s else (0, s)

  -- `shared_realloc` of a known block: a new block, the copy, the old block dropped.
  unfoldable pub realloc_move : ℕ → ℕ → ℕ → ℕ → Pool → ℕ × Pool
  realloc_move off i new_size align s =
      let (new_off, s') = alloc new_size align s in
      if new_off == 0
      then (0, s')
      else let copy = if ltb (s'.allocs i).size new_size then (s'.allocs i).size else new_size in
        (
          new_off,
          drop_block (record s' { bytes = store s'.bytes new_off (cells s'.bytes off copy) }) i,
        )

  unfoldable pub realloc : ℕ → ℕ → ℕ → Pool → ℕ × Pool
  realloc off new_size align s =
      if off == 0 then alloc new_size align s else elim (find_block s off) [
        | none ↦ (0, s)
        | some i ↦
            if new_size == 0 then (0, drop_block s i) else realloc_move off i new_size align s
      ]

  -- `shared_read`: from the region into the memory of the module that calls.
  unfoldable pub read : ℕ → ℕ → ℕ → Pool → Guest → ℕ × Pool × Guest
  read src_off dst_ptr len s₀ m =
      let (good, s) = ensure s₀ in
      if not good || ltb s.capacity (u64 (src_off + len))
      then (err_inval, s, m)
      else if not m.memory_valid || ltb m.data_size (u64 (dst_ptr + len))
      then (err_inval, s, m)
      else (ok, s, record m { bytes = store m.bytes dst_ptr (cells s.bytes src_off len) })

  -- `shared_write`: the other way.
  unfoldable pub write : ℕ → ℕ → ℕ → Pool → Guest → ℕ × Pool
  write dst_off src_ptr len s₀ m =
      let (good, s) = ensure s₀ in
      if not good || ltb s.capacity (u64 (dst_off + len))
      then (err_inval, s)
      else if not m.memory_valid || ltb m.data_size (u64 (src_ptr + len))
      then (err_inval, s)
      else (ok, record s { bytes = store s.bytes dst_off (cells m.bytes src_ptr len) })
