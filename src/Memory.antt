-- ===== src/Memory.antt =====
-- runtime/desktop/src/wapi_host_memory.c: the bump allocator behind `wapi_memory`, which hands out
-- blocks of the guest's linear memory and grows that memory when it runs out.
pub mod Align
pub mod Reserve
pub mod Blocks
pub mod Alloc
pub mod Release
pub mod Move
use Prim.Native.Nat.{bit_and}
use Prim.Native.String.{String}
use wapi.Base.{
  ℕ, ◌+◌, ◌-◌, ◌*◌, ◌/◌, ◌^◌, ◌≤◌, ◌<◌, ◌≡◌, ◌&&◌, ◌||◌, not, Bool, true, false, Option, none, some,
  find_from, update, ltb, leb, ◌==◌, if◌then◌else◌,
}
use wapi.Abi.{u32, u32_mod, le_zero}
use wapi.Guest.{Guest, memory_size, wasm_ptr, peek, poke}

-- `wapi_mem_alloc_t`; a block of size 0 has been freed.
pub record Block : Type 0 where
  pub offset : ℕ
  pub size : ℕ

-- The allocator's share of `g_rt`, with the memory that it allocates from.
pub record Heap : Type 0 where
  pub guest : Guest
  pub allocs : ℕ → Block
  pub alloc_count : ℕ
  pub heap_top : ℕ
  pub initialized : Bool
  pub last_error : String

abbrev pub max_allocs : ℕ
max_allocs = 4096

abbrev pub page_size : ℕ
page_size = 65536

-- `(val + align - 1) & ~(align - 1)` on `uint32_t`.
unfoldable pub align_up : ℕ → ℕ → ℕ
align_up val align = bit_and (u32 (val + align - 1)) (u32_mod - align)

-- `mem_ensure_init`: the heap starts behind the memory that the module brought.
unfoldable pub ensure_init : Heap → Heap
ensure_init h = if h.initialized then h else record h {
  heap_top = align_up (u32 (memory_size h.guest)) 16;
  alloc_count = 0;
  initialized = true;
}

abbrev pub live_at : Heap → ℕ → ℕ → Bool
live_at h offset i = (h.allocs i).offset == offset && ltb 0 (h.allocs i).size

-- `mem_find_alloc`; `none` is -1.
unfoldable pub find_alloc : Heap → ℕ → Option ℕ
find_alloc h offset = find_from (live_at h offset) 0 h.alloc_count

-- What reserving room for a block comes to.
pub data Reserved : Type 0 where
  table_full overflow grow_failed : Reserved
  room : ℕ → ℕ → Guest → Reserved

-- The new block's table entry, and the bump pointer behind it.
abbrev pub record_block : Heap → ℕ → ℕ → ℕ → Guest → Heap
record_block h aligned_top size new_top g = record h {
  guest = g;
  allocs = update h.allocs h.alloc_count (record { offset = aligned_top; size = size });
  alloc_count = h.alloc_count + 1;
  heap_top = new_top;
}

-- `g_rt.mem_allocs[idx].size = 0`
abbrev pub mark_free : Heap → ℕ → Heap
mark_free h idx = record h {
  allocs = update h.allocs idx (record { offset = (h.allocs idx).offset; size = 0 });
}

abbrev pub power_of_two : ℕ → Bool
power_of_two alignment = bit_and alignment (alignment - 1) == 0

unfoldable pub free : ℕ → Heap → Heap
free ptr h₀ =
    if ptr == 0
    then h₀
    else let h = ensure_init h₀ in elim (find_alloc h ptr) [ none ↦ h | some idx ↦ mark_free h idx ]

unfoldable pub usable_size : ℕ → Heap → ℕ × Heap
usable_size ptr h₀ =
    let h = ensure_init h₀ in
    if ptr == 0
    then (0, h)
    else elim (find_alloc h ptr) [ none ↦ (0, h) | some idx ↦ ((h.allocs idx).size, h) ]

-- How `alloc` ends: the reason of a failure is kept for `wapi_env`'s last error.
unfoldable pub settle : Heap → ℕ → Reserved → ℕ × Heap
settle h size table_full = (0, record h { last_error = "Memory allocation table full" })
settle h size overflow = (0, record h { last_error = "Memory allocation overflow" })
settle h size grow_failed = (0, record h { last_error = "Failed to grow wasm memory" })
settle h size (room aligned_top new_top g) =
    (aligned_top, record_block h aligned_top size new_top g)

-- How `realloc` ends where it allocates without moving: it is silent about the reason.
unfoldable pub settle_quietly : Heap → ℕ → Reserved → ℕ × Heap
settle_quietly h size (room aligned_top new_top g) =
    (aligned_top, record_block h aligned_top size new_top g)
settle_quietly h size _ = (0, h)

-- `memcpy(new_host, old_host, old_size)` if both pointers are good.
unfoldable pub copy_block : Guest → ℕ → ℕ → ℕ → ℕ → Guest
copy_block g ptr old_size aligned_top new_size = elim (wasm_ptr g ptr old_size) [
  | none ↦ g
  | some old_host ↦ elim (wasm_ptr g aligned_top new_size) [
    | none ↦ g
    | some new_host ↦ poke g new_host (peek g old_host old_size)
  ]
]

-- How a move ends: the copy, the old entry freed, the new entry recorded.
unfoldable pub settle_move : ℕ → ℕ → ℕ → Heap → Reserved → ℕ × Heap
settle_move ptr idx new_size h (room aligned_top new_top g) = (
  aligned_top,
  record_block (mark_free h idx) aligned_top new_size new_top
      (copy_block g ptr (h.allocs idx).size aligned_top new_size),
)
settle_move ptr idx new_size h _ = (0, h)

-- `wasmtime_memory_grow` adds whole pages, or refuses.
module _ (grow : Guest → ℕ → Option Guest) where
  -- The table check, the two alignments and the growth that `alloc` and both paths of `realloc` share.
  unfoldable pub reserve : Heap → ℕ → ℕ → Reserved
  reserve h size alignment =
      if leb max_allocs h.alloc_count
      then table_full
      else let aligned_top = align_up h.heap_top alignment in
        let new_top = u32 (aligned_top + size) in
        let current_size = memory_size h.guest in
        if ltb new_top aligned_top
        then overflow
        else if ltb current_size new_top
        then elim (grow h.guest ((new_top - current_size + page_size - 1) / page_size)) [
          | none ↦ grow_failed
          | some g ↦ room aligned_top new_top g
        ]
        else room aligned_top new_top h.guest

  unfoldable pub alloc : ℕ → ℕ → Heap → ℕ × Heap
  alloc size alignment h₀ =
      let h = ensure_init h₀ in
      if le_zero size || le_zero alignment
      then (0, h)
      else if not (power_of_two alignment)
      then (0, h)
      else settle h size (reserve h size alignment)

  -- `realloc(NULL, size, align)`: as `alloc`, and silent about the reason of a failure.
  unfoldable pub realloc_null : ℕ → ℕ → Heap → ℕ × Heap
  realloc_null new_size alignment h =
      if le_zero new_size || (le_zero alignment || not (power_of_two alignment))
      then (0, h)
      else settle_quietly h new_size (reserve h new_size alignment)

  -- The block moves to new room, if there is any.
  unfoldable pub realloc_move : ℕ → ℕ → ℕ → ℕ → Heap → ℕ × Heap
  realloc_move ptr idx new_size alignment h =
      settle_move ptr idx new_size h (reserve h new_size alignment)

  unfoldable pub realloc : ℕ → ℕ → ℕ → Heap → ℕ × Heap
  realloc ptr new_size alignment h₀ =
      let h = ensure_init h₀ in
      if ptr == 0 then realloc_null new_size alignment h else elim (find_alloc h ptr) [
        | none ↦ (0, record h { last_error = "realloc: unknown pointer" })
        | some idx ↦
            if le_zero new_size
            then (0, mark_free h idx)
            else if leb new_size (h.allocs idx).size
            then (ptr, h)
            else realloc_move ptr idx new_size
                (if le_zero alignment || not (power_of_two alignment) then 16 else alignment) h
      ]
