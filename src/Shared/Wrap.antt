-- ===== src/Shared/Wrap.antt =====
-- Where the 64-bit sums of the bounds checks wrap, the checks let ranges through that lie outside.
use wapi.Base.{ℕ, ◌+◌, ◌≤◌, ◌<◌, ◌≡◌, refl, Bool, true, some, arith, find_from, update_self}
use wapi.Abi.{u64_mod, ok}
use wapi.Guest.{Guest}
use wapi.Shared.{Pool, ensure, read, alloc, place, aligned_bump, free_slot, add_block, max_blocks}
use wapi.Shared.Place.{IsValid, alloc-present, aligned_bump_bounds}

-- On a pool that satisfies the invariant, `shared_read` of 64-bit offset and length also succeeds
-- where their sum wraps to an end inside the region, though the range then ends past the region;
-- the range in the caller's memory is taken to be inside it.
pub read_past_region :
    (calloc : Bool) (off ptr len : ℕ) (s : Pool) (m : Guest)
    → IsValid s
    → m.memory_valid ≡ true
    → off < u64_mod
    → len < u64_mod
    → ptr + len ≤ m.data_size
    → m.data_size < u64_mod
    → u64_mod ≤ off + len
    → off + len ≤ u64_mod + s.capacity
    → ((read calloc off ptr len s m).0 ≡ ok) × (s.capacity < off + len)
unfolding read ensure
read_past_region calloc off ptr len s m v e o l fits small wraps low =
    ground (arith, v.present, v.whole)

-- The branch that such a request takes.
place_wrapped :
    (size : ℕ) (s : Pool) {i : ℕ}
    → aligned_bump s.bump 1 ≡ s.bump
    → u64_mod ≤ s.bump + size
    → size < u64_mod
    → IsValid s
    → find_from (free_slot s) 0 max_blocks ≡ some i
    → place size 1 s ≡ (s.bump, add_block s i s.bump size)
unfolding place
place_wrapped size s {i = i} here wraps z v e = ground (arith, v.whole)

-- On a pool that satisfies the invariant and has a free slot, a request to `shared_alloc` whose
-- size makes the end of the block wrap is granted: the block recorded at the cursor reaches past
-- the region, and the cursor moves back.
alloc_past_region :
    (calloc : Bool) (size : ℕ) (s : Pool) {i : ℕ}
    → IsValid s
    → size < u64_mod
    → u64_mod ≤ s.bump + size
    → find_from (free_slot s) 0 max_blocks ≡ some i
    → let (off, s') = alloc calloc size 1 s in
      (off ≡ s.bump)
      × (s'.allocs i ≡ record { offset = s.bump; size = size; in_use = true })
      × (s.capacity < off + size)
      × (s'.bump < s.bump)
alloc_past_region calloc size s {i = i} v z wraps e =
    let (lo, hi) = aligned_bump_bounds s.bump 1 (omega arith) (omega (arith, v.whole)) in
    let here : aligned_bump s.bump 1 ≡ s.bump = omega arith in
    rw (alloc-present calloc size 1 s v.present, place_wrapped size s here wraps z v e)
      (refl, update_self s.allocs i _, omega (arith, v.whole), omega (arith, v.whole))
