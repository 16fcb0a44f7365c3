-- ===== src/Shared/Place.antt =====
-- The blocks of the shared region are in its bounds and apart, as long as no 64-bit sum wraps.
use wapi.Base.{
  ℕ, ◌+◌, ◌-◌, ◌*◌, ◌/◌, ◌%◌, ◌^◌, ◌≤◌, ◌<◌, ◌≡◌, refl, ap, sym, ◌∙◌, ◌≢◌, ◌⊎◌, inl, inr, Bool,
  true, some, arith, update_self, update_ne, Option-cases, Bool-cases, find_from, find_from-Found,
  ℕ_discrete, ltb,
}
use native.Mathlib.Nat.{mul-mod_left, one-le-pow}
use Prim.Native.Nat.{bit_and}
use wapi.Base.Bits.{le-round_up, round_down, pow-split}
use wapi.Abi.{u64, u64_mod}
use wapi.Shared.{
  Pool, Block, pool_capacity, max_blocks, free_slot, add_block, drop_block, aligned_bump,
  at_least_one, place, alloc, ensure,
}

pub record Live (s : Pool) (i : ℕ) : Type 0 where
  pub in_table : i < max_blocks
  pub in_use : (s.allocs i).in_use ≡ true

abbrev pub block_end : Pool → ℕ → ℕ
block_end s i = (s.allocs i).offset + (s.allocs i).size

pub record IsValid (s : Pool) : Type 0 where
  pub present : s.present ≡ true
  pub whole : s.capacity ≡ pool_capacity
  pub low : 8 ≤ s.bump
  pub high : s.bump ≤ s.capacity
  pub inside :
      (i : ℕ)
      → Live s i
      → (8 ≤ (s.allocs i).offset) × (0 < (s.allocs i).size) × (block_end s i ≤ s.bump)
  pub apart :
      (i j : ℕ)
      → i ≢ j
      → Live s i
      → Live s j
      → (block_end s i ≤ (s.allocs j).offset) ⊎ (block_end s j ≤ (s.allocs i).offset)

-- The aligned cursor is not below the cursor, and above it by less than the alignment.
pub aligned_bump_bounds :
    (bump align : ℕ)
    → 0 < align
    → bump + align ≤ u64_mod
    → (bump ≤ aligned_bump bump align) × (aligned_bump bump align < bump + align)
unfolding aligned_bump
aligned_bump_bounds bump align pos h =
    let sum : u64 (bump + (align - 1)) ≡ bump + (align - 1) = omega arith in
    let (lo, hi) = le-round_up 64 bump (align - 1) (omega arith) in rw sum (lo, omega arith)

-- Under an alignment that is a power of two the aligned cursor is a multiple of it.
pub aligned_bump_multiple :
    (bump align k : ℕ) → align ≡ 2 ^ k → k < 64 → aligned_bump bump align % align ≡ 0
unfolding aligned_bump
aligned_bump_multiple bump align k power small =
    let pos : 0 < align = omega (arith, power, one-le-pow k 2 (omega arith)) in
    let fits : 2 ^ (64 - k) * align ≡ u64_mod =
      ap (λ (t : ℕ). 2 ^ (64 - k) * t) power ∙ pow-split (64 - k) k 64 (omega arith) in
    let size : align ≤ u64_mod = grind (arith, fits, one-le-pow (64 - k) 2 (omega arith)) in
    let mask : u64_mod - 1 - (align - 1) ≡ u64_mod - align = omega arith in
    let x = u64 (bump + (align - 1)) in
    rw (ap (bit_and x) mask, round_down x align u64_mod k (64 - k) power fits (omega arith))
      (mul-mod_left (x / align) align)

-- The block recorded at `i`, in a table whose blocks end at the cursor.
-- The block at a slot of the new table: an old one, or the new one.
data Origin (s : Pool) (i off size j : ℕ) (b : Block) : Type 0 where
  old :
      Live s j
      → b.offset ≡ (s.allocs j).offset
      → b.size ≡ (s.allocs j).size
      → Origin s i off size j b
  new : j ≡ i → b.offset ≡ off → b.size ≡ size → Origin s i off size j b

add_block-Origin :
    (s : Pool) (i off size j : ℕ)
    → Live (add_block s i off size) j
    → Origin s i off size j ((add_block s i off size).allocs j)
add_block-Origin s i off size j live = elim (ℕ_discrete j i) [
  | yes e ↦ new e (ground arith) (ground arith)
  | no ne ↦ old (ground arith) (ground arith) (ground arith)
]

stays_inside :
    (s : Pool) {i off size j : ℕ} {b : Block}
    → IsValid s
    → s.bump ≤ off
    → 0 < size
    → Origin s i off size j b
    → (8 ≤ b.offset) × (0 < b.size) × (b.offset + b.size ≤ off + size)
stays_inside s v lo pos (old live o z) =
    let (a, b, c) = v.inside _ live in (omega arith, omega arith, omega arith)
stays_inside s v lo pos (new e o z) = (omega (arith, v.low), omega arith, omega arith)

stays_apart :
    (s : Pool) {i off size j k : ℕ} {b c : Block}
    → IsValid s
    → s.bump ≤ off
    → j ≢ k
    → Origin s i off size j b
    → Origin s i off size k c
    → (b.offset + b.size ≤ c.offset) ⊎ (c.offset + c.size ≤ b.offset)
stays_apart s {j = j} {k = k} v lo ne (old live o z) (old live' o' z') =
    omega (arith, v.apart j k ne live live')
stays_apart s {j = j} v lo ne (old live o z) (new e o' z') =
    let (_, _, c) = v.inside j live in inl (omega arith)
stays_apart s {k = k} v lo ne (new e o z) (old live o' z') =
    let (_, _, c) = v.inside k live in inr (omega arith)
stays_apart s v lo ne (new e o z) (new e' o' z') = absurd (ne (e ∙ sym e'))

add_block-IsValid :
    (s : Pool) (i off size : ℕ)
    → IsValid s
    → 0 < size
    → s.bump ≤ off
    → off + size ≤ s.capacity
    → free_slot s i ≡ true
    → IsValid (add_block s i off size)
add_block-IsValid s i off size v pos lo hi open_slot =
    let stop : u64 (off + size) ≡ off + size = omega (arith, v.whole) in
    record {
      present = v.present;
      whole = v.whole;
      low = omega (arith, stop, v.low);
      high = omega (arith, stop);
      inside = λ j live.
          let (a, b, c) = stays_inside s v lo pos (add_block-Origin s i off size j live) in
          (a, b, omega (arith, stop, c));
      apart = λ j k ne a b.
          stays_apart s v lo ne (add_block-Origin s i off size j a)
            (add_block-Origin s i off size k b);
    }

-- A block in use after one was dropped was in use before, and is the same.
pub drop_block-Live :
    (s : Pool) (i j : ℕ)
    → Live (drop_block s i) j
    → Live s j × (j ≢ i) × ((drop_block s i).allocs j ≡ s.allocs j)
drop_block-Live s i j live = elim (ℕ_discrete j i) [
  | yes e ↦ absurd (ground arith)
  | no ne ↦ (ground arith, ne, update_ne s.allocs i _ j ne)
]

pub drop_block-IsValid : (s : Pool) (i : ℕ) → IsValid s → IsValid (drop_block s i)
drop_block-IsValid s i v = record {
  present = v.present;
  whole = v.whole;
  low = v.low;
  high = v.high;
  inside =
      λ j live. let (before, _, same) = drop_block-Live s i j live in rw same (v.inside j before);
  apart = λ j k ne a b.
      let (before, _, same) = drop_block-Live s i j a in
      let (before', _, same') = drop_block-Live s i k b in
      rw (same, same') (v.apart j k ne before before');
}

-- A block that the region has given out.
pub record Placed (s : Pool) (size align off : ℕ) (s' : Pool) : Type 0 where
  pub not_null : off ≢ 0
  pub valid : IsValid s'
  pub slot : ℕ
  pub was_free : free_slot s slot ≡ true
  pub recorded : s'.allocs slot ≡ record { offset = off; size = at_least_one size; in_use = true }
  pub aligned : (k : ℕ) → at_least_one align ≡ 2 ^ k → k < 64 → off % at_least_one align ≡ 0
  pub in_region : off + at_least_one size ≤ s.capacity
  pub behind : (i : ℕ) → Live s i → block_end s i ≤ off
  pub others : (i : ℕ) → i ≢ slot → s'.allocs i ≡ s.allocs i

-- The branches of `place`.
record Branch (s : Pool) (size align i : ℕ) (r : ℕ × Pool) : Type 0 where
  fits : u64 (aligned_bump s.bump (at_least_one align) + at_least_one size) ≤ s.capacity
  slot : find_from (free_slot s) 0 max_blocks ≡ some i
  result : r ≡ (
    aligned_bump s.bump (at_least_one align),
    add_block s i (aligned_bump s.bump (at_least_one align)) (at_least_one size),
  )

place-Branch :
    (size align : ℕ) (s : Pool)
    → (place size align s ≡ (0, s)) ⊎ ((i : ℕ) × Branch s size align i (place size align s))
unfolding place
place-Branch size align s = elim (Option-cases (find_from (free_slot s) 0 max_blocks)) [
  | inl e ↦ inl (ground arith)
  | inr (i, e) ↦ elim (Bool-cases (ltb 4096 (at_least_one align))) [
    | inl big ↦ inl (ground arith)
    | inr fine ↦
        elim (Bool-cases
          (ltb s.capacity (u64 (aligned_bump s.bump (at_least_one align) + at_least_one size)))) [
            | inl over ↦ inl (ground arith)
            | inr under ↦ inr (i, record { fits = ground arith; slot = e; result = ground arith })
          ]
  ]
]

Branch-Placed :
    (s : Pool) (size align i : ℕ) {r : ℕ × Pool}
    → IsValid s
    → s.bump + at_least_one align + at_least_one size ≤ u64_mod
    → Branch s size align i r
    → Placed s size align r.0 r.1
Branch-Placed s size align i v h b =
    let off = aligned_bump s.bump (at_least_one align) in
    let n = at_least_one size in
    let f = find_from-Found (free_slot s) 0 max_blocks i b.slot in
    let pos : (0 < n) × (0 < at_least_one align) = (ground arith, ground arith) in
    let (lo, hi) = aligned_bump_bounds s.bump (at_least_one align) pos.1 (omega arith) in
    let fits : off + n ≤ s.capacity = omega (arith, b.fits) in
    rw b.result (record {
      not_null = λ e. omega (arith, v.low);
      valid = add_block-IsValid s i off n v pos.0 lo fits f.hit;
      slot = i;
      was_free = f.hit;
      recorded = update_self s.allocs i _;
      aligned = λ k power small. aligned_bump_multiple s.bump (at_least_one align) k power small;
      in_region = fits;
      behind = λ j live. let (_, _, c) = v.inside j live in omega arith;
      others = λ j ne. update_ne s.allocs i _ j ne;
    })

-- Once the region is there, `shared_mem_ensure` does nothing.
pub alloc-present :
    (calloc : Bool) (size align : ℕ) (s : Pool)
    → s.present ≡ true
    → alloc calloc size align s ≡ place size align s
unfolding alloc ensure
alloc-present calloc size align s e = ground arith

-- On a pool that satisfies the invariant, and as long as cursor, alignment and size do not add up
-- to more than 2 ^ 64, `shared_alloc` returns a block that is not 0, inside the region, aligned
-- to a power of two that was asked for, behind every block in use and recorded in a free slot,
-- with the other slots unchanged and the invariant kept; or it returns 0 and changes nothing.
pub shared_alloc_lem :
    (calloc : Bool) (size align : ℕ) (s : Pool)
    → IsValid s
    → s.bump + at_least_one align + at_least_one size ≤ u64_mod
    → let (off, s') = alloc calloc size align s in
      Placed s size align off s' ⊎ ((off ≡ 0) × (s' ≡ s))
shared_alloc_lem calloc size align s v h =
    rw (alloc-present calloc size align s v.present) (elim (place-Branch size align s) [
      | inl e ↦ rw e (inr (refl, refl))
      | inr (i, b) ↦ inl (Branch-Placed s size align i v h b)
    ])
