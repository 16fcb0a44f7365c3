-- ===== src/Memory/Blocks.antt =====
-- The invariant of the allocator: the live blocks lie side by side between the module's own data and
-- the bump pointer, inside the memory.
use wapi.Base.{
  ℕ, ◌+◌, ◌≤◌, ◌<◌, ◌≡◌, sym, ◌∙◌, ◌≢◌, ◌⊎◌, inl, inr, true, arith, update_ne, ℕ_discrete,
}
use wapi.Guest.{Guest, memory_size}
use wapi.Memory.{Heap, Block, record_block, mark_free, max_allocs}
use wapi.Memory.Reserve.{Room}

-- `i` is the index of a block that is in use.
pub record Live (h : Heap) (i : ℕ) : Type 0 where
  pub recorded : i < h.alloc_count
  pub in_use : 0 < (h.allocs i).size

abbrev pub block_end : Heap → ℕ → ℕ
block_end h i = (h.allocs i).offset + (h.allocs i).size

-- `base` is where the heap starts.
pub record IsValid (base : ℕ) (h : Heap) : Type 0 where
  pub ready : h.initialized ≡ true
  pub present : h.guest.memory_valid ≡ true
  pub not_null : 0 < base
  pub start : base ≤ h.heap_top
  pub memory : h.heap_top ≤ memory_size h.guest
  pub table : h.alloc_count ≤ max_allocs
  pub inside : (i : ℕ) → Live h i → (base ≤ (h.allocs i).offset) × (block_end h i ≤ h.heap_top)
  pub apart :
      (i j : ℕ)
      → i ≢ j
      → Live h i
      → Live h j
      → (block_end h i ≤ (h.allocs j).offset) ⊎ (block_end h j ≤ (h.allocs i).offset)

-- The block at `i` of a new table: an old live one, or the one recorded last.
data Origin (h : Heap) (p size i : ℕ) (b : Block) : Type 0 where
  old : Live h i → b.offset ≡ (h.allocs i).offset → b.size ≡ (h.allocs i).size → Origin h p size i b
  new : i ≡ h.alloc_count → b.offset ≡ p → b.size ≡ size → Origin h p size i b

record_block-Origin :
    (h : Heap) (p size top i : ℕ) (g : Guest)
    → Live (record_block h p size top g) i
    → Origin h p size i ((record_block h p size top g).allocs i)
record_block-Origin h p size top i g live = elim (ℕ_discrete i h.alloc_count) [
  | yes e ↦ new e (ground arith) (ground arith)
  | no ne ↦ old (ground arith) (ground arith) (ground arith)
]

-- A block that was there before lies below the bump pointer, the new one above it.
stays_inside :
    (base : ℕ) (h : Heap) {p size i : ℕ} {b : Block}
    → IsValid base h
    → h.heap_top ≤ p
    → Origin h p size i b
    → (base ≤ b.offset) × (b.offset + b.size ≤ p + size)
stays_inside base h v above (old live o s) =
    let (lo, hi) = v.inside _ live in (omega arith, omega arith)
stays_inside base h v above (new e o s) = (omega (arith, v.start), omega arith)

stays_apart :
    (base : ℕ) (h : Heap) {p size i j : ℕ} {b c : Block}
    → IsValid base h
    → h.heap_top ≤ p
    → i ≢ j
    → Origin h p size i b
    → Origin h p size j c
    → (b.offset + b.size ≤ c.offset) ⊎ (c.offset + c.size ≤ b.offset)
stays_apart base h {i = i} {j = j} v above ne (old live o s) (old live' o' s') =
    omega (arith, v.apart i j ne live live')
stays_apart base h {i = i} v above ne (old live o s) (new e o' s') =
    let (lo, hi) = v.inside i live in inl (omega arith)
stays_apart base h {j = j} v above ne (new e o s) (old live o' s') =
    let (lo, hi) = v.inside j live in inr (omega arith)
stays_apart base h v above ne (new e o s) (new e' o' s') = absurd (ne (e ∙ sym e'))

-- Recording a block for which there is room keeps the invariant.
pub record_block-IsValid :
    (base : ℕ) (h : Heap) {size alignment p top : ℕ} {g : Guest}
    → IsValid base h
    → Room h size alignment p top g
    → IsValid base (record_block h p size top g)
record_block-IsValid base h {size} {alignment} {p} {top} {g} v r = record {
  ready = v.ready;
  present = r.extends.present;
  not_null = v.not_null;
  start = omega (arith, v.start, r.above, r.end);
  memory = r.inside;
  table = omega (arith, r.entry);
  inside = λ i live.
      let (lo, hi) = stays_inside base h v r.above (record_block-Origin h p size top i g live) in
      (lo, omega (arith, r.end));
  apart = λ i j ne a b.
      stays_apart base h v r.above ne (record_block-Origin h p size top i g a)
        (record_block-Origin h p size top j g b);
}

-- A block that is live after one was freed was live before, and is the same.
pub mark_free-Live :
    (h : Heap) (idx i : ℕ)
    → Live (mark_free h idx) i
    → Live h i × (i ≢ idx) × ((mark_free h idx).allocs i ≡ h.allocs i)
mark_free-Live h idx i live = elim (ℕ_discrete i idx) [
  | yes e ↦ absurd (ground arith)
  | no ne ↦ (ground arith, ne, update_ne h.allocs idx _ i ne)
]

-- So does freeing a block.
pub mark_free-IsValid :
    (base : ℕ) (h : Heap) (idx : ℕ) → IsValid base h → IsValid base (mark_free h idx)
mark_free-IsValid base h idx v = record {
  ready = v.ready;
  present = v.present;
  not_null = v.not_null;
  start = v.start;
  memory = v.memory;
  table = v.table;
  inside =
      λ i live. let (before, _, same) = mark_free-Live h idx i live in rw same (v.inside i before);
  apart = λ i j ne a b.
      let (before, _, same) = mark_free-Live h idx i a in
      let (before', _, same') = mark_free-Live h idx j b in
      rw (same, same') (v.apart i j ne before before');
}
