-- ===== src/Memory/Alloc.antt =====
-- What `alloc` gives to the guest, and what `free` takes back.
use wapi.Base.{
  ℕ, ◌+◌, ◌%◌, ◌≤◌, ◌<◌, ◌≡◌, refl, ap, ◌∙◌, ◌≢◌, ◌⊎◌, inl, inr, true, Option, some, arith,
  update_self, find_from-Found, find_from-hit, ℕ_discrete,
}
use wapi.Abi.{u32_mod}
use wapi.Guest.{Guest, memory_size}
use wapi.Memory.{
  Heap, Reserved, room, reserve, alloc, settle, find_alloc, live_at, record_block, ensure_init,
  power_of_two,
}
use wapi.Memory.Align.{power_of_two-Divides32}
use wapi.Memory.Reserve.{GrowsByPages, Room, reserve-Room}
use wapi.Memory.Blocks.{IsValid, Live, block_end, record_block-IsValid}

live_at-Live :
    (h : Heap) (p i : ℕ)
    → i < h.alloc_count
    → live_at h p i ≡ true
    → Live h i × ((h.allocs i).offset ≡ p)
live_at-Live h p i lt e = ground arith

-- The lookup finds a live block by its address, since no two live blocks share one.
pub find_alloc-Live :
    (base : ℕ) (h : Heap) (i : ℕ)
    → IsValid base h
    → Live h i
    → find_alloc h (h.allocs i).offset ≡ some i
unfolding find_alloc
find_alloc-Live base h i v live =
    let p = (h.allocs i).offset in
    let (k, e) =
      find_from-hit (live_at h p) 0 h.alloc_count i (omega arith) (omega (arith, live.recorded))
        (ground (arith, live.in_use)) in
    let f = find_from-Found (live_at h p) 0 h.alloc_count k e in
    let (live', same) = live_at-Live h p k (omega (arith, f.high)) f.hit in
    elim (ℕ_discrete k i) [
      | yes eq ↦ e ∙ ap some eq
      | no ne ↦ absurd (omega (arith, v.apart k i ne live' live, live'.in_use, live.in_use))
    ]

-- And what it finds is live and has the address.
pub find_alloc-some :
    (h : Heap) (p : ℕ) {i : ℕ} → find_alloc h p ≡ some i → Live h i × ((h.allocs i).offset ≡ p)
unfolding find_alloc
find_alloc-some h p {i} e =
    let f = find_from-Found (live_at h p) 0 h.alloc_count i e in
    live_at-Live h p i (omega (arith, f.high)) f.hit

-- A block that `alloc` or `realloc` placed at `p`.
pub record Placed (base : ℕ) (h : Heap) (size alignment p : ℕ) (h' : Heap) : Type 0 where
  pub not_null : p ≢ 0
  pub aligned : p % alignment ≡ 0
  pub valid : IsValid base h'
  pub found : find_alloc h' p ≡ some h.alloc_count
  pub sized : (h'.allocs h.alloc_count).size ≡ size
  pub in_memory : p + size ≤ memory_size h'.guest
  pub kept : (j : ℕ) → j < h.heap_top → h'.guest.bytes j ≡ h.guest.bytes j
  pub behind : (i : ℕ) → Live h i → block_end h i ≤ p

-- Nothing was placed: the table, the bump pointer and the memory are as before.
pub record Refused (h : Heap) (p : ℕ) (h' : Heap) : Type 0 where
  pub null : p ≡ 0
  pub same_guest : h'.guest ≡ h.guest
  pub same_allocs : h'.allocs ≡ h.allocs
  pub same_count : h'.alloc_count ≡ h.alloc_count
  pub same_top : h'.heap_top ≡ h.heap_top

pub record_block-Placed :
    (base : ℕ) (h : Heap) {size alignment p top : ℕ} {g : Guest}
    → IsValid base h
    → 0 < size
    → Room h size alignment p top g
    → Placed base h size alignment p (record_block h p size top g)
record_block-Placed base h {size} {alignment} {p} {top} {g} v pos r =
    let h' = record_block h p size top g in
    let valid = record_block-IsValid base h v r in
    let entry = update_self h.allocs h.alloc_count (record { offset = p; size = size }) in
    let offset : (h'.allocs h.alloc_count).offset ≡ p = ap (λ b. b.offset) entry in
    let sized : (h'.allocs h.alloc_count).size ≡ size = ap (λ b. b.size) entry in
    record {
      not_null = λ e. omega (arith, e, v.not_null, v.start, r.above);
      aligned = r.aligned;
      valid = valid;
      found = rw offset at (
          find_alloc-Live base h' h.alloc_count valid
            (record { recorded = omega arith; in_use = omega (arith, sized, pos) }));
      sized = sized;
      in_memory = omega (arith, r.end, r.inside);
      kept = r.extends.kept;
      behind = λ i live. let (lo, hi) = v.inside i live in omega (arith, hi, r.above);
    }

-- Once the allocator is set up, `mem_ensure_init` does nothing.
pub ensure_init-ready : (h : Heap) → h.initialized ≡ true → ensure_init h ≡ h
unfolding ensure_init
ensure_init-ready h e = ground arith

-- What the argument checks let through.
pub record Accepted (size alignment : ℕ) : Type 0 where
  pub some_size : 0 < size
  pub some_alignment : 0 < alignment
  pub power : power_of_two alignment ≡ true

module _ (grow : Guest → ℕ → Option Guest) (law : GrowsByPages grow) where
  pub settle-cases :
      (base size alignment : ℕ) (h : Heap) (r : Reserved)
      → IsValid base h
      → size < u32_mod
      → alignment < u32_mod
      → h.heap_top + alignment ≤ u32_mod
      → Accepted size alignment
      → reserve grow h size alignment ≡ r
      → Placed base h size alignment (settle h size r).0 (settle h size r).1
        ⊎ Refused h (settle h size r).0 (settle h size r).1
  unfolding settle
  settle-cases base size alignment h (room p top g) v sz al low a e =
      let d = power_of_two-Divides32 alignment a.some_alignment al a.power in
      inl (
        record_block-Placed base h v a.some_size
          (reserve-Room grow law h size alignment v.memory v.present d sz low e))
  settle-cases base size alignment h _ v sz al low a e = inr (record {
    null = refl;
    same_guest = refl;
    same_allocs = refl;
    same_count = refl;
    same_top = refl;
  })

  -- The result of `alloc` on a heap that is set up, by its checks.
  alloc-checks :
      (size alignment : ℕ) (h : Heap)
      → h.initialized ≡ true
      → (Accepted size alignment
          × (alloc grow size alignment h ≡ settle h size (reserve grow h size alignment)))
        ⊎ (alloc grow size alignment h ≡ (0, h))
  unfolding alloc
  alloc-checks size alignment h ready = rw (ensure_init-ready h ready) (ground arith)

  -- On a heap that satisfies the invariant, with the size and the alignment below 2 ^ 32 and no
  -- wrap in the alignment of the bump pointer, and a memory that grows by whole pages, `alloc`
  -- either places a block: not NULL, aligned, inside the memory, behind every live block, found
  -- by the lookup, with the older bytes kept and the invariant again true; or it returns 0 and
  -- leaves memory, table and bump pointer as they were.
  pub alloc_lem :
      (base size alignment : ℕ) (h : Heap)
      → IsValid base h
      → size < u32_mod
      → alignment < u32_mod
      → h.heap_top + alignment ≤ u32_mod
      → let (p, h') = alloc grow size alignment h in
        Placed base h size alignment p h' ⊎ Refused h p h'
  alloc_lem base size alignment h v sz al low = elim (alloc-checks size alignment h v.ready) [
    | inl (a, e) ↦ rw e (settle-cases base size alignment h _ v sz al low a refl)
    | inr e ↦ rw e (
        inr (record {
          null = refl;
          same_guest = refl;
          same_allocs = refl;
          same_count = refl;
          same_top = refl;
        }))
  ]
