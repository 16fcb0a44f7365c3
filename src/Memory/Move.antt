-- ===== src/Memory/Move.antt =====
-- `realloc` to a larger size: the block moves, and its bytes go with it.
use wapi.Base.{
  update_self, update_ne, ℕ, ◌+◌, ◌≤◌, ◌<◌, ◌≡◌, refl, ap, sym, ◌∙◌, ◌⊎◌, inl, inr, true, false,
  Option, List, arith, cells, cells_ext, cells-store, store, store_below, length-cells,
}
use wapi.Abi.{u32_mod, is_neg}
use wapi.Guest.{Guest, memory_size, peek, poke}
use wapi.Guest.Access.{wasm_ptr_complete}
use wapi.Memory.{
  Heap, Reserved, room, reserve, realloc, realloc_move, settle_move, copy_block, mark_free,
}
use wapi.Memory.Align.{Divides32, power_of_two-Divides32}
use wapi.Memory.Reserve.{GrowsByPages, Room, reserve-Room}
use wapi.Memory.Blocks.{IsValid, Live, mark_free-IsValid}
use wapi.Memory.Alloc.{Placed, Accepted, find_alloc-Live, record_block-Placed, ensure_init-ready}

-- The copy of an old block below the bump pointer to a new one above it.
copy_block-poke :
    (g : Guest) (ptr old p new : ℕ)
    → g.memory_valid ≡ true
    → 0 < old
    → old < new
    → ptr + old ≤ p
    → p + new ≤ memory_size g
    → copy_block g ptr old p new ≡ poke g p (peek g ptr old)
unfolding copy_block
copy_block-poke g ptr old p new v pos lt below fit =
    rw
      (
        wasm_ptr_complete g ptr old v (λ e. omega arith) (omega arith),
        wasm_ptr_complete g p new v (λ e. omega arith) fit,
        copy_block,
      )
      refl

-- The room for a block stays room when the memory is written above the bump pointer.
Room-poke :
    (h : Heap) {size alignment p top : ℕ} {g : Guest} (idx : ℕ) (bs : List ℕ)
    → Room h size alignment p top g
    → Room (mark_free h idx) size alignment p top (poke g p bs)
unfolding memory_size
Room-poke h {p = p} {g = g} idx bs r = record {
  extends = record {
    present = r.extends.present;
    larger = r.extends.larger;
    kept = λ j lt. store_below g.bytes p bs j (omega (arith, r.above)) ∙ r.extends.kept j lt;
  };
  aligned = r.aligned;
  above = r.above;
  end = r.end;
  inside = r.inside;
  word = r.word;
  entry = r.entry;
}

-- The block `i` has moved to `p`.
pub record Moved (base : ℕ) (h : Heap) (i new_size alignment p : ℕ) (h' : Heap) : Type 0 where
  pub placed : Placed base (mark_free h i) new_size alignment p h'
  pub freed : (h'.allocs i).size ≡ 0
  pub copied :
      peek h'.guest p (h.allocs i).size ≡ peek h.guest (h.allocs i).offset (h.allocs i).size

-- The bytes copied, as they were before the memory grew.
store-peek :
    (f f₀ : ℕ → ℕ) (p old n : ℕ)
    → ((j : ℕ) → old ≤ j → j < old + n → f j ≡ f₀ j)
    → cells (store f p (cells f old n)) p n ≡ cells f₀ old n
store-peek f f₀ p old n same =
    ap (cells (store f p (cells f old n)) p) (sym (length-cells f old n))
    ∙ cells-store f p (cells f old n)
    ∙ cells_ext f f₀ old n same

module _ (grow : Guest → ℕ → Option Guest) (law : GrowsByPages grow) where
  settle_move-Moved :
      (base : ℕ) (h : Heap) (i new_size alignment : ℕ) (r : Reserved)
      → IsValid base h
      → Live h i
      → (h.allocs i).size < new_size
      → new_size < u32_mod
      → Divides32 alignment
      → h.heap_top + alignment ≤ u32_mod
      → reserve grow h new_size alignment ≡ r
      → let (p, h') = settle_move (h.allocs i).offset i new_size h r in
        Moved base h i new_size alignment p h' ⊎ ((p ≡ 0) × (h' ≡ h))
  unfolding settle_move
  settle_move-Moved base h i new_size alignment (room p top g) v live lt sz d low e =
      let r = reserve-Room grow law h new_size alignment v.memory v.present d sz low e in
      let old = (h.allocs i).offset in
      let n = (h.allocs i).size in
      let (lo, hi) = v.inside i live in
      let bs = peek g old n in
      let wrote =
        copy_block-poke g old n p new_size r.extends.present live.in_use lt (omega (arith, r.above))
          (omega (arith, r.end, r.inside)) in
      rw wrote (
        inl (record {
          placed =
              record_block-Placed base (mark_free h i) (mark_free-IsValid base h i v)
                (omega (arith, lt)) (Room-poke h i bs r);
          freed =
              ap (λ b. b.size)
                (update_ne (mark_free h i).allocs h.alloc_count _ i
                    (λ e. omega (arith, live.recorded))
                  ∙ update_self h.allocs i _);
          copied =
              store-peek g.bytes h.guest.bytes p old n (λ j a b. r.extends.kept j (omega arith));
        }))
  settle_move-Moved base h i new_size alignment _ v live lt sz d low e = inr (refl, refl)

  -- `realloc` of a live block to a larger size, under an alignment that is a power of two.
  realloc-grows :
      (base : ℕ) (h : Heap) (i new_size alignment : ℕ)
      → IsValid base h
      → Live h i
      → (h.allocs i).size < new_size
      → is_neg new_size ≡ false
      → Accepted new_size alignment
      → is_neg alignment ≡ false
      → realloc grow (h.allocs i).offset new_size alignment h
        ≡ settle_move (h.allocs i).offset i new_size h (reserve grow h new_size alignment)
  unfolding realloc realloc_move
  realloc-grows base h i new_size alignment v live lt pos a al =
      let (lo, hi) = v.inside i live in
      ground (
        arith,
        ensure_init-ready h v.ready,
        find_alloc-Live base h i v live,
        v.not_null,
        a.power,
        a.some_alignment,
      )

  -- On a heap that satisfies the invariant, `realloc` of a live block to a larger size under 2 ^
  -- 31, with a power of two below 2 ^ 31 as alignment and no wrap in the alignment of the bump
  -- pointer, either moves the block: the old bytes are at the new place, the old block is free
  -- and the new one placed as by `alloc`; or it returns 0 and changes nothing.
  pub realloc_lem :
      (base : ℕ) (h : Heap) (i new_size alignment : ℕ)
      → IsValid base h
      → Live h i
      → (h.allocs i).size < new_size
      → is_neg new_size ≡ false
      → Accepted new_size alignment
      → is_neg alignment ≡ false
      → h.heap_top + alignment ≤ u32_mod
      → let (p, h') = realloc grow (h.allocs i).offset new_size alignment h in
        Moved base h i new_size alignment p h' ⊎ ((p ≡ 0) × (h' ≡ h))
  realloc_lem base h i new_size alignment v live lt pos a al low =
      let d = power_of_two-Divides32 alignment a.some_alignment (omega arith) a.power in
      rw (realloc-grows base h i new_size alignment v live lt pos a al)
        (settle_move-Moved base h i new_size alignment _ v live lt (ground arith) d low refl)
