-- ===== src/Memory/Reserve.antt =====
-- What `reserve` finds: room above the bump pointer and inside the memory, or nothing.
use wapi.Base.{
  ℕ, ◌+◌, ◌-◌, ◌*◌, ◌/◌, ◌%◌, ◌≤◌, ◌<◌, ◌≡◌, refl, true, Option, some, arith, inl, inr, ◌⊎◌,
}
use wapi.Abi.{u32, u32_mod}
use wapi.Guest.{Guest, memory_size}
use wapi.Memory.{Heap, room, reserve, align_up, page_size, max_allocs}
use wapi.Memory.Align.{Divides32, align_up_lem}

-- What wasmtime documents of `wasmtime_memory_grow`: a growth that succeeds adds that many pages and
-- keeps the bytes.
pub record GrowsByPages (grow : Guest → ℕ → Option Guest) : Type 0 where
  pub grown :
      (g : Guest) (n : ℕ) {g' : Guest}
      → g.memory_valid ≡ true
      → grow g n ≡ some g'
      → (g'.memory_valid ≡ true)
        × (memory_size g' ≡ memory_size g + n * page_size)
        × ((j : ℕ) → j < memory_size g → g'.bytes j ≡ g.bytes j)

-- The memory `g'` is no smaller than `g` and agrees with it on the first `n` bytes.
pub record Extends (n : ℕ) (g g' : Guest) : Type 0 where
  pub present : g'.memory_valid ≡ true
  pub larger : memory_size g ≤ memory_size g'
  pub kept : (j : ℕ) → j < n → g'.bytes j ≡ g.bytes j

-- Room for a block of `size` bytes at `p`, ending at `top`.
pub record Room (h : Heap) (size alignment p top : ℕ) (g : Guest) : Type 0 where
  pub extends : Extends h.heap_top h.guest g
  pub aligned : p % alignment ≡ 0
  pub above : h.heap_top ≤ p
  pub end : top ≡ p + size
  pub inside : top ≤ memory_size g
  pub word : top < u32_mod
  pub entry : h.alloc_count < max_allocs

module _ (grow : Guest → ℕ → Option Guest) (law : GrowsByPages grow) where
  -- The pages asked for cover the bytes that are missing.
  enough_pages :
      (n : ℕ) (g : Guest) (top : ℕ) {g' : Guest}
      → n ≤ memory_size g
      → g.memory_valid ≡ true
      → memory_size g < top
      → grow g ((top - memory_size g + page_size - 1) / page_size) ≡ some g'
      → Extends n g g' × (top ≤ memory_size g')
  enough_pages n g top low v lt e =
      let (present, size, kept) = law.grown g _ v e in
      (
        record {
          present = present;
          larger = omega (arith, size);
          kept = λ j lt'. kept j (omega arith);
        },
        omega (arith, size),
      )

  -- The branches that end in room.
  record Branch (h : Heap) (size alignment p top : ℕ) (g : Guest) : Type 0 where
    place : p ≡ align_up h.heap_top alignment
    stop : top ≡ u32 (p + size)
    ordered : p ≤ top
    entry : h.alloc_count < max_allocs
    memory :
        ((top ≤ memory_size h.guest) × (g ≡ h.guest))
        ⊎ ((memory_size h.guest < top)
            × (grow h.guest ((top - memory_size h.guest + page_size - 1) / page_size) ≡ some g))

  reserve-Branch :
      (h : Heap) (size alignment : ℕ) {p top : ℕ} {g : Guest}
      → reserve grow h size alignment ≡ room p top g
      → Branch h size alignment p top g
  unfolding reserve
  reserve-Branch h size alignment e = record {
    place = ground arith;
    stop = ground arith;
    ordered = ground arith;
    entry = ground arith;
    memory = ground arith;
  }

  extends :
      (h : Heap) (size alignment : ℕ) {p top : ℕ} {g : Guest}
      → h.heap_top ≤ memory_size h.guest
      → h.guest.memory_valid ≡ true
      → Branch h size alignment p top g
      → Extends h.heap_top h.guest g × (top ≤ memory_size g)
  extends h size alignment fit v b = elim b.memory [
    | inl (fits, same) ↦
        rw same (record { present = v; larger = omega arith; kept = λ j lt. refl }, fits)
    | inr (short, grown) ↦ enough_pages h.heap_top h.guest _ fit v short grown
  ]

  pub reserve-Room :
      (h : Heap) (size alignment : ℕ) {p top : ℕ} {g : Guest}
      → h.heap_top ≤ memory_size h.guest
      → h.guest.memory_valid ≡ true
      → Divides32 alignment
      → size < u32_mod
      → h.heap_top + alignment ≤ u32_mod
      → reserve grow h size alignment ≡ room p top g
      → Room h size alignment p top g
  reserve-Room h size alignment {p} {top} {g} fit v d sz low e =
      let b = reserve-Branch h size alignment e in
      let (multiple, above, below) = align_up_lem h.heap_top alignment d low in
      let (ext, inside) = extends h size alignment fit v b in
      record {
        extends = ext;
        aligned = rw b.place multiple;
        above = omega (arith, b.place);
        end = omega (arith, b.place, b.stop, b.ordered);
        inside = inside;
        word = omega (arith, b.stop);
        entry = b.entry;
      }
