-- ===== src/Tests/Memory.antt =====
-- Runs of the allocator (runtime/desktop/src/wapi_host_memory.c) on a heap with one block.
use wapi.Base.{some-injective, ℕ, ◌+◌, ◌*◌, ◌≡◌, ◌⊎◌, refl, sym, true, Option, some, arith}
use wapi.Guest.{Guest, memory_size}
use wapi.Memory.{Heap, alloc, free, realloc, page_size}
use wapi.Memory.Reserve.{GrowsByPages}
use wapi.Memory.Blocks.{IsValid, Live}
use wapi.Memory.Alloc.{Placed, Refused, alloc_lem}
use wapi.Memory.Release.{Freed, free-Freed, free-free}
use wapi.Memory.Move.{Moved, realloc_lem}

-- A memory that grows by as much as is asked for.
abbrev grow : Guest → ℕ → Option Guest
grow g n = some (record g { data_size = g.data_size + n * page_size })

grow-GrowsByPages : GrowsByPages grow
unfolding memory_size
grow-GrowsByPages = record {
  grown = λ g n {g'} v e. rw (sym (some-injective _ _ e)) (v, ground (arith, v), λ j lt. refl);
}

abbrev one_block : Heap
one_block = record {
  guest = record { memory_valid = true; data_size = 2 * 65536; bytes = λ i. i };
  allocs = λ i. record { offset = 65536; size = 100 };
  alloc_count = 1;
  heap_top = 65636;
  initialized = true;
  last_error = "";
}

one_block-IsValid : IsValid 65536 one_block
unfolding memory_size
one_block-IsValid = record {
  ready = refl;
  present = refl;
  not_null = omega arith;
  start = omega arith;
  memory = omega arith;
  table = omega arith;
  inside = λ i live. (omega arith, omega arith);
  apart = λ i j ne a b. absurd (ne (omega (arith, a.recorded, b.recorded)));
}

one_block-Live : Live one_block 0
one_block-Live = record { recorded = omega arith; in_use = omega arith }

alloc_lem_example :
    let (p, h') = alloc grow 200000 64 one_block in
    Placed 65536 one_block 200000 64 p h' ⊎ Refused one_block p h'
alloc_lem_example =
    alloc_lem grow grow-GrowsByPages 65536 200000 64 one_block one_block-IsValid (omega arith)
      (omega arith) (omega arith)

realloc_lem_example :
    let (p, h') = realloc grow 65536 300 16 one_block in
    Moved 65536 one_block 0 300 16 p h' ⊎ ((p ≡ 0) × (h' ≡ one_block))
realloc_lem_example =
    realloc_lem grow grow-GrowsByPages 65536 one_block 0 300 16 one_block-IsValid one_block-Live
      (omega arith) refl
      (record { some_size = omega arith; some_alignment = omega arith; power = refl }) refl
      (omega arith)

free-Freed_example : Freed 65536 one_block 0 (free 65536 one_block)
free-Freed_example = free-Freed 65536 one_block 0 one_block-IsValid one_block-Live

free-free_example : free 65536 (free 65536 one_block) ≡ free 65536 one_block
free-free_example = free-free 65536 65536 one_block one_block-IsValid
