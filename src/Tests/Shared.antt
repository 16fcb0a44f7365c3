-- ===== src/Tests/Shared.antt =====
-- Runs of the shared pool (runtime/desktop/src/wapi_host_module.c).
use wapi.Base.{ℕ, ◌+◌, ◌-◌, ◌≡◌, ◌⊎◌, ◌≤◌, refl, true, false, arith, ◌<◌, cells}
use wapi.Abi.{ok, u64_mod}
use wapi.Guest.{Guest}
use wapi.Shared.{Pool, alloc, read, write, ensure, pool_capacity}
use wapi.Shared.Place.{IsValid, Placed, shared_alloc_lem}
use wapi.Shared.Transfer.{InRange, read-write}
use wapi.Shared.Wrap.{read_past_region}

-- The pool as the first call leaves it, with nothing in it.
abbrev empty_pool : Pool
empty_pool = record {
  present = true;
  bytes = λ i. 0;
  capacity = pool_capacity;
  bump = 8;
  allocs = λ i. record { offset = 0; size = 0; in_use = false };
}

empty_pool-IsValid : IsValid empty_pool
empty_pool-IsValid = record {
  present = refl;
  whole = refl;
  low = omega arith;
  high = omega arith;
  inside = λ i live. absurd (ground (arith, live.in_use));
  apart = λ i j ne a b. absurd (ground (arith, a.in_use));
}

abbrev module_memory : Guest
module_memory = record { memory_valid = true; data_size = 65536; bytes = λ i. i }

shared_alloc_lem_example :
    let (off, s') = alloc true 100 16 empty_pool in
    Placed empty_pool 100 16 off s' ⊎ ((off ≡ 0) × (s' ≡ empty_pool))
shared_alloc_lem_example = shared_alloc_lem true 100 16 empty_pool empty_pool-IsValid (omega arith)

read-write_example :
    let (_, _, m) =
      read true 16 200 3 (write true 16 7 3 empty_pool module_memory).1 module_memory in
    InRange 16 7 3 empty_pool module_memory
    × (200 + 3 ≤ module_memory.data_size)
    × (cells m.bytes 200 3 ≡ cells module_memory.bytes 7 3)
    × ((j : ℕ) → (j < 200) ⊎ (200 + 3 ≤ j) → m.bytes j ≡ module_memory.bytes j)
unfolding read write ensure
read-write_example =
    read-write true 16 7 200 3 empty_pool module_memory module_memory refl (omega arith)
      (omega arith) (omega arith) refl refl

-- A range of 4096 bytes that begins 4096 bytes below the end of the 64-bit numbers.
read_past_region_example :
    ((read true (u64_mod - 4096) 0 4096 empty_pool module_memory).0 ≡ ok)
    × (pool_capacity < u64_mod - 4096 + 4096)
read_past_region_example =
    read_past_region true (u64_mod - 4096) 0 4096 empty_pool module_memory empty_pool-IsValid refl
      (omega arith) (omega arith) (omega arith) (omega arith) (omega arith) (omega arith)
