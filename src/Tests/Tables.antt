-- ===== src/Tests/Tables.antt =====
-- Runs of the handle table, the event queue and the checked guest accesses
-- (runtime/desktop/src/wapi_host.h).
use wapi.Base.{ℕ, ◌+◌, ◌≡◌, ◌⊎◌, ◌≤◌, refl, true, some, [], ◌∷◌, arith, ◌<◌, if◌then◌else◌, ◌==◌}
use wapi.Guest.{Guest, memory_size, wasm_ptr, write_bytes, read_bytes}
use wapi.Guest.Access.{wasm_ptr-in_bounds, write_bytes-read_bytes}
use wapi.Handles
use wapi.Handles.{
  Handles, HandleType, free, file, same_type, same_type_iff, max_handles, type_at, alloc, valid,
  release,
}
use wapi.Handles.Alloc.{Outcome, alloc-Outcome}
use wapi.EventQueue
use wapi.EventQueue.{EventQueue, Event, push, pop, flush, contents}
use wapi.EventQueue.Fifo
use wapi.EventQueue.Refine.{seen, left_by, push_refines, pop_refines}
use wapi.EventQueue.Flush.{flush_lem}

-- A table with a file at 4.
abbrev one_file : Handles ℕ
one_file = record {
  entries = λ i. record { type = if i == 4 then file else free; payload = 0 };
  next_handle = 5;
}

one_file-IsValid : Handles.Alloc.IsValid one_file
one_file-IsValid = record { low = omega arith; high = omega arith }

alloc-Outcome_example : Outcome 0 one_file file (alloc 0 one_file file)
alloc-Outcome_example = alloc-Outcome 0 one_file file one_file-IsValid

-- A ring whose two events lie across its end.
abbrev two_events : EventQueue
two_events = record {
  events = λ i. if i == 255 then 1 ∷ 0 ∷ 0 ∷ 0 ∷ [] else 2 ∷ 0 ∷ 0 ∷ 0 ∷ [];
  head = 255;
  tail = 1;
  count = 2;
}

two_events-IsValid : EventQueue.IsValid two_events
two_events-IsValid = record { head_in = omega arith; count_in = omega arith; tail_at = refl }

push_refines_example :
    let (done, q') = push (3 ∷ []) two_events in
    ((done, contents q') ≡ Fifo.push (3 ∷ []) (contents two_events)) × EventQueue.IsValid q'
push_refines_example = push_refines (3 ∷ []) two_events two_events-IsValid

pop_refines_example :
    (seen (pop two_events) ≡ Fifo.pop (contents two_events))
    × EventQueue.IsValid (left_by two_events (pop two_events))
pop_refines_example = pop_refines two_events two_events-IsValid

flush_lem_example :
    (contents (flush 2 two_events) ≡ (if 2 == 0 then [] else Fifo.without 2 (contents two_events)))
    × EventQueue.IsValid (flush 2 two_events)
flush_lem_example = flush_lem 2 two_events two_events-IsValid

abbrev small_guest : Guest
small_guest = record { memory_valid = true; data_size = 65536; bytes = λ i. 0 }

wasm_ptr-in_bounds_example : (◌≡◌ {A = ℕ} 65500 65500) × (65500 + 36 ≤ memory_size small_guest)
unfolding wasm_ptr
wasm_ptr-in_bounds_example = wasm_ptr-in_bounds small_guest 65500 36 (λ e. omega arith) refl

write_bytes-read_bytes_example :
    (read_bytes (write_bytes small_guest 8 (5 ∷ 6 ∷ [])).1 8 2 ≡ some (5 ∷ 6 ∷ []))
    × (memory_size (write_bytes small_guest 8 (5 ∷ 6 ∷ [])).1 ≡ memory_size small_guest)
    × ((j : ℕ)
        → (j < 8) ⊎ (8 + 2 ≤ j)
        → (write_bytes small_guest 8 (5 ∷ 6 ∷ [])).1.bytes j ≡ small_guest.bytes j)
unfolding write_bytes
write_bytes-read_bytes_example =
    write_bytes-read_bytes small_guest 8 (5 ∷ 6 ∷ []) (λ e. omega arith) refl
