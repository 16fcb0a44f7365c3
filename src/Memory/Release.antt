-- ===== src/Memory/Release.antt =====
-- What `free` does to the blocks, and what the guest can still ask about them.
use wapi.Base.{
  ℕ, ◌≡◌, ap, sym, ◌∙◌, ◌≢◌, inl, inr, none, some, arith, Option-cases, update_ne, true,
}
use wapi.Memory.{Heap, free, find_alloc, mark_free}
use wapi.Memory.Blocks.{IsValid, Live, mark_free-IsValid, mark_free-Live}
use wapi.Memory.Alloc.{find_alloc-Live, find_alloc-some, ensure_init-ready}

-- The block `i` has been freed: its address is unknown, every other block is found as before.
pub record Freed (base : ℕ) (h : Heap) (i : ℕ) (h' : Heap) : Type 0 where
  pub valid : IsValid base h'
  pub gone : find_alloc h' (h.allocs i).offset ≡ none
  pub others : (j : ℕ) → j ≢ i → Live h j → find_alloc h' (h.allocs j).offset ≡ some j

mark_free-gone :
    (base : ℕ) (h : Heap) (i : ℕ)
    → IsValid base h
    → Live h i
    → find_alloc (mark_free h i) (h.allocs i).offset ≡ none
mark_free-gone base h i v live =
    elim (Option-cases (find_alloc (mark_free h i) (h.allocs i).offset)) [
      | inl e ↦ e
      | inr (k, e) ↦
          let (live', at) = find_alloc-some (mark_free h i) (h.allocs i).offset e in
          let (before, ne, same) = mark_free-Live h i k live' in
          absurd (
            omega (
              arith,
              v.apart k i ne before live,
              before.in_use,
              live.in_use,
              sym (ap (λ b. b.offset) same) ∙ at,
            ))
    ]

mark_free-others :
    (base : ℕ) (h : Heap) (i j : ℕ)
    → IsValid base h
    → j ≢ i
    → Live h j
    → find_alloc (mark_free h i) (h.allocs j).offset ≡ some j
mark_free-others base h i j v ne live =
    let same = update_ne h.allocs i (record { offset = (h.allocs i).offset; size = 0 }) j ne in
    let live' : Live (mark_free h i) j = record {
      recorded = live.recorded;
      in_use = omega (arith, live.in_use, ap (λ b. b.size) same);
    } in
    rw (ap (λ b. b.offset) same) at
      (find_alloc-Live base (mark_free h i) j (mark_free-IsValid base h i v) live')

pub mark_free-Freed :
    (base : ℕ) (h : Heap) (i : ℕ) → IsValid base h → Live h i → Freed base h i (mark_free h i)
mark_free-Freed base h i v live = record {
  valid = mark_free-IsValid base h i v;
  gone = mark_free-gone base h i v live;
  others = λ j ne live'. mark_free-others base h i j v ne live';
}

-- `free` of an address that is known marks its block, and of any other it does nothing.
free-known :
    (h : Heap) (ptr : ℕ) {i : ℕ}
    → h.initialized ≡ true
    → ptr ≢ 0
    → find_alloc h ptr ≡ some i
    → free ptr h ≡ mark_free h i
unfolding free
free-known h ptr {i = i} ready ne e = ground (arith, ensure_init-ready h ready)

pub free-unknown :
    (h : Heap) (ptr : ℕ) → h.initialized ≡ true → find_alloc h ptr ≡ none → free ptr h ≡ h
unfolding free
free-unknown h ptr ready e = ground (arith, ensure_init-ready h ready)

-- On a heap that satisfies the invariant, `free` at the address of a live block keeps the
-- invariant, makes the lookup fail at that address, and leaves every other live block to be found
-- where it was.
pub free-Freed :
    (base : ℕ) (h : Heap) (i : ℕ)
    → IsValid base h
    → Live h i
    → Freed base h i (free (h.allocs i).offset h)
free-Freed base h i v live =
    let (lo, hi) = v.inside i live in
    rw
      (free-known h (h.allocs i).offset v.ready (λ e. omega (arith, v.not_null))
        (find_alloc-Live base h i v live))
      (mark_free-Freed base h i v live)

-- Freeing an address twice is freeing it once, whatever the address.
pub free-free : (base ptr : ℕ) (h : Heap) → IsValid base h → free ptr (free ptr h) ≡ free ptr h
free-free base ptr h v = elim (Option-cases (find_alloc h ptr)) [
  | inl e ↦ ap (free ptr) (free-unknown h ptr v.ready e)
  | inr (i, e) ↦
      let (live, at) = find_alloc-some h ptr e in
      let f = free-Freed base h i v live in
      rw at at (free-unknown (free (h.allocs i).offset h) (h.allocs i).offset f.valid.ready f.gone)
]
