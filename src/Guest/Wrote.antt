-- ===== src/Guest/Wrote.antt =====
-- What a checked write that fits leaves in the guest's memory, and how writes one behind the other
-- add up (runtime/desktop/src/wapi_host.h, "Wasm Memory Helpers").
use wapi.Base.{
  ℕ, zero, suc, ◌+◌, ◌≤◌, ◌<◌, ◌≡◌, refl, sym, ap, ap₂, subst, ◌∙◌, ◌⊎◌, inl, inr, true, List, [],
  ◌∷◌, ◌++◌, length, cells, cells_ext, cells-store, store_below, store_above, length-append, arith,
}
use wapi.Base.Bytes.{to_le}
use wapi.Guest.{Guest, memory_size, peek, poke, write_bytes, write_u64}
use wapi.Guest.Access.{wasm_ptr_complete, write_bytes-poke}

-- `m'` is `m` with `bs` at `p`.
pub record Wrote (m : Guest) (p : ℕ) (bs : List ℕ) (m' : Guest) : Type 0 where
  pub same_valid : m'.memory_valid ≡ m.memory_valid
  pub same_size : m'.data_size ≡ m.data_size
  pub content : peek m' p (length bs) ≡ bs
  pub below : (j : ℕ) → j < p → m'.bytes j ≡ m.bytes j
  pub above : (j : ℕ) → p + length bs ≤ j → m'.bytes j ≡ m.bytes j

pub Wrote-refl : (m : Guest) (p : ℕ) → Wrote m p [] m
Wrote-refl m p = record {
  same_valid = refl;
  same_size = refl;
  content = refl;
  below = λ j h. refl;
  above = λ j h. refl;
}

pub write_nothing : (m : Guest) (p q : ℕ) → Wrote m p [] (write_bytes m q []).1
unfolding write_bytes
write_nothing m p q = Wrote-refl m p

-- The bytes of a range in two parts.
pub cells_append :
    {A : Type 0} (a : ℕ → A) (i n k : ℕ) → cells a i (n + k) ≡ cells a i n ++ cells a (i + n) k
cells_append a i zero k = ap₂ (cells a) (omega arith) (omega arith)
cells_append a i (suc n) k =
    let more : suc n + k ≡ suc (n + k) = omega arith in
    ap (cells a i) more
    ∙ ap (λ xs. a i ∷ xs)
        (cells_append a (i + 1) n k ∙ ap (λ j. cells a (i + 1) n ++ cells a j k) (omega arith))

pub Wrote-append :
    {m m1 m2 : Guest} {p : ℕ} (xs ys : List ℕ)
    → Wrote m p xs m1
    → Wrote m1 (p + length xs) ys m2
    → Wrote m p (xs ++ ys) m2
Wrote-append {m} {m1} {m2} {p} xs ys a b = record {
  same_valid = b.same_valid ∙ a.same_valid;
  same_size = b.same_size ∙ a.same_size;
  content =
      ap (peek m2 p) (length-append xs ys)
      ∙ cells_append m2.bytes p (length xs) (length ys)
      ∙ ap₂ (λ u v. u ++ v)
          (cells_ext m2.bytes m1.bytes p (length xs) (λ j lo hi. b.below j hi) ∙ a.content)
          b.content;
  below = λ j h. b.below j (omega arith) ∙ a.below j h;
  above = λ j h.
      let split = length-append xs ys in
      b.above j (omega (arith, split, h)) ∙ a.above j (omega (arith, split, h));
}

write_bytes-accepted :
    (m : Guest) (p : ℕ) (bs : List ℕ)
    → m.memory_valid ≡ true
    → p + length bs ≤ memory_size m
    → (write_bytes m p bs).0 ≡ true
unfolding write_bytes memory_size
write_bytes-accepted m p bs v h = ground arith

pub poke-Wrote : (m : Guest) (p : ℕ) (bs : List ℕ) → Wrote m p bs (poke m p bs)
poke-Wrote m p bs = record {
  same_valid = refl;
  same_size = refl;
  content = cells-store m.bytes p bs;
  below = store_below m.bytes p bs;
  above = store_above m.bytes p bs;
}

-- A write of any length that ends inside the memory.
pub write_bytes-Wrote :
    (m : Guest) (p : ℕ) (bs : List ℕ)
    → m.memory_valid ≡ true
    → p + length bs ≤ memory_size m
    → Wrote m p bs (write_bytes m p bs).1
write_bytes-Wrote m p [] v h = write_nothing m p p
write_bytes-Wrote m p (b ∷ bs) v h =
    let done = write_bytes-accepted m p (b ∷ bs) v h in
    let (wrote, _) = write_bytes-poke m p (b ∷ bs) (λ e. omega arith) done in
    subst (Wrote m p (b ∷ bs)) (sym wrote) (poke-Wrote m p (b ∷ bs))

pub write_u64-Wrote :
    (m : Guest) (p v : ℕ)
    → m.memory_valid ≡ true
    → p + 8 ≤ memory_size m
    → Wrote m p (to_le 8 v) (write_u64 m p v).1
unfolding write_u64
write_u64-Wrote m p n v h =
    let accepted = wasm_ptr_complete m p 8 v (λ e. omega arith) h in
    rw (write_u64, accepted) (poke-Wrote m p (to_le 8 n))

-- A range apart from the write.
pub Wrote-apart :
    {m m' : Guest} {p : ℕ} {bs : List ℕ} (q n : ℕ)
    → Wrote m p bs m'
    → (q + n ≤ p) ⊎ (p + length bs ≤ q)
    → peek m' q n ≡ peek m q n
Wrote-apart {m} {m'} q n w (inl h) =
    cells_ext m'.bytes m.bytes q n (λ j lo hi. w.below j (omega arith))
Wrote-apart {m} {m'} q n w (inr h) =
    cells_ext m'.bytes m.bytes q n (λ j lo hi. w.above j (omega arith))

pub Wrote-at : {m m' : Guest} {p q : ℕ} {bs : List ℕ} → Wrote m p bs m' → p ≡ q → Wrote m q bs m'
Wrote-at {m} {m'} {p} {q} {bs} w e = subst (λ x. Wrote m x bs m') e w
