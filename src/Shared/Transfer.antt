-- ===== src/Shared/Transfer.antt =====
-- What a module gets through the shared region: the bytes that another one put there.
use wapi.Base.{
  ℕ, ◌+◌, ◌≤◌, ◌<◌, ◌≡◌, ap, sym, ◌∙◌, ◌⊎◌, ◌↔◌, inl, inr, Bool, true, arith, cells, store,
  cells-store, length-cells, store_below, store_above,
}
use wapi.Abi.{u64_mod, ok}
use wapi.Guest.{Guest}
use wapi.Shared.{Pool, ensure, read, write}

-- Copying `n` cells from one array to another.
pub cells-copy :
    {A : Type 0} (f g : ℕ → A) (i j n : ℕ) → cells (store f i (cells g j n)) i n ≡ cells g j n
cells-copy f g i j n =
    ap (cells (store f i (cells g j n)) i) (sym (length-cells g j n))
    ∙ cells-store f i (cells g j n)

-- The range lies in the shared region, and the other one in the memory of the module that calls.
pub record InRange (off ptr len : ℕ) (s : Pool) (m : Guest) : Type 0 where
  pub region : off + len ≤ s.capacity
  pub exported : m.memory_valid ≡ true
  pub memory : ptr + len ≤ m.data_size

-- On a pool that is set up, and where neither sum wraps in 64 bits, `shared_read` succeeds
-- exactly on ranges inside the region and inside the exported memory of the module that calls.
read_iff :
    (calloc : Bool) (off ptr len : ℕ) (s : Pool) (m : Guest)
    → s.present ≡ true
    → off + len < u64_mod
    → ptr + len < u64_mod
    → ((read calloc off ptr len s m).0 ≡ ok) ↔ InRange off ptr len s m
unfolding read ensure
read_iff calloc off ptr len s m p a b = (
  λ e. record { region = ground arith; exported = ground arith; memory = ground arith },
  λ r. ground (arith, r.region, r.exported, r.memory),
)

pub write_iff :
    (calloc : Bool) (off ptr len : ℕ) (s : Pool) (m : Guest)
    → s.present ≡ true
    → off + len < u64_mod
    → ptr + len < u64_mod
    → ((write calloc off ptr len s m).0 ≡ ok) ↔ InRange off ptr len s m
unfolding write ensure
write_iff calloc off ptr len s m p a b = (
  λ e. record { region = ground arith; exported = ground arith; memory = ground arith },
  λ r. ground (arith, r.region, r.exported, r.memory),
)

-- What the two do when they succeed.
read-ok :
    (calloc : Bool) (off ptr len : ℕ) (s : Pool) (m : Guest)
    → s.present ≡ true
    → (read calloc off ptr len s m).0 ≡ ok
    → read calloc off ptr len s m
      ≡ (ok, s, record m { bytes = store m.bytes ptr (cells s.bytes off len) })
unfolding read ensure
read-ok calloc off ptr len s m p e = ground arith

write-ok :
    (calloc : Bool) (off ptr len : ℕ) (s : Pool) (m : Guest)
    → s.present ≡ true
    → (write calloc off ptr len s m).0 ≡ ok
    → write calloc off ptr len s m
      ≡ (ok, record s { bytes = store s.bytes off (cells m.bytes ptr len) })
unfolding write ensure
write-ok calloc off ptr len s m p e = ground arith

-- On a pool that is set up, where `shared_write` by one module and then `shared_read` of the same
-- range by another both succeed, and no end of a range wraps at 2 ^ 64, the ranges lie inside the
-- region and both memories, the reader's memory holds the writer's bytes, and no other byte of it
-- changes.
pub read-write :
    (calloc : Bool) (off src dst len : ℕ) (s : Pool) (writer reader : Guest)
    → s.present ≡ true
    → off + len < u64_mod
    → src + len < u64_mod
    → dst + len < u64_mod
    → (write calloc off src len s writer).0 ≡ ok
    → (read calloc off dst len (write calloc off src len s writer).1 reader).0 ≡ ok
    → let (_, _, m) = read calloc off dst len (write calloc off src len s writer).1 reader in
      InRange off src len s writer
      × (dst + len ≤ reader.data_size)
      × (cells m.bytes dst len ≡ cells writer.bytes src len)
      × ((j : ℕ) → (j < dst) ⊎ (dst + len ≤ j) → m.bytes j ≡ reader.bytes j)
read-write calloc off src dst len s writer reader p fit_off fit_src fit_dst w r =
    let put = ap (λ x. x.1) (write-ok calloc off src len s writer p w) in
    let s' = record s { bytes = store s.bytes off (cells writer.bytes src len) } in
    let got = read-ok calloc off dst len s' reader p (rw put at r) in
    rw (put, got)
      (
        (write_iff calloc off src len s writer p fit_off fit_src).0 w,
        ((read_iff calloc off dst len s' reader p fit_off fit_dst).0 (rw put at r)).memory,
        cells-copy reader.bytes s'.bytes dst off len ∙ cells-copy s.bytes writer.bytes off src len,
        λ j apart. elim apart [
          | inl low ↦ store_below reader.bytes dst (cells s'.bytes off len) j low
          | inr high ↦
              store_above reader.bytes dst (cells s'.bytes off len) j
                (omega (arith, length-cells s'.bytes off len))
        ],
      )
