-- ===== src/Modules/Registry/Operations.antt =====
-- Loading, joining and releasing keep the invariant.
use wapi.Base.{
  ℕ, ◌<◌, ◌≡◌, refl, ap, ◌⊎◌, inl, inr, not, true, false, List, [], arith, ==_refl, ℕ_discrete,
  Bool-cases, Option-cases, find_from-Found,
}
use wapi.Abi.{err_nomem, err_inval, err_noent, err_io}
use wapi.Guest.{Guest}
use wapi.Caps.Strings.{bytes_eq}
use wapi.Modules.{cache_find}
use wapi.Modules.Registry.{
  Registry, Loader, max_slots, slot_alloc, set_slot, instantiate_slot, check_bytes,
  instantiate_from_cache,
}
use wapi.Modules.Registry.Refs.{refs, one_to}
use wapi.Modules.Registry.Counted.{settled, Inv, Unserved, Cleared, Inv-vacate}

module _ {W : Type 0} where
  -- What the guest and the world do besides.
  pub Inv-elsewhere :
      {x : ℕ → ℕ} {r : Registry W} (m : Guest) (w : W)
      → Inv x r
      → Inv x (record r { guest = m; world = w })
  Inv-elsewhere m w inv = record {
    cursor = record { low = inv.cursor.low; high = inv.cursor.high };
    counted = inv.counted;
    in_slots = inv.in_slots;
    live = inv.live;
    served = inv.served;
    unique = inv.unique;
  }

  -- The end of an instantiation: nothing, or a slot with one reference that no service stands for.
  pub data Made : (ℕ ⊎ ℕ) × Registry W → Type 0 where
    failed : (code : ℕ) {r : Registry W} → Inv settled r → Made (inl code, r)
    made :
        {i : ℕ} {r : Registry W}
        → Inv (one_to i) r
        → i < max_slots
        → (r.slots i).loaded ≡ true
        → (r.slots i).refcount ≡ 1
        → Unserved i r
        → Made (inr i, r)

  -- A slot that is not loaded has no references and no service.
  idle-count :
      (i : ℕ) (r : Registry W)
      → Inv settled r
      → i < max_slots
      → (r.slots i).loaded ≡ false
      → refs r.handles i ≡ 0
  idle-count i r inv inside idle = ground (arith, inv.counted i inside, inv.live i inside)

  idle-Unserved :
      (i : ℕ) (r : Registry W) → Inv settled r → (r.slots i).loaded ≡ false → Unserved i r
  idle-Unserved i r inv idle j lt use_ e =
      let (_, live) = inv.served j lt use_ in cc (ap (λ k. (r.slots k).loaded) e)

  pub Unserved-Cleared : (slot : ℕ) (r : Registry W) → Unserved slot r → Cleared slot r r
  Unserved-Cleared slot r unserved = record {
    same_slots = λ s ne. refl;
    same_handles = refl;
    same_slot = λ i. refl;
    kept = λ i u. u;
    unserved = unserved;
  }

  -- The slot that an instantiation takes.
  fill-Inv :
      (i : ℕ) (hash : List ℕ) (r : Registry W)
      → Inv settled r
      → i < max_slots
      → (r.slots i).loaded ≡ false
      → Inv
          (one_to i)
          (set_slot r i (record { loaded = true; hash = hash; svc_name = []; refcount = 1 }))
  fill-Inv i hash r inv inside idle = record {
    cursor = record { low = inv.cursor.low; high = inv.cursor.high };
    counted = λ s lt. elim (ℕ_discrete s i) [
      | yes e ↦ rw (e, ==_refl i) (omega (arith, idle-count i r inv inside idle))
      | no ne ↦ ground (arith, inv.counted s lt)
    ];
    in_slots = inv.in_slots;
    live = λ s lt. ground (arith, inv.live s lt);
    served = λ j lt use_. let (low, live) = inv.served j lt use_ in (low, ground (arith, live));
    unique = inv.unique;
  }

module _ {W : Type 0} (loader : Loader W) where
  instantiate_slot-Made :
      (hash : List ℕ) (r : Registry W) → Inv settled r → Made (instantiate_slot loader hash r)
  unfolding instantiate_slot slot_alloc
  instantiate_slot-Made hash r inv = elim (Option-cases (slot_alloc r)) [
    | inl e ↦ rw (instantiate_slot, e) (failed err_nomem inv)
    | inr (i, e) ↦
        let f = find_from-Found (λ k. not (r.slots k).loaded) 0 max_slots i e in
        let idle : (r.slots i).loaded ≡ false = ground (arith, f.hit) in
        let inside : i < max_slots = omega (arith, f.high) in
        let w = (loader.instantiate r.world i).1 in
        let inv' = Inv-elsewhere r.guest w inv in
        elim (Bool-cases (loader.instantiate r.world i).0) [
          | inl good ↦
              rw (instantiate_slot, e, good)
                (made (fill-Inv i hash (record r { world = w }) inv' inside idle) inside
                  (rw (==_refl i) refl) (rw (==_refl i) refl) (idle-Unserved i r inv idle))
          | inr bad ↦
              rw (instantiate_slot, e, bad)
                (failed err_inval (
                  Inv-vacate i (record r { world = w }) (record r { world = w }) inv'
                    (Unserved-Cleared i (record r { world = w }) (idle-Unserved i r inv idle))
                    (idle-count i r inv inside idle) (λ s ne. refl)))
        ]
  ]

  check_bytes-Made :
      (wanted bytes : List ℕ) (r : Registry W)
      → Inv settled r
      → Made (check_bytes loader wanted bytes r)
  unfolding check_bytes
  check_bytes-Made wanted bytes r inv = elim (Option-cases (loader.sha256 bytes)) [
    | inl e ↦ rw (check_bytes, e) (failed err_io inv)
    | inr (got, e) ↦
        let w = (loader.module_new r.world bytes).1 in
        let inv' = Inv-elsewhere r.guest w inv in
        elim (Bool-cases (not (bytes_eq got wanted))) [
          | inl other ↦ rw (check_bytes, e, other) (failed err_inval inv)
          | inr same ↦ elim (Bool-cases (loader.module_new r.world bytes).0) [
            | inl good ↦
                rw (check_bytes, e, same, good)
                  (instantiate_slot-Made got (record r { world = w }) inv')
            | inr bad ↦ rw (check_bytes, e, same, bad) (failed err_inval inv')
          ]
        ]
  ]

  pub instantiate_from_cache-Made :
      (wanted : List ℕ) (r : Registry W)
      → Inv settled r
      → Made (instantiate_from_cache loader wanted r)
  unfolding instantiate_from_cache
  instantiate_from_cache-Made wanted r inv = elim (Option-cases (cache_find wanted r.cache)) [
    | inl e ↦ rw (instantiate_from_cache, e) (failed err_noent inv)
    | inr (path, e) ↦ rw (instantiate_from_cache, e) (read (loader.read_file r.world path))
  ]
    where
      read :
          (q : (ℕ ⊎ List ℕ) × W)
          → Made {W = W} (elim q.0 [
            | inl code ↦ (inl code, record r { world = q.1 })
            | inr bytes ↦ check_bytes loader wanted bytes (record r { world = q.1 })
          ])
      read (inl code, w) = failed code (Inv-elsewhere r.guest w inv)
      read (inr bytes, w) =
          check_bytes-Made wanted bytes (record r { world = w }) (Inv-elsewhere r.guest w inv)
