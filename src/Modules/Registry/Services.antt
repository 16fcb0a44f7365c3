-- ===== src/Modules/Registry/Services.antt =====
-- Services come into and go out of use.
use wapi.Base.{
  ℕ, ◌<◌, ◌≡◌, refl, sym, ◌∙◌, inl, inr, ◌&&◌, true, false, List, arith, ◌==◌, ==_refl, update_ne,
  ℕ_discrete, Option-cases, find_from, find_from-Found, find_from-none,
}
use wapi.Modules.Registry.{
  Registry, max_slots, max_services, set_slot, slot_free, set_refcount, drop_service, add_service,
  clear_service,
}
use wapi.Modules.Registry.Refs.{one_to}
use wapi.Modules.Registry.Counted.{settled, Inv, Unserved, Cleared, Inv-vacate}
use wapi.Modules.Registry.Operations.{Unserved-Cleared}

module _ {W : Type 0} where
  -- The reference that an instantiation made is dropped with its slot.
  pub free-Inv :
      (slot : ℕ) (r : Registry W)
      → Inv (one_to slot) r
      → slot < max_slots
      → (r.slots slot).refcount ≡ 1
      → Unserved slot r
      → Inv settled (slot_free r slot)
  free-Inv slot r inv inside one unserved =
      Inv-vacate slot r r inv (Unserved-Cleared slot r unserved)
        (ground (arith, inv.counted slot inside)) (λ s ne. ground arith)

  -- The service at `i` goes out of use, the only one of its slot.
  pub drop_service-Cleared :
      {x : ℕ → ℕ} (i slot n : ℕ) (r : Registry W)
      → Inv x r
      → i < max_services
      → (r.services i).in_use ≡ true
      → (r.services i).slot ≡ slot
      → Cleared slot r (drop_service (set_refcount r slot n) i)
  drop_service-Cleared i slot n r inv lt use_ here = record {
    same_slots = λ s ne. update_ne r.slots slot _ s ne;
    same_handles = refl;
    same_slot = λ j. ground arith;
    kept = λ j u. ground arith;
    unserved = λ j jlt u e. elim (ℕ_discrete j i) [
      | yes same ↦ absurd (ground arith)
      | no ne ↦
          let other : (j == i) ≡ false = ground arith in
          ne (inv.unique j i jlt lt (rw other at u) use_ ((rw other at e) ∙ sym here))
    ];
  }

  -- A service for a slot that had none.
  pub add_service-Inv :
      {x : ℕ → ℕ} (i slot : ℕ) (hash name : List ℕ) (r : Registry W)
      → Inv x r
      → i < max_services
      → slot < max_slots
      → (r.slots slot).loaded ≡ true
      → Unserved slot r
      → Inv x (
          set_slot (add_service r i hash name slot) slot (record {
            loaded = (r.slots slot).loaded;
            hash = (r.slots slot).hash;
            svc_name = name;
            refcount = (r.slots slot).refcount;
          }))
  add_service-Inv i slot hash name r inv ilt inside there unserved = record {
    cursor = record { low = inv.cursor.low; high = inv.cursor.high };
    counted = λ s lt. ground (arith, inv.counted s lt);
    in_slots = inv.in_slots;
    live = λ s lt. ground (arith, inv.live s lt);
    served = λ j lt use_. elim (ℕ_discrete j i) [
      | yes e ↦ rw (e, ==_refl i) (inside, rw (==_refl slot) there)
      | no ne ↦
          let other : (j == i) ≡ false = ground arith in
          let (low, live) = inv.served j lt (rw other at use_) in rw other (low, ground arith)
    ];
    unique = λ j k jlt klt u v e. elim (ℕ_discrete j i) [
      | yes ej ↦ elim (ℕ_discrete k i) [
        | yes ek ↦ ej ∙ sym ek
        | no nk ↦
            let other : (k == i) ≡ false = ground arith in
            let first : (j == i) ≡ true = ground arith in
            absurd (unserved k klt (rw other at v) (sym (rw (first, other) at e)))
      ]
      | no nj ↦
          let other : (j == i) ≡ false = ground arith in
          elim (ℕ_discrete k i) [
            | yes ek ↦
                let second : (k == i) ≡ true = ground arith in
                absurd (unserved j jlt (rw other at u) (rw (second, other) at e))
            | no nk ↦
                let apart : (k == i) ≡ false = ground arith in
                inv.unique j k jlt klt (rw other at u) (rw apart at v) (rw (other, apart) at e)
          ]
    ];
  }

  pub clear_service-Cleared :
      {x : ℕ → ℕ} (slot n : ℕ) (r : Registry W)
      → Inv x r
      → Cleared slot r (clear_service slot (set_refcount r slot n))
  unfolding clear_service
  clear_service-Cleared slot n r inv =
      let p = λ (i : ℕ). (r.services i).in_use && (r.services i).slot == slot in
      elim (Option-cases (find_from p 0 max_services)) [
        | inl e ↦
            rw (clear_service, e)
              (record {
                same_slots = λ s ne. update_ne r.slots slot _ s ne;
                same_handles = refl;
                same_slot = λ i. refl;
                kept = λ i u. u;
                unserved = λ i lt u here.
                    let miss = find_from-none p 0 max_services e i (omega arith) (omega arith) in
                    absurd (ground (arith, miss));
              })
        | inr (i, e) ↦
            let f = find_from-Found p 0 max_services i e in
            let lt : i < max_services = omega (arith, f.high) in
            rw (clear_service, e)
              (drop_service-Cleared i slot n r inv lt (ground (arith, f.hit))
                (ground (arith, f.hit)))
      ]
