-- ===== src/Modules/Registry/Calls.antt =====
-- Each import keeps the invariant.
use wapi.Base.{
  some-injective, ℕ, ◌+◌, ◌<◌, ◌≡◌, refl, sym, ap, ◌∙◌, subst, ◌⊎◌, inl, inr, ◌||◌, not, true, none,
  some, List, arith, ◌==◌, ==_refl, Bool-cases, Option-cases, find_from-Found,
}
use wapi.Abi.{u32, err_nomem}
use wapi.Guest.{wasm_ptr, peek}
use wapi.Handles.{loaded_module, valid, payload_at, release}
use wapi.Handles.Alloc.{release-IsValid}
use wapi.Modules.Registry.{
  Registry, Loader, max_slots, max_services, set_slot, slot_free, set_refcount, serves,
  service_find, service_alloc, drop_service, add_service, give_handle, drop_reference,
  clear_service, release_module, load, join, join_named, read_name,
}
use wapi.Modules.Registry.Refs.{
  is_ref, one_to, refs-release, refs-release_null, release_kept, is_ref-valid,
}
use wapi.Modules.Registry.Counted.{settled, Inv, Unserved, Inv-take, Inv-drop, Inv-give}
use wapi.Modules.Registry.Operations.{Made, failed, made, instantiate_from_cache-Made}
use wapi.Modules.Registry.Services.{
  free-Inv, drop_service-Cleared, add_service-Inv, clear_service-Cleared,
}

module _ {W : Type 0} where
  -- `cb_release`
  pub release_module-Inv :
      (mh : ℕ) (r : Registry W) → Inv settled r → Inv settled (release_module mh r).1
  unfolding release_module
  release_module-Inv mh r inv = elim (Bool-cases (valid r.handles mh loaded_module)) [
    | inr bad ↦ rw (release_module, bad) inv
    | inl good ↦
        let v' = release-IsValid none r.handles mh inv.cursor in
        let freed = record r { handles = release none r.handles mh } in
        let kept = λ (i s : ℕ) (ref : is_ref s (freed.handles.entries i) ≡ true).
          inv.in_slots i s (release_kept r.handles mh good i s ref) in
        elim (Option-cases (payload_at r.handles mh)) [
          | inl e ↦
              rw (release_module, good, e)
                (record {
                  cursor = record { low = v'.low; high = v'.high };
                  counted = λ s lt.
                      inv.counted s lt
                      ∙ ap (λ n. n + 0) (sym (refs-release_null r.handles mh good s e));
                  in_slots = kept;
                  live = inv.live;
                  served = inv.served;
                  unique = inv.unique;
                })
          | inr (slot, e) ↦
              let held : Inv (one_to slot) freed = record {
                cursor = record { low = v'.low; high = v'.high };
                counted = λ s lt.
                    omega (arith, inv.counted s lt, refs-release r.handles mh good slot s e);
                in_slots = kept;
                live = inv.live;
                served = inv.served;
                unique = inv.unique;
              } in
              let inside : slot < max_slots =
                inv.in_slots mh slot (is_ref-valid r.handles mh good slot e) in
              let there : (r.slots slot).loaded ≡ true =
                ground (arith, held.counted slot inside, inv.live slot inside) in
              rw (release_module, good, e)
                (Inv-drop slot (clear_service slot) freed held inside there
                  (clear_service-Cleared slot 0 freed held))
        ]
  ]

module _ {W : Type 0} (loader : Loader W) where
  -- `cb_load`
  pub load-Inv :
      (hash_ptr out_mod_ptr : ℕ) (r : Registry W)
      → Inv settled r
      → Inv settled (load loader hash_ptr out_mod_ptr r).1
  unfolding load
  load-Inv hash_ptr out_mod_ptr r inv = elim (Bool-cases (hash_ptr == 0 || out_mod_ptr == 0)) [
    | inl e ↦ rw (load, e) inv
    | inr e ↦ elim (Option-cases (wasm_ptr r.guest hash_ptr 32)) [
      | inl g ↦ rw (load, e, g) inv
      | inr (hp, g) ↦
          rw (load, e, g) (finish (instantiate_from_cache-Made loader (peek r.guest hp 32) r inv))
    ]
  ]
    where
      finish :
          {q : (ℕ ⊎ ℕ) × Registry W}
          → Made q
          → Inv settled
              (elim q.0 as (λ x. ℕ × Registry W) [
                | inl code ↦ (code, q.1)
                | inr slot ↦ give_handle out_mod_ptr slot (λ s. slot_free s slot) q.1
              ]).1
      finish (failed code i) = i
      finish (made {i} {r = r'} held inside there one unserved) =
          Inv-give out_mod_ptr i (λ s. slot_free s i) r' held inside
            (free-Inv i r' held inside one unserved)

  -- `cb_join` with the name read, on a service that is there.
  join_service-Inv :
      (i out_mod_ptr : ℕ) (r : Registry W)
      → Inv settled r
      → i < max_services
      → (r.services i).in_use ≡ true
      → Inv settled
          (give_handle out_mod_ptr
            (r.services i).slot
            (drop_reference (r.services i).slot (λ s. drop_service s i))
            (set_refcount r
              (r.services i).slot
              (u32 ((r.slots (r.services i).slot).refcount + 1)))).1
  join_service-Inv i out_mod_ptr r inv lt use_ =
      let slot = (r.services i).slot in
      let (inside, there) = inv.served i lt use_ in
      let r' = set_refcount r slot (u32 ((r.slots slot).refcount + 1)) in
      let held = Inv-take slot r inv inside there in
      Inv-give out_mod_ptr slot (drop_reference slot (λ s. drop_service s i)) r' held inside (
        Inv-drop slot (λ s. drop_service s i) r' held inside (rw (==_refl slot) there)
          (drop_service-Cleared i slot 0 r' held lt use_ refl))

  -- On a new slot, from `service_alloc` on.
  join_new-Inv :
      (i out_mod_ptr slot : ℕ) (hash name : List ℕ) (r : Registry W)
      → Inv (one_to slot) r
      → i < max_services
      → slot < max_slots
      → (r.slots slot).loaded ≡ true
      → Unserved slot r
      → Inv settled
          (give_handle out_mod_ptr slot (drop_reference slot (λ s. drop_service s i)) (
            set_slot (add_service r i hash name slot) slot (record {
              loaded = (r.slots slot).loaded;
              hash = (r.slots slot).hash;
              svc_name = name;
              refcount = (r.slots slot).refcount;
            }))).1
  join_new-Inv i out_mod_ptr slot hash name r inv lt inside there unserved =
      let held = add_service-Inv i slot hash name r inv lt inside there unserved in
      let used : ((add_service r i hash name slot).services i).in_use ≡ true =
        rw (==_refl i) refl in
      let here : ((add_service r i hash name slot).services i).slot ≡ slot = rw (==_refl i) refl in
      Inv-give out_mod_ptr slot (drop_reference slot (λ s. drop_service s i)) _ held inside (
        Inv-drop slot (λ s. drop_service s i) _ held inside (rw (==_refl slot) there)
          (drop_service-Cleared i slot 0 _ held lt used here))

  join_named-Inv :
      (hash name : List ℕ) (out_mod_ptr : ℕ) (r : Registry W)
      → Inv settled r
      → Inv settled (join_named loader hash name out_mod_ptr r).1
  unfolding join_named service_find service_alloc
  join_named-Inv hash name out_mod_ptr r inv = elim (Option-cases (service_find hash name r)) [
    | inr (i, e) ↦
        let f = find_from-Found (serves hash name r) 0 max_services i e in
        rw (join_named, e)
          (join_service-Inv i out_mod_ptr r inv (omega (arith, f.high)) (ground (arith, f.hit)))
    | inl e ↦ rw (join_named, e) (finish (instantiate_from_cache-Made loader hash r inv))
  ]
    where
      finish :
          {q : (ℕ ⊎ ℕ) × Registry W}
          → Made q
          → Inv settled
              (elim q.0 as (λ x. ℕ × Registry W) [
                | inl code ↦ (code, q.1)
                | inr slot ↦ elim (service_alloc q.1) as (λ x. ℕ × Registry W) [
                  | none ↦ (err_nomem, slot_free q.1 slot)
                  | some i ↦
                      give_handle out_mod_ptr slot (drop_reference slot (λ s. drop_service s i)) (
                        set_slot (add_service q.1 i hash name slot) slot (record {
                          loaded = (q.1.slots slot).loaded;
                          hash = (q.1.slots slot).hash;
                          svc_name = name;
                          refcount = (q.1.slots slot).refcount;
                        }))
                ]
              ]).1
      finish (failed code i) = i
      finish (made {i} {r = r'} held inside there one unserved) =
          elim (Option-cases (service_alloc r')) [
            | inl e ↦ rw e (free-Inv i r' held inside one unserved)
            | inr (k, e) ↦
                let f = find_from-Found (λ j. not (r'.services j).in_use) 0 max_services k e in
                rw e (
                  join_new-Inv k out_mod_ptr i hash name r' held (omega (arith, f.high)) inside
                    there unserved)
          ]

  pub join-Inv :
      (hash_ptr name_sv_ptr out_mod_ptr : ℕ) (r : Registry W) {q : ℕ × Registry W}
      → Inv settled r
      → join loader hash_ptr name_sv_ptr out_mod_ptr r ≡ some q
      → Inv settled q.1
  unfolding join
  join-Inv hash_ptr name_sv_ptr out_mod_ptr r {q} inv h =
      elim (Bool-cases (hash_ptr == 0 || out_mod_ptr == 0)) [
        | inl e ↦ stays (rw (join, e) at h)
        | inr e ↦ elim (Option-cases (wasm_ptr r.guest hash_ptr 32)) [
          | inl g ↦ stays (rw (join, e, g) at h)
          | inr (hp, g) ↦ elim (Option-cases (read_name r.guest name_sv_ptr)) [
            | inl f ↦ let none_there = (rw (join, e, g, f) at h) in absurd (cc)
            | inr (name, f) ↦ elim (Option-cases name) [
              | inl n ↦ stays (rw (join, e, g, f, n) at h)
              | inr (bytes, n) ↦
                  subst (λ (p : ℕ × Registry W). Inv settled p.1)
                    (some-injective _ _ (rw (join, e, g, f, n) at h))
                    (join_named-Inv (peek r.guest hp 32) bytes out_mod_ptr r inv)
            ]
          ]
        ]
      ]
    where
      stays : {code : ℕ} → some (code, r) ≡ some q → Inv settled q.1
      stays e = subst (λ (p : ℕ × Registry W). Inv settled p.1) (some-injective _ _ e) inv
