-- ===== src/Modules/Registry/Counts.antt =====
-- The reference count of a slot that several handles share.
use wapi.Base.{
  ℕ, ◌+◌, ◌-◌, ◌<◌, ◌≡◌, ap, ◌∙◌, inl, inr, false, none, some, List, arith, update_self, Bool-cases,
  ◌==◌, if◌then◌else◌,
}
use wapi.Abi.{u32, u32_mod}
use wapi.Handles.{loaded_module, alloc}
use wapi.Modules.Registry.{
  Registry, Loader, set_refcount, drop_reference, drop_service, give_handle, service_find,
  join_named,
}

abbrev count : {W : Type 0} → Registry W → ℕ → ℕ
count r slot = (r.slots slot).refcount

module _ {W : Type 0} where
  -- A reference that is dropped, not the last one.
  drop_reference-count :
      (slot : ℕ) (clear : Registry W → Registry W) (r : Registry W)
      → 1 < count r slot
      → count r slot < u32_mod
      → count (drop_reference slot clear r) slot + 1 ≡ count r slot
  unfolding drop_reference
  drop_reference-count slot clear r many small =
      let n = u32 ((r.slots slot).refcount + (u32_mod - 1)) in
      let left : n + 1 ≡ count r slot = omega arith in
      let more : (n == 0) ≡ false = ground arith in
      rw (drop_reference, more) (ap (λ s. s.refcount + 1) (update_self r.slots slot _) ∙ left)

  give_handle-count :
      (out_mod_ptr slot n : ℕ) (undo : Registry W → Registry W) (r : Registry W)
      → count r slot ≡ n + 1
      → ((r' : Registry W) → count r' slot ≡ n + 1 → count (undo r') slot ≡ n)
      → count (give_handle out_mod_ptr slot undo r).1 slot
        ≡ (if (give_handle out_mod_ptr slot undo r).0 == 0 then n + 1 else n)
  unfolding give_handle
  give_handle-count out_mod_ptr slot n undo r here undone =
      elim (Bool-cases ((alloc none r.handles loaded_module).0 == 0)) [
        | inl e ↦
            rw (give_handle, e)
              (undone (record r { handles = (alloc none r.handles loaded_module).1 }) here)
        | inr e ↦ rw (give_handle, e) here
      ]

module _ {W : Type 0} (loader : Loader W) where
  -- Where a service with the hash and the name is registered, and its slot's reference count lies
  -- between 1 and 2 ^ 32 - 2, `join` adds one to the count if it returns OK, and otherwise leaves
  -- the count as it was.
  join_named-count :
      (hash name : List ℕ) (out_mod_ptr i : ℕ) (r : Registry W)
      → service_find hash name r ≡ some i
      → 0 < count r (r.services i).slot
      → count r (r.services i).slot + 1 < u32_mod
      → count (join_named loader hash name out_mod_ptr r).1 (r.services i).slot ≡ (
          if (join_named loader hash name out_mod_ptr r).0 == 0
          then count r (r.services i).slot + 1
          else count r (r.services i).slot)
  unfolding join_named
  join_named-count hash name out_mod_ptr i r e pos small =
      let slot = (r.services i).slot in
      let n = count r slot in
      let r' = set_refcount r slot (u32 (n + 1)) in
      let here : count r' slot ≡ n + 1 =
        ap (λ s. s.refcount) (update_self r.slots slot _) ∙ omega arith in
      rw (join_named, e)
        (give_handle-count out_mod_ptr slot n (drop_reference slot (λ s. drop_service s i)) r' here
          (λ r'' at. omega (
            arith,
            drop_reference-count slot (λ s. drop_service s i) r'' (omega (arith, at))
                (omega (arith, at)),
            at,
          )))
