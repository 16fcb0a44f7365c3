-- ===== src/Modules/Registry/Counted.antt =====
-- The invariant of slots, services and handles, and the steps in which references move.
use wapi.Base.{
  ℕ, ◌+◌, ◌-◌, ◌<◌, ◌≡◌, refl, sym, ap, ◌∙◌, ◌≢◌, inl, inr, not, true, false, Option, none, arith,
  ◌==◌, ==_iff, ==_refl, ℕ_discrete, Bool-cases,
}
use wapi.Abi.{u32, u32_mod}
use wapi.Handles.{Handles, loaded_module, alloc}
use wapi.Handles.Alloc.{IsValid, Outcome, took, full, alloc-Outcome}
use wapi.Modules.Registry.{
  Registry, max_slots, max_services, slot_free, set_refcount, give_handle, drop_reference,
}
use wapi.Modules.Registry.Refs.{is_ref, refs, one_to, refs-le, refs-give, give_kept}

-- No reference outside the handle table.
abbrev pub settled : ℕ → ℕ
settled s = 0

module _ {W : Type 0} where
  -- `extra` counts the references that a running operation holds.
  pub record Inv (extra : ℕ → ℕ) (r : Registry W) : Type 0 where
    pub cursor : IsValid r.handles
    pub counted : (s : ℕ) → s < max_slots → (r.slots s).refcount ≡ refs r.handles s + extra s
    pub in_slots : (h s : ℕ) → is_ref s (r.handles.entries h) ≡ true → s < max_slots
    pub live : (s : ℕ) → s < max_slots → (r.slots s).loaded ≡ not ((r.slots s).refcount == 0)
    pub served :
        (i : ℕ)
        → i < max_services
        → (r.services i).in_use ≡ true
        → ((r.services i).slot < max_slots) × ((r.slots (r.services i).slot).loaded ≡ true)
    pub unique :
        (i j : ℕ)
        → i < max_services
        → j < max_services
        → (r.services i).in_use ≡ true
        → (r.services j).in_use ≡ true
        → (r.services i).slot ≡ (r.services j).slot
        → i ≡ j

  -- No service stands for the slot.
  abbrev pub Unserved : ℕ → Registry W → Type 0
  Unserved slot r =
      (i : ℕ) → i < max_services → (r.services i).in_use ≡ true → (r.services i).slot ≢ slot

  -- The registry `r` is `r0` but for the slot and for services that are out of use, those of the slot
  -- among them.
  pub record Cleared (slot : ℕ) (r0 r : Registry W) : Type 0 where
    pub same_slots : (s : ℕ) → s ≢ slot → r.slots s ≡ r0.slots s
    pub same_handles : r.handles ≡ r0.handles
    pub same_slot : (i : ℕ) → (r.services i).slot ≡ (r0.services i).slot
    pub kept : (i : ℕ) → (r.services i).in_use ≡ true → (r0.services i).in_use ≡ true
    pub unserved : Unserved slot r

  -- A slot with another count that is not 0 either, when the counts agree again.
  recount :
      {x y : ℕ → ℕ} (slot n : ℕ) (r : Registry W)
      → Inv x r
      → slot < max_slots
      → (r.slots slot).loaded ≡ true
      → n ≢ 0
      → n ≡ refs r.handles slot + y slot
      → ((s : ℕ) → s ≢ slot → x s ≡ y s)
      → Inv y (set_refcount r slot n)
  recount {x} {y} slot n r inv inside there pos exact same = record {
    cursor = record { low = inv.cursor.low; high = inv.cursor.high };
    counted = λ s lt. elim (ℕ_discrete s slot) [
      | yes e ↦ rw (e, ==_refl slot) exact
      | no ne ↦ ground (arith, inv.counted s lt, same s ne)
    ];
    in_slots = inv.in_slots;
    live = λ s lt. ground (arith, inv.live s lt, there, pos);
    served =
        λ i lt use_. let (low, live) = inv.served i lt use_ in (low, ground (arith, live, there));
    unique = inv.unique;
  }

  pub Inv-take :
      (slot : ℕ) (r : Registry W)
      → Inv settled r
      → slot < max_slots
      → (r.slots slot).loaded ≡ true
      → Inv (one_to slot) (set_refcount r slot (u32 ((r.slots slot).refcount + 1)))
  Inv-take slot r inv inside there =
      let exact = inv.counted slot inside in
      let small = refs-le r.handles slot in
      recount slot (u32 ((r.slots slot).refcount + 1)) r inv inside there (λ e. omega arith)
        (ground arith) (λ s ne. ground arith)

  -- A slot that only a running operation refers to is freed.
  pub Inv-vacate :
      {x : ℕ → ℕ} (slot : ℕ) (r0 r : Registry W)
      → Inv x r0
      → Cleared slot r0 r
      → refs r0.handles slot ≡ 0
      → ((s : ℕ) → s ≢ slot → x s ≡ 0)
      → Inv settled (slot_free r slot)
  Inv-vacate {x} slot r0 r inv c unused others = record {
    cursor = rw c.same_handles (record { low = inv.cursor.low; high = inv.cursor.high });
    counted = λ s lt. rw c.same_handles (elim (ℕ_discrete s slot) [
      | yes e ↦ rw (e, ==_refl slot) (omega (arith, unused))
      | no ne ↦
          ground (arith, inv.counted s lt, others s ne, ap (λ t. t.refcount) (c.same_slots s ne))
    ]);
    in_slots = rw c.same_handles inv.in_slots;
    live = λ s lt. elim (ℕ_discrete s slot) [
      | yes e ↦ rw (e, ==_refl slot) refl
      | no ne ↦
          let other : (s == slot) ≡ false = ground arith in
          rw (other, c.same_slots s ne) (inv.live s lt)
    ];
    served = λ i lt use_.
        let (low, live) = inv.served i lt (c.kept i use_) in
        let ne = c.unserved i lt use_ in
        let other : ((r.services i).slot == slot) ≡ false = ground arith in
        (
          rw (c.same_slot i) low,
          rw (other, c.same_slots (r.services i).slot ne, c.same_slot i) live,
        );
    unique = λ i j a b u v e.
        inv.unique i j a b (c.kept i u) (c.kept j v) (sym (c.same_slot i) ∙ e ∙ c.same_slot j);
  }

  -- The outstanding reference is dropped; at the last one the slot is freed, with its services.
  pub Inv-drop :
      (slot : ℕ) (clear : Registry W → Registry W) (r : Registry W)
      → Inv (one_to slot) r
      → slot < max_slots
      → (r.slots slot).loaded ≡ true
      → Cleared slot r (clear (set_refcount r slot 0))
      → Inv settled (drop_reference slot clear r)
  unfolding drop_reference
  Inv-drop slot clear r inv inside there cleared =
      let exact = inv.counted slot inside in
      let small = refs-le r.handles slot in
      let n = u32 ((r.slots slot).refcount + (u32_mod - 1)) in
      let left : n ≡ refs r.handles slot = ground arith in
      elim (Bool-cases (n == 0)) [
        | inl last ↦
            let zero_left : n ≡ 0 = (==_iff n 0).0 last in
            rw (drop_reference, last)
              (rw zero_left (
                Inv-vacate slot r (clear (set_refcount r slot 0)) inv cleared (sym left ∙ zero_left)
                  (λ s ne. ground arith)))
        | inr more ↦
            rw (drop_reference, more)
              (recount slot n r inv inside there (λ e. ground (arith, e)) (omega (arith, left))
                (λ s ne. ground arith))
      ]

  -- The outstanding reference goes to a new handle, or `undo` drops it.
  pub Inv-give :
      (out_mod_ptr slot : ℕ) (undo : Registry W → Registry W) (r : Registry W)
      → Inv (one_to slot) r
      → slot < max_slots
      → Inv settled (undo r)
      → Inv settled (give_handle out_mod_ptr slot undo r).1
  unfolding give_handle
  Inv-give out_mod_ptr slot undo r inv inside undone =
      go refl (alloc-Outcome none r.handles loaded_module inv.cursor)
    where
      go :
          {q : ℕ × Handles (Option ℕ)}
          → alloc none r.handles loaded_module ≡ q
          → Outcome none r.handles loaded_module q
          → Inv settled (give_handle out_mod_ptr slot undo r).1
      go e (took {h} {t'} a) =
          let apart : (h == 0) ≡ false = ground (arith, a.above_streams) in
          rw (give_handle, e, apart)
            (record {
              cursor = record { low = a.keeps.low; high = a.keeps.high };
              counted = λ s lt. omega (arith, inv.counted s lt, refs-give slot s a);
              in_slots = λ i s ref. elim (give_kept slot i s a ref) [
                | inl old ↦ inv.in_slots i s old
                | inr new ↦ rw new inside
              ];
              live = inv.live;
              served = inv.served;
              unique = inv.unique;
            })
      go e (full f) = rw (give_handle, e) undone
