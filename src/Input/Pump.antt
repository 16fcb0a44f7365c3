-- ===== src/Input/Pump.antt =====
-- `wapi_host_pump_platform_events` of runtime/desktop/src/wapi_host_input.c: its loop ends.
use wapi.Base.{
  inl, inr, ◌%◌, ℕ, zero, suc, ◌+◌, ◌<◌, ◌≡◌, refl, sym, ap, ◌∙◌, List, [], ◌∷◌, ◌++◌, length,
  length-append, arith, ◌==◌, Bool-cases,
}
use wapi.Input.{Input, Device}
use wapi.Input.Platform.{
  Platform, PlatEvent, Body, ime_start, ime_update, gpad_added, gpad_removed, gpad_axis,
  gpad_button,
}
use wapi.Input.Devices.{dev_alloc, gamepad_for_slot, gamepad_free_slot, pad_device}
use wapi.Input.Translate.{
  window_for, push_pointer, push_ime, on_added, on_removed, on_gamepad, on_preedit, translate_body,
  translate, translate_all, pump,
}

-- The events that the platform has for the host: a poll takes the first of them, and none only if there
-- are none.
pub record Waiting {W : Type 0} (plat : Platform W) (pending : W → List PlatEvent) : Type 0 where
  pub taken : (w : W) → (plat.poll_events w).0 ++ pending (plat.poll_events w).1 ≡ pending w
  pub empty : (w : W) → (plat.poll_events w).0 ≡ [] → pending w ≡ []

module _ {W : Type 0} where
  dev_alloc-world : (d : Device) (s : Input W) → (dev_alloc d s).1.world ≡ s.world
  unfolding dev_alloc
  dev_alloc-world d s = ground arith

  gamepad_for_slot-world : (slot : ℕ) (s : Input W) → (gamepad_for_slot slot s).1.world ≡ s.world
  unfolding gamepad_for_slot
  gamepad_for_slot-world slot s =
      let kept = dev_alloc-world (pad_device slot ((s.minted.generations slot + 1) % 256)) s in
      ground arith

  gamepad_free_slot-world : (slot : ℕ) (s : Input W) → (gamepad_free_slot slot s).world ≡ s.world
  unfolding gamepad_free_slot
  gamepad_free_slot-world slot s = ground arith

  preedit-world :
      (plat : Platform W) (type sid ts : ℕ) (s : Input W)
      → (on_preedit plat type sid ts s).world ≡ s.world
  unfolding on_preedit push_ime
  preedit-world plat type sid ts s = elim (Bool-cases (window_for plat sid s == 0)) [
    | inl nothing ↦ rw nothing refl
    | inr there ↦ rw there refl
  ]

module _ {W : Type 0} (plat : Platform W) where
  translate_body-world :
      (body : Body) (sid ts : ℕ) (s : Input W) → (translate_body plat body sid ts s).world ≡ s.world
  unfolding translate_body push_pointer push_ime on_added on_removed on_gamepad
  translate_body-world ime_start sid ts s = preedit-world plat 0x320 sid ts s
  translate_body-world ime_update sid ts s = preedit-world plat 0x321 sid ts s
  translate_body-world (gpad_added slot) sid ts s = gamepad_for_slot-world slot s
  translate_body-world (gpad_removed slot) sid ts s = gamepad_free_slot-world slot _
  translate_body-world (gpad_axis slot axis axis_value) sid ts s = gamepad_for_slot-world slot s
  translate_body-world (gpad_button is_down slot button) sid ts s = gamepad_for_slot-world slot s
  translate_body-world _ sid ts s = refl

  translate_all-world :
      (pes : List PlatEvent) (s : Input W) → (translate_all plat pes s).world ≡ s.world
  unfolding translate_all translate
  translate_all-world [] s = refl
  translate_all-world (pe ∷ pes) s =
      translate_all-world pes (translate plat pe s)
      ∙ translate_body-world pe.body _ pe.timestamp_ns s

  -- The loop of `wapi_host_pump_platform_events` ends: any two numbers of rounds above the number
  -- of events that wait lead to the same state, in which none waits. Of the platform it is
  -- assumed that each poll takes the first of the events that wait, none only if there are none,
  -- and that no others come in meanwhile.
  pub pump-drained :
      (pending : W → List PlatEvent)
      → Waiting plat pending
      → (fuel fuel' : ℕ) (s : Input W) → length (pending s.world) < fuel
      → length (pending s.world) < fuel'
      → (pump plat fuel s ≡ pump plat fuel' s) × (pending (pump plat fuel s).world ≡ [])
  unfolding pump
  pump-drained pending law zero fuel' s lt lt' = absurd (omega (arith, lt))
  pump-drained pending law (suc fuel) zero s lt lt' = absurd (omega (arith, lt'))
  pump-drained pending law (suc fuel) (suc fuel') s lt lt' =
      go (pump-drained pending law fuel fuel') (plat.poll_events s.world).0 refl
    where
      w' : W
      w' = (plat.poll_events s.world).1

      go :
          ((r : Input W)
            → length (pending r.world) < fuel
            → length (pending r.world) < fuel'
            → (pump plat fuel r ≡ pump plat fuel' r) × (pending (pump plat fuel r).world ≡ []))
          → (batch : List PlatEvent) → (plat.poll_events s.world).0 ≡ batch
          → (pump plat (suc fuel) s ≡ pump plat (suc fuel') s)
            × (pending (pump plat (suc fuel) s).world ≡ [])
      go rest [] e =
          rw (pump, e)
            (refl, ap (λ pes. pes ++ pending w') (sym e) ∙ law.taken s.world ∙ law.empty s.world e)
      go rest (pe ∷ pes) e =
          let r = translate_all plat (pe ∷ pes) (record s { world = w' }) in
          let same : r.world ≡ w' = translate_all-world (pe ∷ pes) (record s { world = w' }) in
          let left : length (pending r.world) ≡ length (pending w') =
            ap (λ w. length (pending w)) same in
          let shorter : suc (length pes) + length (pending w') ≡ length (pending s.world) =
            sym (length-append (pe ∷ pes) (pending w'))
            ∙ ap (λ b. length (b ++ pending w')) (sym e)
            ∙ ap length (law.taken s.world) in
          rw (pump, e)
            (rest r (omega (arith, lt, left, shorter)) (omega (arith, lt', left, shorter)))
