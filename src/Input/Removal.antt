-- ===== src/Input/Removal.antt =====
-- A gamepad that is removed (runtime/desktop/src/wapi_host_input.c): its handle afterwards.
use wapi.Base.{
  some-injective, inl, inr, ℕ, ◌<◌, ◌≡◌, refl, sym, ap, ◌∙◌, ◌≢◌, false, none, arith, ◌==◌, ==_iff,
  leb, update_self, update_ne, ℕ_discrete, Bool-cases, Option-cases,
}
use wapi.Abi.{err_inval}
use wapi.Input.{Input, gamepad_slots}
use wapi.Input.Platform.{Platform, PlatEvent, gpad_removed}
use wapi.Input.Devices.{gamepad_free_slot}
use wapi.Input.Translate.{on_removed, translate_body, translate}
use wapi.Input.Pads.{
  slot_from_handle, get_info, get_button, get_axis, rumble, get_battery, rumble_triggers, set_led,
  enable_sensor, get_sensor_data, get_touchpad_finger,
}
use wapi.Input.Runs.{Run, translated, slot_from_handle-inside, Run-IsPaired}

-- Every import that takes the handle of a gamepad answers INVAL, or not pressed, and changes nothing.
pub record Refuses {W : Type 0} (plat : Platform W) (h : ℕ) (s : Input W) : Type 0 where
  pub info : (info_ptr : ℕ) → get_info plat h info_ptr s ≡ (err_inval, s)
  pub button : (btn : ℕ) → get_button plat h btn s ≡ 0
  pub axis : (axis out_ptr : ℕ) → get_axis plat h axis out_ptr s ≡ (err_inval, s)
  pub rumbling : (lo hi dur : ℕ) → rumble plat h lo hi dur s ≡ (err_inval, s)
  pub battery : (out_ptr : ℕ) → get_battery plat h out_ptr s ≡ (err_inval, s)
  pub triggers : (left right dur : ℕ) → rumble_triggers plat h left right dur s ≡ (err_inval, s)
  pub led : (r g b : ℕ) → set_led plat h r g b s ≡ (err_inval, s)
  pub sensor : (sensor en : ℕ) → enable_sensor plat h sensor en s ≡ (err_inval, s)
  pub sensed : (sensor data_ptr : ℕ) → get_sensor_data plat h sensor data_ptr s ≡ (err_inval, s)
  pub touched :
      (touchpad finger state_ptr : ℕ)
      → get_touchpad_finger plat h touchpad finger state_ptr s ≡ (err_inval, s)

-- The event that a slot's gamepad is gone.
abbrev pub removal : (window ts slot : ℕ) → PlatEvent
removal window ts slot = record { window_id = window; timestamp_ns = ts; body = gpad_removed slot }

module _ {W : Type 0} where
  none-Refuses :
      (plat : Platform W) (h : ℕ) (s : Input W) → slot_from_handle s h ≡ none → Refuses plat h s
  unfolding get_info get_button get_axis rumble get_battery rumble_triggers set_led enable_sensor
      get_sensor_data get_touchpad_finger
  none-Refuses plat h s e = record {
    info = λ p. rw (get_info, e) refl;
    button = λ b. rw (get_button, e) refl;
    axis = λ a p. rw (get_axis, e) refl;
    rumbling = λ lo hi dur. rw (rumble, e) refl;
    battery = λ p. rw (get_battery, e) refl;
    triggers = λ l r dur. rw (rumble_triggers, e) refl;
    led = λ r g b. rw (set_led, e) refl;
    sensor = λ k en. rw (enable_sensor, e) refl;
    sensed = λ k p. rw (get_sensor_data, e) refl;
    touched = λ t f p. rw (get_touchpad_finger, e) refl;
  }

  gamepad_free_slot-gamepads :
      (slot : ℕ) (s : Input W)
      → slot < gamepad_slots
      → ((gamepad_free_slot slot s).minted.gamepads slot ≡ 0)
        × ((k : ℕ) → k ≢ slot → (gamepad_free_slot slot s).minted.gamepads k ≡ s.minted.gamepads k)
  unfolding gamepad_free_slot
  gamepad_free_slot-gamepads slot s lt =
      let inside : leb gamepad_slots slot ≡ false = ground arith in
      elim (Bool-cases (s.minted.gamepads slot == 0)) [
        | inl unbound ↦
            rw (gamepad_free_slot, inside, unbound)
              ((==_iff (s.minted.gamepads slot) 0).0 unbound, λ k ne. refl)
        | inr there ↦
            rw (gamepad_free_slot, inside, there)
              (
                update_self s.minted.gamepads slot 0,
                λ k ne. update_ne s.minted.gamepads slot 0 k ne,
              )
      ]

module _ {W : Type 0} (plat : Platform W) where
  translate-gamepads :
      (window ts slot : ℕ) (s : Input W)
      → slot < gamepad_slots
      → ((translate plat (removal window ts slot) s).minted.gamepads slot ≡ 0)
        × ((k : ℕ)
            → k ≢ slot
            → (translate plat (removal window ts slot) s).minted.gamepads k ≡ s.minted.gamepads k)
  unfolding translate translate_body on_removed
  translate-gamepads window ts slot s lt = gamepad_free_slot-gamepads slot _ lt

  -- In every state of a run of the input code, after the event that the gamepad of a slot below
  -- 16 is removed, every import that takes the handle of a gamepad refuses the handle that the
  -- slot had: it answers INVAL, or that the button is not pressed, and changes nothing.
  pub translate-Refuses :
      {s : Input W} (window ts slot : ℕ)
      → Run plat s
      → slot < gamepad_slots
      → Refuses plat (s.minted.gamepads slot) (translate plat (removal window ts slot) s)
  translate-Refuses {s} window ts slot run lt =
      let h = s.minted.gamepads slot in
      let s' = translate plat (removal window ts slot) s in
      let (gone, others) = translate-gamepads window ts slot s lt in
      let before = Run-IsPaired plat run in
      let after = Run-IsPaired plat (translated (removal window ts slot) run) in
      none-Refuses plat h s' (elim (Option-cases (slot_from_handle s' h)) [
        | inl nothing ↦ nothing
        | inr (k, e) ↦
            let (k_lt, (ne, inside)) = slot_from_handle-inside s' h e in
            let held : s'.minted.gamepads k ≡ h = (after.paired h k ne k_lt).1 e in
            absurd (elim (ℕ_discrete k slot) [
              | yes same ↦ ne (sym held ∙ ap s'.minted.gamepads same ∙ gone)
              | no apart ↦
                  let found = (before.paired h k ne k_lt).0 (sym (others k apart) ∙ held) in
                  apart (some-injective _ _ (sym found ∙ (before.paired h slot ne lt).0 refl))
            ])
      ])
