-- ===== src/Input/Pads.antt =====
-- The gamepad imports of runtime/desktop/src/wapi_host_input.c: a handle leads to the slot of its device,
-- which the platform is asked about.
use wapi.Base.{
  ℕ, ◌%◌, ◌&&◌, ◌||◌, not, Bool, Option, none, some, List, [], ◌∷◌, ◌++◌, replicate, ltb, ◌==◌,
  if◌then◌else◌,
}
use wapi.Base.Bytes.{to_le}
use wapi.Abi.{ok, err_inval, err_notsup, is_neg}
use wapi.Guest.{write_bytes}
use wapi.Input.{Input, Device, gamepad_slots, role_gamepad, dev_get}
use wapi.Input.Platform.{Platform, GamepadInfo}

abbrev pub pad_slot_of : Option Device → Option ℕ
pad_slot_of none = none
pad_slot_of (some d) =
    if d.kind == role_gamepad && ltb d.backend_slot gamepad_slots then some d.backend_slot else none

-- The 48 bytes of `wapi_gamepad_info_t`
abbrev info_bytes : GamepadInfo → List ℕ
info_bytes p =
    to_le 4 p.type
    ++ (to_le 2 p.vendor_id
        ++ (to_le 2 p.product_id
            ++ (p.has_rumble
                  ∷ p.has_trigger_rumble
                  ∷ p.has_led
                  ∷ p.has_sensors
                  ∷ p.has_touchpad
                  ∷ (if p.battery_percent == 255 then 0 else p.battery_percent)
                  ∷ p.battery_state
                  ∷ []
                ++ replicate 33 0)))

module _ {W : Type 0} where
  -- `gamepad_slot_from_handle`; none is -1
  unfoldable pub slot_from_handle : Input W → ℕ → Option ℕ
  slot_from_handle s gh = pad_slot_of (dev_get s gh)

  -- Bytes that go out, or INVAL.
  abbrev pub write_out : ℕ → List ℕ → Input W → ℕ × Input W
  write_out ptr bs s =
      let (done, m) = write_bytes s.guest ptr bs in
      (if done then ok else err_inval, record s { guest = m })

  -- What the platform can refuse.
  abbrev pub supported : Bool × W → Input W → ℕ × Input W
  supported (done, w) s = (if done then ok else err_notsup, record s { world = w })

module _ {W : Type 0} (plat : Platform W) where
  -- `h_gamepad_get_info`
  unfoldable pub get_info : ℕ → ℕ → Input W → ℕ × Input W
  get_info gh info_ptr s = elim (slot_from_handle s gh) [
    | none ↦ (err_inval, s)
    | some slot ↦ if info_ptr == 0 then (err_inval, s) else elim (plat.gamepad_info s.world slot) [
      | none ↦ (err_inval, s)
      | some p ↦ write_out info_ptr (info_bytes p) s
    ]
  ]

  -- `h_gamepad_get_button`
  unfoldable pub get_button : ℕ → ℕ → Input W → ℕ
  get_button gh btn s = elim (slot_from_handle s gh) [
    | none ↦ 0
    | some slot ↦
        if not (is_neg btn) && plat.gamepad_button_pressed s.world slot (btn % 256) then 1 else 0
  ]

  -- `h_gamepad_get_axis`
  unfoldable pub get_axis : ℕ → ℕ → ℕ → Input W → ℕ × Input W
  get_axis gh axis out_ptr s = elim (slot_from_handle s gh) [
    | none ↦ (err_inval, s)
    | some slot ↦
        if is_neg axis || out_ptr == 0
        then (err_inval, s)
        else write_out out_ptr (to_le 2 (plat.gamepad_axis_value s.world slot (axis % 256))) s
  ]

  -- `h_gamepad_rumble`
  unfoldable pub rumble : ℕ → ℕ → ℕ → ℕ → Input W → ℕ × Input W
  rumble gh lo hi dur s = elim (slot_from_handle s gh) [
    | none ↦ (err_inval, s)
    | some slot ↦ supported (plat.gamepad_rumble s.world slot (lo % 65536) (hi % 65536) dur) s
  ]

  -- `h_gamepad_get_battery`
  unfoldable pub get_battery : ℕ → ℕ → Input W → ℕ × Input W
  get_battery gh out_ptr s = elim (slot_from_handle s gh) [
    | none ↦ (err_inval, s)
    | some slot ↦ if out_ptr == 0 then (err_inval, s) else (
      ok,
      record s {
        guest = (write_bytes s.guest out_ptr (plat.gamepad_battery_percent s.world slot ∷ [])).1;
      },
    )
  ]

  -- `h_gamepad_rumble_triggers`
  unfoldable pub rumble_triggers : ℕ → ℕ → ℕ → ℕ → Input W → ℕ × Input W
  rumble_triggers gh left right dur s = elim (slot_from_handle s gh) [
    | none ↦ (err_inval, s)
    | some slot ↦
        supported (plat.gamepad_rumble_triggers s.world slot (left % 65536) (right % 65536) dur) s
  ]

  -- `h_gamepad_set_led`
  unfoldable pub set_led : ℕ → ℕ → ℕ → ℕ → Input W → ℕ × Input W
  set_led gh r g b s = elim (slot_from_handle s gh) [
    | none ↦ (err_inval, s)
    | some slot ↦ supported (plat.gamepad_set_led s.world slot (r % 256) (g % 256) (b % 256)) s
  ]

  -- `h_gamepad_enable_sensor`
  unfoldable pub enable_sensor : ℕ → ℕ → ℕ → Input W → ℕ × Input W
  enable_sensor gh sensor en s = elim (slot_from_handle s gh) [
    | none ↦ (err_inval, s)
    | some slot ↦ supported (plat.gamepad_enable_sensor s.world slot sensor (not (en == 0))) s
  ]

  -- `h_gamepad_get_sensor_data`
  unfoldable pub get_sensor_data : ℕ → ℕ → ℕ → Input W → ℕ × Input W
  get_sensor_data gh sensor data_ptr s = elim (slot_from_handle s gh) [
    | none ↦ (err_inval, s)
    | some slot ↦
        if data_ptr == 0 then (err_inval, s) else elim (plat.gamepad_sensor s.world slot sensor) [
          | none ↦ (err_notsup, s)
          | some (x, y, z) ↦ write_out data_ptr (to_le 4 x ++ (to_le 4 y ++ to_le 4 z)) s
        ]
  ]

  -- `h_gamepad_get_touchpad_finger`
  unfoldable pub get_touchpad_finger : ℕ → ℕ → ℕ → ℕ → Input W → ℕ × Input W
  get_touchpad_finger gh touchpad finger state_ptr s = elim (slot_from_handle s gh) [
    | none ↦ (err_inval, s)
    | some slot ↦
        if state_ptr == 0
        then (err_inval, s)
        else elim (plat.gamepad_touchpad_finger s.world slot touchpad finger) [
          | none ↦ (err_notsup, s)
          | some (is_down, x, y, pressure) ↦
              write_out state_ptr
                ((if is_down then 1 else 0) ∷ 0 ∷ 0 ∷ 0 ∷ []
                  ++ (to_le 4 x ++ (to_le 4 y ++ to_le 4 pressure)))
                s
        ]
  ]
